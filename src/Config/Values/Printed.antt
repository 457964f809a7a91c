-- ===== src/Config/Values/Printed.antt =====
-- The parsers of values in src/config.c on values that are written in decimal.
use edgar_vpn.Prelude.{
  ℕ, ◌≤◌, ◌<◌, ◌≡◌, ◌≢◌, refl, false, none, some, [], ◌∷◌, ◌++◌, Bytes, arith, ltb, leb, ◌==◌,
  length, length-append,
}
use edgar_vpn.Config.{config_max_host}
use edgar_vpn.Config.Text.{split_first, split_last}
use edgar_vpn.Config.Text.Decimal.{decimal, Digits, decimal-Digits, decimal_size, strtol-decimal}
use edgar_vpn.Config.Values.{
  Inet, prefix_value, port_value, parse_cidr, parse_ip_prefix, parse_endpoint_value,
}
use edgar_vpn.Routing.{prefix_mask}

-- The character is not in the text.
abbrev pub Without : ℕ → Bytes → Type 0
Without c [] = Unit
Without c (d ∷ s) = (d ≢ c) × Without c s

split_first-append :
    (c : ℕ) (s t : Bytes) → Without c s → split_first c (s ++ (c ∷ t)) ≡ some (s, t)
unfolding split_first
split_first-append c [] t v = ground arith
split_first-append c (d ∷ s) t v =
    let other : (d == c) ≡ false = ground arith in rw (other, split_first-append c s t v.1) refl

split_last-Digits : (s : Bytes) → Digits s → split_last 58 s ≡ none
unfolding split_last
split_last-Digits [] v = refl
split_last-Digits (d ∷ s) v =
    let other : (d == 58) ≡ false = ground arith in rw (split_last-Digits s v.2, other) refl

split_last-append : (s t : Bytes) → Digits t → split_last 58 (s ++ (58 ∷ t)) ≡ some (s, t)
unfolding split_last
split_last-append [] t v = rw (split_last-Digits t v) refl
split_last-append (d ∷ s) t v = rw (split_last-append s t v) refl

prefix_value-decimal : (n : ℕ) → n ≤ 32 → prefix_value (decimal n) ≡ some n
unfolding prefix_value
prefix_value-decimal n small =
    let fits : ltb 32 n ≡ false = ground arith in
    rw (prefix_value, strtol-decimal n (omega arith), fits) refl

pub port_value-decimal : (n : ℕ) → 0 < n → n ≤ 65535 → port_value (decimal n) ≡ some n
unfolding port_value
port_value-decimal n some_port small =
    let above : (n == 0) ≡ false = ground arith in
    let fits : ltb 65535 n ≡ false = ground arith in
    rw (port_value, strtol-decimal n (omega arith), above, fits) refl

module _ (inet : Inet) (address : Bytes) (prefix parsed : ℕ) where
  cidr_size : length address < 400 → leb 512 (length (address ++ (47 ∷ decimal prefix))) ≡ false
  cidr_size short =
      let size = length-append address (47 ∷ decimal prefix) in
      let few = decimal_size prefix in ground arith

  pub parse_cidr_printed :
      {mask : Bytes}
      → Without 47 address
      → prefix ≤ 32
      → inet.inet_pton address ≡ some parsed
      → length address < 16
      → inet.inet_ntop (prefix_mask prefix) 16 ≡ some mask
      → parse_cidr inet (address ++ (47 ∷ decimal prefix)) 16 16 ≡ some (address, mask)
  unfolding parse_cidr
  parse_cidr_printed v small known short masked =
      let fits : leb 16 (length address) ≡ false = ground arith in
      rw
        (
          cidr_size (omega arith),
          split_first-append 47 address (decimal prefix) v,
          prefix_value-decimal prefix small,
          known,
          fits,
          masked,
        )
        refl

  pub parse_ip_prefix_printed :
      Without 47 address
      → prefix ≤ 32
      → inet.inet_pton address ≡ some parsed
      → length address < 400
      → parse_ip_prefix inet (address ++ (47 ∷ decimal prefix)) ≡ some (parsed, prefix)
  unfolding parse_ip_prefix
  parse_ip_prefix_printed v small known short =
      rw
        (
          cidr_size short,
          split_first-append 47 address (decimal prefix) v,
          prefix_value-decimal prefix small,
          known,
        )
        refl

pub parse_endpoint_printed :
    (host : Bytes) (port : ℕ)
    → 0 < length host
    → length host < 230
    → 0 < port
    → port ≤ 65535
    → parse_endpoint_value (host ++ (58 ∷ decimal port)) config_max_host ≡ some (host, port)
unfolding parse_endpoint_value
parse_endpoint_printed host port some_host short some_port small =
    let size = length-append host (58 ∷ decimal port) in
    let few = decimal_size port in
    let long : leb 256 (length (host ++ (58 ∷ decimal port))) ≡ false = ground arith in
    let above : (length host == 0) ≡ false = ground arith in
    let fits : leb 256 (length host) ≡ false = ground arith in
    rw
      (
        long,
        split_last-append host (decimal port) (decimal-Digits port),
        above,
        port_value-decimal port some_port small,
        fits,
      )
      refl
