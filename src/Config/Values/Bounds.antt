-- ===== src/Config/Values/Bounds.antt =====
-- What the parsers of values let through.
use edgar_vpn.Prelude.{ℕ, ◌≤◌, ◌<◌, ◌≡◌, inl, inr, some, Bytes, arith, length, Option-cases}
use edgar_vpn.Sodium.{Sodium}
use edgar_vpn.Crypto.{decode_base64}
use edgar_vpn.Config.{config_max_host}
use edgar_vpn.Routing.{prefix_mask}
use edgar_vpn.Config.Text.{strtol, split_first, split_last}
use edgar_vpn.Config.Values.{
  Inet, prefix_value, port_value, parse_cidr, parse_ip_prefix, parse_endpoint_value,
}

pub prefix_value_bound : (s : Bytes) {n : ℕ} → prefix_value s ≡ some n → n ≤ 32
unfolding prefix_value
prefix_value_bound s {n} e = elim (Option-cases (strtol s)) [
  | inl bad ↦ absurd (ground arith)
  | inr ((long, rest), good) ↦ ground arith
]

pub port_value_bound : (s : Bytes) {n : ℕ} → port_value s ≡ some n → (0 < n) × (n ≤ 65535)
unfolding port_value
port_value_bound s {n} e = elim (Option-cases (strtol s)) [
  | inl bad ↦ absurd (ground arith)
  | inr ((long, rest), good) ↦ (ground arith, ground arith)
]

pub endpoint_bound :
    (value : Bytes) {host : Bytes} {port : ℕ}
    → parse_endpoint_value value config_max_host ≡ some (host, port)
    → (0 < length host) × (length host < config_max_host) × (0 < port) × (port ≤ 65535)
unfolding parse_endpoint_value
endpoint_bound value {host} {port} e = elim (Option-cases (split_last 58 value)) [
  | inl bad ↦ absurd (ground arith)
  | inr ((h, port_str), good) ↦ elim (Option-cases (port_value port_str)) [
    | inl bad ↦ absurd (ground arith)
    | inr (p, parsed) ↦
        let bounds = port_value_bound port_str parsed in
        (ground arith, ground arith, ground arith, ground arith)
  ]
]

pub range_bound :
    (inet : Inet) (text : Bytes) {address prefix : ℕ}
    → parse_ip_prefix inet text ≡ some (address, prefix)
    → prefix ≤ 32
unfolding parse_ip_prefix
range_bound inet text {address} {prefix} e = elim (Option-cases (split_first 47 text)) [
  | inl bad ↦ absurd (ground arith)
  | inr ((a, s), good) ↦ elim (Option-cases (prefix_value s)) [
    | inl bad ↦ absurd (ground arith)
    | inr (n, parsed) ↦
        let bound = prefix_value_bound s parsed in
        elim (Option-cases (inet.inet_pton a)) [
          | inl bad ↦ absurd (ground arith)
          | inr (number, known) ↦ ground arith
        ]
  ]
]

pub decoded_length :
    (lib : Sodium) (text : Bytes) (n : ℕ) {bytes : Bytes}
    → decode_base64 lib text n ≡ some bytes
    → length bytes ≡ n
unfolding decode_base64
decoded_length lib text n {bytes} e = elim (Option-cases (lib.base642bin text n)) [
  | inl bad ↦ absurd (ground arith)
  | inr (out, good) ↦ ground arith
]

pub cidr_bound :
    (inet : Inet) (text : Bytes) (n m : ℕ) {address mask : Bytes}
    → parse_cidr inet text n m ≡ some (address, mask)
    → length address < n
unfolding parse_cidr
cidr_bound inet text n m {address} {mask} e = elim (Option-cases (split_first 47 text)) [
  | inl bad ↦ absurd (ground arith)
  | inr ((a, s), good) ↦ elim (Option-cases (prefix_value s)) [
    | inl bad ↦ absurd (ground arith)
    | inr (k, parsed) ↦ elim (Option-cases (inet.inet_pton a)) [
      | inl bad ↦ absurd (ground arith)
      | inr (number, known) ↦ elim (Option-cases (inet.inet_ntop (prefix_mask k) m)) [
        | inl bad ↦ absurd (ground arith)
        | inr (t, written) ↦ ground arith
      ]
    ]
  ]
]
