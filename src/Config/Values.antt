-- ===== src/Config/Values.antt =====
-- The parsers of values in src/config.c: `parse_cidr`, `parse_ip_prefix`, `parse_endpoint_value`.
pub mod Bounds
pub mod Printed
use edgar_vpn.Prelude.{
  ℕ, ◌+◌, ◌-◌, ◌*◌, ◌^◌, Bool, true, false, not, ◌&&◌, ◌||◌, Option, none, some, List, [], ◌∷◌,
  Bytes, leb, ltb, ◌==◌, u32, if◌then◌else◌, length,
}
use edgar_vpn.Config.{config_max_host}
use edgar_vpn.Config.Text.{Long, strtol, split_first, split_last}
use edgar_vpn.Routing.{prefix_mask}

-- `inet_pton` and `inet_ntop` of the system, for AF_INET; an address is the number in `s_addr`.
-- `inet_ntop address room` is `none` where the text does not fit `room` bytes with its zero.
pub record Inet : Type 0 where
  pub inet_pton : Bytes → Option ℕ
  pub inet_ntop : ℕ → ℕ → Option Bytes

-- `CONFIG_MAX_LINE`
abbrev pub config_max_line : ℕ
config_max_line = 512

-- The number behind the slash: `none` where `strtol` finds none, text follows, or it is not within
-- 0 and 32.
unfoldable pub prefix_value : Bytes → Option ℕ
prefix_value s = elim (strtol s) [
  | none ↦ none
  | some (n, rest) ↦
      if not (length rest == 0)
        || ((n.negative && not (n.amount == 0)) || (not n.negative && ltb 32 n.amount))
      then none
      else some n.amount
]

-- The same for a port, within 1 and 65535.
unfoldable pub port_value : Bytes → Option ℕ
port_value s = elim (strtol s) [
  | none ↦ none
  | some (n, rest) ↦
      if not (length rest == 0) || ((n.negative || n.amount == 0) || ltb 65535 n.amount)
      then none
      else some n.amount
]

module _ (inet : Inet) where
  -- `parse_cidr`: the address as it is written, and the netmask.
  unfoldable pub parse_cidr : Bytes → ℕ → ℕ → Option (Bytes × Bytes)
  unfolding prefix_value
  parse_cidr cidr addr_len mask_len =
      if leb config_max_line (length cidr) then none else elim (split_first 47 cidr) [
        | none ↦ none
        | some (address, prefix_str) ↦ elim (prefix_value prefix_str) [
          | none ↦ none
          | some prefix ↦ elim (inet.inet_pton address) [
            | none ↦ none
            | some parsed ↦
                if leb addr_len (length address)
                then none
                else elim (inet.inet_ntop (prefix_mask prefix) mask_len) [
                  | none ↦ none
                  | some mask ↦ some (address, mask)
                ]
          ]
        ]
      ]

  -- `parse_ip_prefix`
  unfoldable pub parse_ip_prefix : Bytes → Option (ℕ × ℕ)
  unfolding prefix_value
  parse_ip_prefix text =
      if leb config_max_line (length text) then none else elim (split_first 47 text) [
        | none ↦ none
        | some (address, prefix_str) ↦ elim (prefix_value prefix_str) [
          | none ↦ none
          | some prefix ↦ elim (inet.inet_pton address) [
            | none ↦ none
            | some parsed ↦ some (parsed, prefix)
          ]
        ]
      ]

-- `parse_endpoint_value`
unfoldable pub parse_endpoint_value : Bytes → ℕ → Option (Bytes × ℕ)
unfolding port_value
parse_endpoint_value value host_len =
    if leb config_max_host (length value) then none else elim (split_last 58 value) [
      | none ↦ none
      | some (host, port_str) ↦ if length host == 0 then none else elim (port_value port_str) [
        | none ↦ none
        | some port ↦ if leb host_len (length host) then none else some (host, port)
      ]
    ]
