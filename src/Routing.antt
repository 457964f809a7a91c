-- ===== src/Routing.antt =====
-- include/routing.h and src/routing.c: which peer an outbound packet goes to. An `in_addr` is the
-- number that a little-endian machine (x86-64, arm64) has in `s_addr`: the address's four octets
-- are in memory in the order in which they are written, so the first one is the lowest.
pub mod Prefix
pub mod Selection
use edgar_vpn.Config.{Config, ConfigPeer}
use edgar_vpn.Prelude.{
  ℕ, suc, ◌+◌, ◌-◌, ◌*◌, ◌/◌, ◌%◌, ◌^◌, bit_and, Bool, Option, none, some, List, [], ◌∷◌, Bytes,
  u32, ltb, ◌==◌, not, if◌then◌else◌, length, get_or,
}

-- `htonl` on a little-endian machine: the four octets in the opposite order.
unfoldable pub htonl : ℕ → ℕ
htonl x =
    x / 2 ^ 24 % 2 ^ 8
    + x / 2 ^ 16 % 2 ^ 8 * 2 ^ 8
    + x / 2 ^ 8 % 2 ^ 8 * 2 ^ 16
    + x % 2 ^ 8 * 2 ^ 24

-- `routing_parse_ipv4_dest`: `none` is -1. The four octets are copied into `s_addr`.
unfoldable pub parse_ipv4_dest : Bytes → Option ℕ
parse_ipv4_dest packet =
    if ltb (length packet) 20
    then none
    else if not (get_or packet 0 0 / 2 ^ 4 == 4)
    then none
    else some (
        get_or packet 16 0
        + get_or packet 17 0 * 2 ^ 8
        + get_or packet 18 0 * 2 ^ 16
        + get_or packet 19 0 * 2 ^ 24)

-- `(prefix == 0) ? 0 : htonl(~0U << (32 - prefix))`
unfoldable pub prefix_mask : ℕ → ℕ
unfolding htonl
prefix_mask prefix = if prefix == 0 then 0 else htonl (u32 ((2 ^ 32 - 1) * 2 ^ (32 - prefix)))

-- `routing_matches`
unfoldable pub matches : ℕ → ℕ → ℕ → Bool
matches addr network prefix =
    let mask = prefix_mask prefix in bit_and addr mask == bit_and network mask

-- The loop of `routing_find_peer_for_dest` over the peers from index `i` on.
unfoldable pub find_from : ℕ → List ConfigPeer → ℕ → Option ℕ
find_from i [] dest = none
find_from i (p ∷ peers) dest =
    let rest = find_from (suc i) peers dest in
    if matches dest p.allowed_address p.allowed_prefix then some i else rest

unfoldable pub find_peer_for_dest : Config → ℕ → Option ℕ
unfolding find_from
find_peer_for_dest cfg dest = find_from 0 cfg.peers dest
