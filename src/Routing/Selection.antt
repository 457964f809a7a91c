-- ===== src/Routing/Selection.antt =====
-- What `routing_find_peer_for_dest` and `routing_parse_ipv4_dest` return.
use edgar_vpn.Prelude.{
  ℕ, zero, suc, ◌+◌, ◌*◌, ◌/◌, ◌^◌, ◌≤◌, ◌<◌, ◌≡◌, ◌≢◌, refl, ◌⊎◌, inl, inr, Bool, true, false,
  ◌&&◌, Option, none, some, List, [], ◌∷◌, Bytes, arith, length, get_elem?, get_or, Bool-cases, leb,
  ◌==◌, AreBytes,
}
use edgar_vpn.Config.{Config, ConfigPeer}
use edgar_vpn.Routing.{htonl, matches, find_from, find_peer_for_dest, parse_ipv4_dest}

-- The peer's AllowedIPs cover the destination.
abbrev pub covers : ConfigPeer → ℕ → Bool
covers p dest = matches dest p.allowed_address p.allowed_prefix

-- No peer of the first `n` covers the destination.
abbrev pub NoneBefore : ℕ → List ConfigPeer → ℕ → Type 0
NoneBefore zero peers dest = Unit
NoneBefore (suc n) [] dest = Unit
NoneBefore (suc n) (p ∷ peers) dest = (covers p dest ≡ false) × NoneBefore n peers dest

-- What a search from index `i` on may answer.
abbrev pub IsFirstCover : ℕ → List ConfigPeer → ℕ → Option ℕ → Type 0
IsFirstCover i peers dest none = NoneBefore (length peers) peers dest
IsFirstCover i peers dest (some found) =
    (n : ℕ) × (p : ConfigPeer) × (found ≡ i + n)
    × (get_elem? peers n ≡ some p)
    × (covers p dest ≡ true)
    × NoneBefore n peers dest

found_later :
    (i : ℕ) (p : ConfigPeer) (peers : List ConfigPeer) (dest : ℕ) (r : Option ℕ)
    → covers p dest ≡ false
    → IsFirstCover (suc i) peers dest r
    → IsFirstCover i (p ∷ peers) dest r
found_later i p peers dest none miss rest = (miss, rest)
found_later i p peers dest (some found) miss (n, q, at, get, covers, before) =
    (suc n, q, omega arith, get, covers, (miss, before))

find_from-IsFirstCover :
    (i : ℕ) (peers : List ConfigPeer) (dest : ℕ)
    → IsFirstCover i peers dest (find_from i peers dest)
unfolding find_from
find_from-IsFirstCover i [] dest = tt
find_from-IsFirstCover i (p ∷ peers) dest = elim (Bool-cases (covers p dest)) [
  | inl hit ↦ rw hit (0, p, omega arith, refl, hit, tt)
  | inr miss ↦ rw miss (
      found_later i p peers dest (find_from (suc i) peers dest) miss
        (find_from-IsFirstCover (suc i) peers dest))
]

-- The search answers with the first configured peer whose range covers the destination, and with
-- -1 only if there is none.
pub find_peer_for_dest-IsFirstCover :
    (cfg : Config) (dest : ℕ) → IsFirstCover 0 cfg.peers dest (find_peer_for_dest cfg dest)
unfolding find_peer_for_dest
find_peer_for_dest-IsFirstCover cfg dest = find_from-IsFirstCover 0 cfg.peers dest

-- The destination octets as they lie in memory.
abbrev in_memory : Bytes → ℕ
in_memory packet =
    get_or packet 16 0
    + get_or packet 17 0 * 2 ^ 8
    + get_or packet 18 0 * 2 ^ 16
    + get_or packet 19 0 * 2 ^ 24

-- A packet has a destination exactly if it has 20 bytes and begins with the nibble 4; the
-- destination is then the address that bytes 16 to 19 write, first octet first.
pub parse_ipv4_dest_lem :
    (packet : Bytes)
    → AreBytes packet
    → ((20 ≤ length packet)
        × (get_or packet 0 0 / 16 ≡ 4)
        × (dest : ℕ) × (parse_ipv4_dest packet ≡ some dest)
        × (htonl dest
            ≡ ((get_or packet 16 0 * 256 + get_or packet 17 0) * 256 + get_or packet 18 0) * 256
              + get_or packet 19 0)
        × (dest < 2 ^ 32))
      ⊎ (((length packet < 20) ⊎ (get_or packet 0 0 / 16 ≢ 4)) × (parse_ipv4_dest packet ≡ none))
unfolding parse_ipv4_dest htonl
parse_ipv4_dest_lem packet octs =
    let o16 = octs 16 in
    let o17 = octs 17 in
    let o18 = octs 18 in
    let o19 = octs 19 in
    elim (Bool-cases (leb 20 (length packet) && get_or packet 0 0 / 16 == 4)) [
      | inl good ↦
          inl (ground arith, ground arith, in_memory packet, ground arith, omega arith, omega arith)
      | inr bad ↦ inr (ground arith, ground arith)
    ]
