-- ===== src/Tests/Routing.antt =====
-- Routing at concrete addresses.
use edgar_vpn.Prelude.{
  ℕ, ◌≡◌, ◌≢◌, ◌<◌, ◌≤◌, ◌^◌, ◌+◌, ◌*◌, ◌/◌, ◌↔◌, ◌⊎◌, refl, true, some, none, [], ◌∷◌, ◌++◌, Bytes,
  arith, replicate, length, get_or, AreBytes, are_bytes, are_bytes-AreBytes,
}
use edgar_vpn.Crypto.{initiator}
use edgar_vpn.Config.{Config, ConfigPeer}
use edgar_vpn.Routing.{matches, prefix_mask, find_peer_for_dest, parse_ipv4_dest, htonl}
use edgar_vpn.Routing.Prefix.{SamePrefix}
use edgar_vpn.Routing.Prefix.Every.{matches_iff}
use edgar_vpn.Routing.Selection.{IsFirstCover, find_peer_for_dest-IsFirstCover, parse_ipv4_dest_lem}

-- 10.8.1.7 and 10.8.0.0, as they lie in memory.
abbrev pub ten_eight_one_seven : ℕ
ten_eight_one_seven = 0x0701080a

abbrev pub ten_eight : ℕ
ten_eight = 0x0000080a

inside : matches ten_eight_one_seven ten_eight 16 ≡ true
unfolding matches prefix_mask
inside = refl

matches_iff_example :
    (matches ten_eight_one_seven ten_eight 23 ≡ true) ↔ SamePrefix 23 ten_eight_one_seven ten_eight
matches_iff_example =
    matches_iff 23 ten_eight_one_seven ten_eight (omega arith) (omega arith) (omega arith)

abbrev pub peer : ℕ → ℕ → ConfigPeer
peer address prefix = record {
  host = [];
  port = 51820;
  public_key = [];
  role = initiator;
  allowed_address = address;
  allowed_prefix = prefix;
}

abbrev pub two_peers : Config
two_peers = record {
  name = [];
  tun_name = [];
  tun_address = [];
  tun_netmask = [];
  listen_port = 51820;
  has_private_key = true;
  private_key = [];
  peers = peer ten_eight 32 ∷ peer ten_eight 16 ∷ [];
}

pub second_peer : find_peer_for_dest two_peers ten_eight_one_seven ≡ some 1
unfolding find_peer_for_dest matches prefix_mask
second_peer = refl

find_peer_for_dest-IsFirstCover_example :
    IsFirstCover 0 two_peers.peers ten_eight_one_seven
      (find_peer_for_dest two_peers ten_eight_one_seven)
find_peer_for_dest-IsFirstCover_example =
    find_peer_for_dest-IsFirstCover two_peers ten_eight_one_seven

abbrev pub header : Bytes
header = 69 ∷ (replicate 15 0 ++ (10 ∷ 8 ∷ 1 ∷ 7 ∷ []))

header-AreBytes : AreBytes header
unfolding are_bytes
header-AreBytes = are_bytes-AreBytes header refl

parse_ipv4_dest_lem_example :
    ((20 ≤ length header)
      × (get_or header 0 0 / 16 ≡ 4)
      × (dest : ℕ) × (parse_ipv4_dest header ≡ some dest)
      × (htonl dest
          ≡ ((get_or header 16 0 * 256 + get_or header 17 0) * 256 + get_or header 18 0) * 256
            + get_or header 19 0)
      × (dest < 2 ^ 32))
    ⊎ (((length header < 20) ⊎ (get_or header 0 0 / 16 ≢ 4)) × (parse_ipv4_dest header ≡ none))
parse_ipv4_dest_lem_example = parse_ipv4_dest_lem header header-AreBytes
