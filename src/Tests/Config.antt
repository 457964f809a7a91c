-- ===== src/Tests/Config.antt =====
-- A configuration file with one peer, loaded.
use edgar_vpn.Prelude.{
  ◌≤◌, ◌<◌, ◌≡◌, refl, ◌⊎◌, true, some, [], ◌∷◌, ◌++◌, Bytes, length, replicate,
}
use edgar_vpn.Crypto.{responder, decode_base64}
use edgar_vpn.Config.{Config}
use edgar_vpn.Config.Text.{trim, c_string, split_first, strtol, split_last}
use edgar_vpn.Config.Values.{Inet}
use edgar_vpn.Config.Load.{config_load}
use edgar_vpn.Config.Load.Peers.{AllValid}
use edgar_vpn.Config.Load.Valid.{config_load-AllValid}
use edgar_vpn.Tests.Toy.{toy}

-- A stand-in for the system's conversions of addresses.
abbrev pub somewhere : Inet
somewhere = record { inet_pton = λ text. some (length text); inet_ntop = λ a room. some (49 ∷ []) }

abbrev pub contents : Bytes
contents =
    (35 ∷ 32 ∷ 120 ∷ 10 ∷ 91 ∷ 105 ∷ 110 ∷ 116 ∷ 101 ∷ 114 ∷ 102 ∷ 97 ∷ 99 ∷ 101 ∷ 93 ∷ 10 ∷ 65
      ∷ 100 ∷ 100 ∷ 114 ∷ 101 ∷ 115 ∷ 115 ∷ 32 ∷ 61 ∷ 32 ∷ 49 ∷ 48 ∷ 46 ∷ 56 ∷ 46 ∷ 48 ∷ 46 ∷ 49
      ∷ 47 ∷ 50 ∷ 52 ∷ 10 ∷ 80 ∷ 114 ∷ 105 ∷ 118 ∷ 97 ∷ 116 ∷ 101 ∷ 75 ∷ 101 ∷ 121 ∷ 61 ∷ [])
    ++ (replicate 32 107
        ++ ((10 ∷ 91 ∷ 80 ∷ 101 ∷ 101 ∷ 114 ∷ 93 ∷ 10 ∷ 82 ∷ 111 ∷ 108 ∷ 101 ∷ 61 ∷ 82 ∷ 101 ∷ 115
              ∷ 112 ∷ 111 ∷ 110 ∷ 100 ∷ 101 ∷ 114 ∷ 10 ∷ 69 ∷ 110 ∷ 100 ∷ 112 ∷ 111 ∷ 105 ∷ 110
              ∷ 116 ∷ 32 ∷ 61 ∷ 32 ∷ 97 ∷ 58 ∷ 57 ∷ 57 ∷ 10 ∷ 65 ∷ 108 ∷ 108 ∷ 111 ∷ 119 ∷ 101 ∷ 100
              ∷ 73 ∷ 80 ∷ 115 ∷ 61 ∷ 49 ∷ 48 ∷ 46 ∷ 56 ∷ 46 ∷ 48 ∷ 46 ∷ 50 ∷ 47 ∷ 51 ∷ 50 ∷ 10 ∷ 80
              ∷ 117 ∷ 98 ∷ 108 ∷ 105 ∷ 99 ∷ 75 ∷ 101 ∷ 121 ∷ 32 ∷ 61 ∷ 32 ∷ [])
            ++ (replicate 32 112 ++ (10 ∷ []))))

abbrev loaded : Config
loaded = record {
  name = 117 ∷ 110 ∷ 110 ∷ 97 ∷ 109 ∷ 101 ∷ 100 ∷ 45 ∷ 112 ∷ 101 ∷ 101 ∷ 114 ∷ [];
  tun_name = 101 ∷ 100 ∷ 103 ∷ 97 ∷ 114 ∷ 48 ∷ [];
  tun_address = 49 ∷ 48 ∷ 46 ∷ 56 ∷ 46 ∷ 48 ∷ 46 ∷ 49 ∷ [];
  tun_netmask = 49 ∷ [];
  listen_port = 51820;
  has_private_key = true;
  private_key = replicate 32 107;
  peers =
      record {
        host = 97 ∷ [];
        port = 99;
        public_key = replicate 32 112;
        role = responder;
        allowed_address = 8;
        allowed_prefix = 32;
      }
      ∷ [];
}

loads : config_load toy somewhere (some contents) ≡ some loaded
unfolding config_load decode_base64 trim c_string split_first strtol split_last
loads = refl

config_load-AllValid_example :
    AllValid loaded.peers
    × (length loaded.peers ≤ 8)
    × (0 < loaded.listen_port)
    × (loaded.listen_port ≤ 65535)
    × (0 < length loaded.tun_name)
    × (length loaded.tun_name < 16)
    × (length loaded.name < 64)
    × (length loaded.tun_address < 16)
    × (length loaded.private_key ≡ 32)
    × ((loaded.peers ≡ []) ⊎ (loaded.has_private_key ≡ true))
config_load-AllValid_example = config_load-AllValid toy somewhere (some contents) loads
