-- ===== src/Tests/Sheet.antt =====
-- A sheet with two peers, written and read.
use edgar_vpn.Prelude.{
  ◌≡◌, refl, some, [], ◌∷◌, codes, arith, replicate, are_bytes, are_bytes-AreBytes,
}
use edgar_vpn.Sodium.{HasSize}
use edgar_vpn.Crypto.{initiator, responder}
use edgar_vpn.Config.Load.{config_load}
use edgar_vpn.Config.Sheet.{
  Sheet, SheetPeer, print, sheet_lines, config_meant, PeerWritable, Writable,
}
use edgar_vpn.Config.Sheet.RoundTrip.{config_load-print}
use edgar_vpn.Tests.Config.{somewhere}
use edgar_vpn.Tests.Keygen.{speller, speller-KeyTextLaws}

abbrev hub : SheetPeer
hub = record {
  host = codes "hub:1";
  port = 51820;
  public_key = replicate 32 5;
  role = initiator;
  allowed_text = codes "10.8.0.1";
  allowed_address = 8;
  allowed_prefix = 24;
}

abbrev spoke : SheetPeer
spoke = record hub { host = codes "spoke"; port = 9; role = responder; allowed_prefix = 0 }

abbrev page : Sheet
page = record {
  name = codes "home";
  device = codes "edgar7";
  address = codes "10.8.0.2";
  prefix = 24;
  netmask = codes "1";
  listen_port = 51821;
  private_key = replicate 32 6;
  peers = hub ∷ spoke ∷ [];
}

fives : HasSize 32 (replicate 32 5)
unfolding are_bytes
fives = (are_bytes-AreBytes (replicate 32 5) refl, refl)

sixes : HasSize 32 (replicate 32 6)
unfolding are_bytes
sixes = (are_bytes-AreBytes (replicate 32 6) refl, refl)

hub-PeerWritable : PeerWritable somewhere hub
hub-PeerWritable = record {
  host = (ground arith, omega arith, omega arith);
  port = (omega arith, omega arith);
  public_key = fives;
  allowed = (ground arith, omega arith, omega arith);
  no_slash = ground arith;
  known = refl;
  prefix = omega arith;
}

spoke-PeerWritable : PeerWritable somewhere spoke
spoke-PeerWritable = record {
  host = (ground arith, omega arith, omega arith);
  port = (omega arith, omega arith);
  public_key = fives;
  allowed = (ground arith, omega arith, omega arith);
  no_slash = ground arith;
  known = refl;
  prefix = omega arith;
}

page-Writable : Writable somewhere page 8
page-Writable = record {
  name = (ground arith, omega arith, omega arith);
  device = (ground arith, omega arith, omega arith);
  address = (ground arith, omega arith, omega arith);
  no_slash = ground arith;
  known = refl;
  prefix = omega arith;
  masked = refl;
  listen_port = (omega arith, omega arith);
  private_key = sixes;
  peers = (hub-PeerWritable, (spoke-PeerWritable, tt));
  few = omega arith;
}

config_load-print_example :
    config_load speller somewhere (some (print (sheet_lines speller page)))
    ≡ some (config_meant page)
config_load-print_example =
    config_load-print speller speller-KeyTextLaws somewhere page page-Writable
