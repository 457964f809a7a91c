-- ===== src/Tests/Main.antt =====
-- The whole program, on a configuration with one peer and a stand-in for the system.
use edgar_vpn.Prelude.{
  ◌≡◌, refl, ◌⊎◌, true, false, none, some, List, [], ◌∷◌, Bytes, arith, take, ◌-◌,
}
use edgar_vpn.Config.{Config}
use edgar_vpn.Config.Text.{trim, c_string, split_first, strtol, split_last}
use edgar_vpn.Crypto.{crypto_init, decode_base64, derive_session_keys}
use edgar_vpn.Config.Load.{config_load}
use edgar_vpn.System.{◌>>=◌, or_close}
use edgar_vpn.System.Laws.{Same}
use edgar_vpn.Tun.{TunDevice, set_ifreq_ipv4, tun_configure, tun_open}
use edgar_vpn.Tun.Configured.{tun_configure_lem}
use edgar_vpn.Tun.Errno.{Alike, configure_steps, tun_configure-Alike}
use edgar_vpn.Udp.{udp_bind}
use edgar_vpn.Main.{Run, config_path, main}
use edgar_vpn.Main.Exit.{main-Same}
use edgar_vpn.Main.Outcome.{loaded, Outcome, main-Outcome, AllFromHistories, main-AllFromHistories}
use edgar_vpn.Tests.Toy.{toy}
use edgar_vpn.Tests.Config.{somewhere, contents}
use edgar_vpn.Tests.Peer.{launch}
use edgar_vpn.Peer.Loop.{Round}
use edgar_vpn.Peer.Loop.Signals.{Happening, signalled, goes_round, rounds_while}
use edgar_vpn.Tests.Loop.{three_rounds}
use edgar_vpn.Tests.Box.{hand_out, box, box-Laws, first_box}

abbrev tun0 : TunDevice
tun0 = record { fd = some 3; name = 116 ∷ 48 ∷ [] }

abbrev address_text : Bytes
address_text = 49 ∷ 48 ∷ []

abbrev mask_text : Bytes
mask_text = 50 ∷ []

configures : (tun_configure box somewhere tun0 address_text mask_text first_box).0 ≡ some 0
unfolding tun_configure ◌>>=◌ hand_out or_close set_ifreq_ipv4
configures = refl

tun_configure_lem_example :
    let i =
      box.interface
        (tun_configure box somewhere tun0 address_text mask_text first_box).1
        (take (16 - 1) tun0.name) in
    (somewhere.inet_pton address_text ≡ some i.address)
    × (somewhere.inet_pton mask_text ≡ some i.netmask)
    × (i.up ≡ true)
tun_configure_lem_example =
    tun_configure_lem box box-Laws somewhere tun0 address_text mask_text first_box configures

tun_configure-Alike_example :
    Alike box
      (tun_configure box somewhere tun0 address_text mask_text first_box)
      ((box.socket >>= configure_steps box somewhere tun0 address_text mask_text) first_box)
tun_configure-Alike_example =
    tun_configure-Alike box box-Laws somewhere tun0 address_text mask_text first_box

-- The rounds, a signal, and what comes too late.
abbrev ended : List Round → List Happening
ended [] = signalled ∷ signalled ∷ []
ended (r ∷ rounds) = goes_round r ∷ ended rounds

abbrev run : Run
run = record {
  config_file = some [];
  files = λ path. some contents;
  moments = λ i. launch;
  stats_ms = 7;
  happenings = ended three_rounds;
}

main-Same_example :
    Same (box.is_open first_box) (box.is_open (main toy somewhere box run first_box).2)
main-Same_example = main-Same toy somewhere box box-Laws run first_box

main-Outcome_example :
    let e = main toy somewhere box run first_box in
    ((cfg : Config) × (crypto_init toy ≡ true)
      × (loaded toy somewhere box run ≡ some cfg)
      × Outcome toy somewhere box run cfg first_box e.0 e.1)
    ⊎ (((crypto_init toy ≡ false) ⊎ (loaded toy somewhere box run ≡ none)) × (e.0 ≡ 1) × (e.1 ≡ []))
main-Outcome_example = main-Outcome toy somewhere box run first_box

ends_well : (main toy somewhere box run first_box).0 ≡ 0
unfolding main tun_configure tun_open udp_bind ◌>>=◌ hand_out or_close set_ifreq_ipv4 decode_base64
    trim c_string split_first strtol split_last derive_session_keys
ends_well = refl

main-AllFromHistories_example :
    (cfg : Config) × (config_load toy somewhere (run.files (config_path run.config_file))
      ≡ some cfg)
    × AllFromHistories toy run cfg (main toy somewhere box run first_box).1
unfolding rounds_while
main-AllFromHistories_example =
    main-AllFromHistories toy somewhere box run first_box (λ i. omega arith) ends_well
