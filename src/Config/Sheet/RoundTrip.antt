-- ===== src/Config/Sheet/RoundTrip.antt =====
-- A whole sheet, written and read by `config_load` of src/config.c.
use edgar_vpn.Prelude.{
  ℕ, ◌+◌, ◌≤◌, ◌<◌, ◌≡◌, refl, ◌∙◌, ap, true, false, not, ◌&&◌, some, List, [], ◌∷◌, ◌++◌, length,
  length-append, ◌==◌, arith,
}
use mathlib.Core.List.{append_assoc, append-nil}
use edgar_vpn.Sodium.{Sodium, KeyTextLaws}
use edgar_vpn.Config.{ConfigPeer}
use edgar_vpn.Config.Text.{fgets_parts}
use edgar_vpn.Config.Values.{Inet}
use edgar_vpn.Config.Load.{Loader, in_peer, has_all, load_lines, finish_load, config_load}
use edgar_vpn.Config.Sheet.{
  print, Sheet, SheetPeer, peer_meant, peers_meant, config_meant, all_peer_lines, sheet_lines,
  AllWritable, Writable,
}
use edgar_vpn.Config.Sheet.Lines.{parts}
use edgar_vpn.Config.Sheet.Interface.{interface_done, interface_read}
use edgar_vpn.Config.Sheet.Peers.{peer_done, peer_reads}

abbrev peers_done : List SheetPeer → Loader → Loader
peers_done [] l = l
peers_done (p ∷ peers) l = peers_done peers (peer_done p l)

module _ (lib : Sodium) (laws : KeyTextLaws lib) (inet : Inet) where
  peers_read :
      (peers : List SheetPeer) (l : Loader)
      → AllWritable inet peers
      → (in_peer l.section && not (has_all l)) ≡ false
      → length l.cfg.peers + length peers ≤ 8
      → load_lines lib inet (parts (all_peer_lines lib peers)) l ≡ some (peers_done peers l)
  unfolding load_lines print fgets_parts
  peers_read [] l w ready few = refl
  peers_read (p ∷ peers) l w ready few =
      let size = length-append l.cfg.peers (peer_meant p ∷ []) in
      peer_reads lib inet l laws p (all_peer_lines lib peers) w.0 ready (omega arith)
      ∙ peers_read peers (peer_done p l) w.1 refl (omega arith)

  finish_load-peers_done :
      (peers : List SheetPeer) (l : Loader)
      → (in_peer l.section && not (has_all l)) ≡ false
      → l.have_address ≡ true
      → l.cfg.has_private_key ≡ true
      → 0 < length l.cfg.tun_name
      → finish_load (peers_done peers l)
        ≡ some (record l.cfg { peers = l.cfg.peers ++ peers_meant peers })
  unfolding finish_load
  finish_load-peers_done [] l ready address key device =
      let named : (length l.cfg.tun_name == 0) ≡ false = ground arith in
      rw (ready, address, key, named, finish_load, append-nil l.cfg.peers) (ground arith)
  finish_load-peers_done (p ∷ peers) l ready address key device =
      finish_load-peers_done peers (peer_done p l) refl address key device
      ∙ ap (λ (ps : List ConfigPeer). some (record l.cfg { peers = ps }))
          (append_assoc l.cfg.peers (peer_meant p ∷ []) (peers_meant peers))

  -- A configuration file that says what a sheet says is loaded as just that, whatever the sheet:
  -- one line a key, `Key = value`, the values without spaces, of lengths that fit their buffers,
  -- and with numbers in their ranges; keys in base64; at most eight peers. `inet_pton` reads the
  -- addresses, which have no slash, and `inet_ntop` writes the netmask of the prefix.
  pub config_load-print :
      (s : Sheet) {parsed : ℕ}
      → Writable inet s parsed
      → config_load lib inet (some (print (sheet_lines lib s))) ≡ some (config_meant s)
  unfolding config_load
  config_load-print s {parsed} w =
      rw
        (
          config_load,
          interface_read lib laws inet s parsed w
              ∙ peers_read s.peers (interface_done s) w.peers refl (omega (arith, w.few)),
        )
        (finish_load-peers_done s.peers (interface_done s) refl refl refl w.device.1)
