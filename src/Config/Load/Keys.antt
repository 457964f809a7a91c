-- ===== src/Config/Load/Keys.antt =====
-- The keys of a [Peer] section keep what holds between two lines.
use edgar_vpn.Prelude.{◌≡◌, inl, inr, true, some, Bytes, arith, Option-cases, Bool-cases}
use mathlib.Core.Path.{subst}
use edgar_vpn.Sodium.{Sodium}
use edgar_vpn.Crypto.{Role, decode_base64, public_key_bytes, initiator, responder}
use edgar_vpn.Config.{ConfigPeer, config_max_host}
use edgar_vpn.Config.Words.{word_endpoint, word_public_key, word_role, word_initiator}
use edgar_vpn.Config.Text.{same_word}
use edgar_vpn.Config.Values.{Inet, parse_ip_prefix, parse_endpoint_value}
use edgar_vpn.Config.Values.Bounds.{endpoint_bound, range_bound, decoded_length}
use edgar_vpn.Config.Load.{Loader, in_peer, set_cur, peer_key}
use edgar_vpn.Config.Load.Fits.{Fits}
use edgar_vpn.Config.Load.Peers.{PeersFit-update_last, length-update_last}

-- The peer's role is set.
abbrev with_role : Role → Loader → Loader
with_role r l = record (set_cur (λ p. record p { role = r }) l) { have_role = true }

with_role-Fits : (r : Role) (l : Loader) → Fits l → in_peer l.section ≡ true → Fits (with_role r l)
with_role-Fits r l v here =
    let f = λ (p : ConfigPeer). record p { role = r } in
    let n = length-update_last f l.cfg.peers in
    record {
      peers =
          PeersFit-update_last l.have_endpoint l.have_pubkey l.have_allowed l.have_endpoint
            l.have_pubkey l.have_allowed f (λ p h. (h.0, h.1, h.2)) l.cfg.peers v.peers;
      few = omega (arith, n, v.few);
      port = v.port;
      device = v.device;
      name = v.name;
      address = v.address;
      key = v.key;
      complete = inl here;
    }

module _ (lib : Sodium) (inet : Inet) where
  pub peer_key-Fits :
      (key value : Bytes) (l : Loader) {l' : Loader}
      → Fits l
      → in_peer l.section ≡ true
      → peer_key lib inet key value l ≡ some l'
      → Fits l'
  unfolding peer_key
  peer_key-Fits key value l {l'} v here e =
      let same = λ (f : ConfigPeer → ConfigPeer). length-update_last f l.cfg.peers in
      elim (Bool-cases (same_word key word_endpoint)) [
        | inl is_endpoint ↦ elim (Option-cases (parse_endpoint_value value config_max_host)) [
          | inl bad ↦ absurd (ground arith)
          | inr ((host, port), good) ↦
              let f = λ (p : ConfigPeer). record p { host = host; port = port } in
              let after : record (set_cur f l) { have_endpoint = true } ≡ l' = ground arith in
              let n = same f in
              subst Fits after (record {
                peers =
                    PeersFit-update_last l.have_endpoint l.have_pubkey l.have_allowed true
                      l.have_pubkey l.have_allowed f (λ p h. (endpoint_bound value good, h.1, h.2))
                      l.cfg.peers v.peers;
                few = omega (arith, n, v.few);
                port = v.port;
                device = v.device;
                name = v.name;
                address = v.address;
                key = v.key;
                complete = inl here;
              })
        ]
        | inr n1 ↦ elim (Bool-cases (same_word key word_public_key)) [
          | inl is_key ↦ elim (Option-cases (decode_base64 lib value public_key_bytes)) [
            | inl bad ↦ absurd (ground arith)
            | inr (bytes, good) ↦
                let f = λ (p : ConfigPeer). record p { public_key = bytes } in
                let after : record (set_cur f l) { have_pubkey = true } ≡ l' = ground arith in
                let n = same f in
                subst Fits after (record {
                  peers =
                      PeersFit-update_last l.have_endpoint l.have_pubkey l.have_allowed
                        l.have_endpoint true l.have_allowed f
                        (λ p h. (h.0, decoded_length lib value public_key_bytes good, h.2))
                        l.cfg.peers v.peers;
                  few = omega (arith, n, v.few);
                  port = v.port;
                  device = v.device;
                  name = v.name;
                  address = v.address;
                  key = v.key;
                  complete = inl here;
                })
          ]
          | inr n2 ↦ elim (Bool-cases (same_word key word_role)) [
            | inl is_role ↦ elim (Bool-cases (same_word value word_initiator)) [
              | inl starts ↦
                  subst Fits {x = with_role initiator l} (ground arith)
                    (with_role-Fits initiator l v here)
              | inr waits ↦
                  subst Fits {x = with_role responder l} (ground arith)
                    (with_role-Fits responder l v here)
            ]
            | inr n3 ↦ elim (Option-cases (parse_ip_prefix inet value)) [
              | inl bad ↦ absurd (ground arith)
              | inr ((address, prefix), good) ↦
                  let f = λ (p : ConfigPeer). record p {
                    allowed_address = address;
                    allowed_prefix = prefix;
                  } in
                  let after : record (set_cur f l) { have_allowed = true } ≡ l' = ground arith in
                  let n = same f in
                  subst Fits after (record {
                    peers =
                        PeersFit-update_last l.have_endpoint l.have_pubkey l.have_allowed
                          l.have_endpoint l.have_pubkey true f
                          (λ p h. (h.0, h.1, range_bound inet value good)) l.cfg.peers v.peers;
                    few = omega (arith, n, v.few);
                    port = v.port;
                    device = v.device;
                    name = v.name;
                    address = v.address;
                    key = v.key;
                    complete = inl here;
                  })
            ]
          ]
        ]
      ]
