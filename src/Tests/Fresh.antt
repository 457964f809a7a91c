-- ===== src/Tests/Fresh.antt =====
-- Two daemons with one peer each, from their start on.
use edgar_vpn.Prelude.{◌≡◌, refl, some, [], ◌∷◌, ◌++◌, Bytes, get_elem?}
use edgar_vpn.Sodium.{DerivesLaw, SessionKeys}
use edgar_vpn.Crypto.{initiator, responder}
use edgar_vpn.Config.{Config, ConfigPeer}
use edgar_vpn.Session.State.{established}
use edgar_vpn.Session.Handshake.Agreement.{KeysMatch}
use edgar_vpn.Peer.State.{PeerSession, sent}
use edgar_vpn.Peer.Inbound.{find_peer_by_addr, handle_udp}
use edgar_vpn.Peer.Startup.{start_up}
use edgar_vpn.Peer.Connect.Fresh.{Knows, fresh_daemons_connect}
use edgar_vpn.Tests.Toy.{toy, toy-Laws}
use edgar_vpn.Tests.Routing.{two_peers, peer, ten_eight}
use edgar_vpn.Tests.Peer.{home, fine, launch}
use edgar_vpn.Tests.Learned.{elsewhere}

toy-DerivesLaw : DerivesLaw toy
toy-DerivesLaw = record { scalarmult_base-kx_keypair = λ seed. refl }

abbrev asking : ConfigPeer
asking = record (peer ten_eight 16) { role = initiator; public_key = (toy.kx_keypair 4).0 }

abbrev answering : ConfigPeer
answering = record (peer ten_eight 16) { role = responder; public_key = (toy.kx_keypair 3).0 }

abbrev asker : Config
asker = record two_peers { private_key = (toy.kx_keypair 3).1; peers = asking ∷ [] }

abbrev answerer : Config
answerer = record two_peers { private_key = (toy.kx_keypair 4).1; peers = answering ∷ [] }

asker-Knows : Knows toy asker asking initiator 3 4
asker-Knows = record { alone = refl; role_is = refl; secret = refl; public = refl }

answerer-Knows : Knows toy answerer answering responder 4 3
answerer-Knows = record { alone = refl; role_is = refl; secret = refl; public = refl }

abbrev exchanged : SessionKeys
exchanged = record {
  rx = 1 ∷ ((toy.kx_keypair 3).0 ++ (toy.kx_keypair 4).0);
  tx = 2 ∷ ((toy.kx_keypair 3).0 ++ (toy.kx_keypair 4).0);
}

abbrev agreed : SessionKeys
agreed = record {
  rx = 1 ∷ ((toy.kx_keypair 2).0 ++ (toy.kx_keypair 1).0);
  tx = 2 ∷ ((toy.kx_keypair 2).0 ++ (toy.kx_keypair 1).0);
}

fresh_daemons_connect_example :
    (init reply : Bytes) × (p q p' q' : PeerSession) × (start_up toy (λ i. launch) asker
      ≡ (some (p ∷ []), sent init home ∷ []))
    × (start_up toy (λ i. launch) answerer ≡ (some (q ∷ []), []))
    × (handle_udp toy fine (λ i. 9) 200 elsewhere init answerer (q ∷ [])
        ≡ (q' ∷ [], sent reply elsewhere ∷ []))
    × (get_elem? (handle_udp toy fine (λ i. 8) 300 home reply asker (p ∷ [])).0 0 ≡ some p')
    × (p'.session.state ≡ established)
    × (q'.session.state ≡ established)
    × KeysMatch p'.session.data_keys q'.session.data_keys
    × (find_peer_by_addr (q' ∷ []) elsewhere ≡ some 0)
fresh_daemons_connect_example =
    fresh_daemons_connect toy toy-Laws toy-DerivesLaw (λ i. launch) (λ i. launch) asker answerer
      asking answering 3 4 exchanged agreed fine fine (λ i. 8) (λ i. 9) 200 300 home elsewhere
      asker-Knows answerer-Knows refl refl refl (λ m. refl) (λ m. refl)
