-- ===== src/Session/Replay/Kept.antt =====
-- What the freshness check keeps of the fields that it does not read.
use edgar_vpn.Prelude.{ℕ, ◌≡◌, arith}
use edgar_vpn.Session.State.{Session}
use edgar_vpn.Session.Replay.{check_and_mark}

-- The fields of the handshake and of sending, and the keys.
pub check_and_mark_keeps :
    (s : Session) (counter : ℕ)
    → let s' = (check_and_mark s counter).0 in
      (s'.state ≡ s.state)
      × (s'.static_keys ≡ s.static_keys)
      × (s'.local_eph_pk ≡ s.local_eph_pk)
      × (s'.local_eph_sk ≡ s.local_eph_sk)
      × (s'.handshake_counter ≡ s.handshake_counter)
      × (s'.pending_handshake_counter ≡ s.pending_handshake_counter)
      × (s'.highest_handshake_counter_seen ≡ s.highest_handshake_counter_seen)
      × (s'.data_keys ≡ s.data_keys)
      × (s'.tx_counter ≡ s.tx_counter)
unfolding check_and_mark
check_and_mark_keeps s counter = ground arith
