-- ===== src/Tests/Session.antt =====
-- An initiator and a responder, from their first messages to a replayed packet.
use edgar_vpn.Prelude.{
  ◌+◌, ◌≡◌, refl, inl, true, false, some, none, List, [], ◌∷◌, ◌++◌, Bytes, arith, replicate, u64,
}
use edgar_vpn.Sodium.{SessionKeys}
use edgar_vpn.Crypto.{
  initiator, responder, seal, crypto_open, get_counter, build_nonce, put_counter,
  derive_session_keys,
}
use edgar_vpn.Session.State.{Session, handshake_pending, empty_window}
use edgar_vpn.Session.Replay.{check_and_mark}
use edgar_vpn.Session.Replay.Refines.{
  Represents, highest, is_fresh, record_fresh, reset-Stands, check_and_mark-Represents,
}
use edgar_vpn.Session.Handshake.{
  session_init, build_init, handle_init, answer_init, handle_response,
}
use edgar_vpn.Session.Handshake.Agreement.{
  sent_init, answered, completed, refreshed, handshake_completes,
}
use edgar_vpn.Session.Trace.Replayed.{handle_init_replay}
use edgar_vpn.Session.Channel.{seal_data, open_data}
use edgar_vpn.Session.Channel.Delivery.{delivered_once}
use edgar_vpn.Session.Trace.{
  Op, builds_init, takes_response, seals, opens, starts, run, IsUnique, AllSealed, empty_ledger,
}
use edgar_vpn.Session.Trace.Unique.{session_IsUnique}
use edgar_vpn.Tests.Toy.{toy, toy-Laws}

abbrev to_bob : Bytes
to_bob = 3 ∷ replicate 31 7

abbrev to_alice : Bytes
to_alice = 4 ∷ replicate 31 7

abbrev no_keys : SessionKeys
no_keys = record { rx = replicate 32 0; tx = replicate 32 0 }

-- The initiator, with the key pair of seed 5.
abbrev pub alice : Session
alice = record {
  role = initiator;
  state = handshake_pending;
  static_keys = record { rx = to_alice; tx = to_bob };
  local_eph_pk = 5 ∷ replicate 31 1;
  local_eph_sk = 5 ∷ replicate 31 2;
  handshake_counter = 1000;
  pending_handshake_counter = 0;
  have_seen_handshake = false;
  highest_handshake_counter_seen = 0;
  data_keys = no_keys;
  tx_counter = 0;
  highest_rx_counter = 0;
  have_received_any = false;
  replay_window = empty_window;
}

-- The responder, with the key pair of seed 6.
abbrev pub bob : Session
bob = record {
  role = responder;
  state = handshake_pending;
  static_keys = record { rx = to_bob; tx = to_alice };
  local_eph_pk = 6 ∷ replicate 31 1;
  local_eph_sk = 6 ∷ replicate 31 2;
  handshake_counter = 900;
  pending_handshake_counter = 0;
  have_seen_handshake = false;
  highest_handshake_counter_seen = 0;
  data_keys = no_keys;
  tx_counter = 0;
  highest_rx_counter = 0;
  have_received_any = false;
  replay_window = empty_window;
}

abbrev pub agreed : SessionKeys
agreed = record {
  rx = 1 ∷ ((5 ∷ replicate 31 1) ++ (6 ∷ replicate 31 1));
  tx = 2 ∷ ((5 ∷ replicate 31 1) ++ (6 ∷ replicate 31 1));
}

handshake_completes_example :
    (init reply : Bytes) × (build_init toy alice 2073 ≡ (sent_init alice, some init))
    × (handle_init toy 9 bob init 57 ≡ (
      answered (refreshed toy 9 bob) (record { rx = agreed.tx; tx = agreed.rx }) 1000,
      some reply,
    ))
    × (handle_response toy (sent_init alice) reply ≡ (completed (sent_init alice) agreed, true))
handshake_completes_example =
    handshake_completes toy toy-Laws alice bob 5 6 9 2073 57 agreed refl refl (refl, refl) refl
      (refl, refl) (refl, refl) (omega arith) (inl refl) refl (omega arith) (omega arith)

abbrev counter_1000 : Bytes
counter_1000 = 232 ∷ 3 ∷ 0 ∷ 0 ∷ 0 ∷ 0 ∷ 0 ∷ 0 ∷ []

-- The message that `alice` builds, and the answer of `bob`.
abbrev pub init_message : Bytes
init_message =
    1 ∷ (counter_1000 ++ counter_1000 ++ (3 ∷ 7 ∷ 7 ∷ 7 ∷ 0 ∷ 0 ∷ 0 ∷ 0 ∷ 5 ∷ replicate 31 1))

abbrev pub reply_message : Bytes
reply_message =
    2 ∷ (counter_1000 ++ counter_1000 ++ (4 ∷ 7 ∷ 7 ∷ 7 ∷ 0 ∷ 0 ∷ 0 ∷ 0 ∷ 6 ∷ replicate 31 1))

abbrev crosswise : SessionKeys
crosswise = record { rx = agreed.tx; tx = agreed.rx }

abbrev pub bob_up : Session
bob_up = answered bob crosswise 1000

abbrev pub alice_up : Session
alice_up = completed (sent_init alice) agreed

alice_builds : build_init toy alice 57 ≡ (sent_init alice, some init_message)
unfolding build_init seal build_nonce put_counter
alice_builds = refl

bob_answers : handle_init toy 9 bob init_message 57 ≡ (bob_up, some reply_message)
unfolding handle_init answer_init derive_session_keys seal crypto_open get_counter build_nonce
    put_counter
bob_answers = refl

alice_completes : handle_response toy (sent_init alice) reply_message ≡ (alice_up, true)
unfolding handle_response derive_session_keys crypto_open get_counter build_nonce put_counter
alice_completes = refl

handle_init_replay_example :
    handle_init toy 10 (run toy bob_up (starts 3 ∷ [])).0 init_message 57
    ≡ ((run toy bob_up (starts 3 ∷ [])).0, none)
handle_init_replay_example =
    handle_init_replay toy 9 bob init_message 57 bob_answers (starts 3 ∷ []) 10 57

abbrev pub bob_marked : Session
unfolding check_and_mark
bob_marked = (check_and_mark bob_up 7).0

pub marked_stands : Represents bob_marked (7 ∷ [])
unfolding check_and_mark is_fresh record_fresh
marked_stands = (check_and_mark-Represents bob_up [] 7 (reset-Stands 0)).1

check_and_mark-Represents_example :
    ((check_and_mark bob_marked 3).1 ≡ is_fresh (7 ∷ []) 3)
    × Represents (check_and_mark bob_marked 3).0 (record_fresh (7 ∷ []) 3)
check_and_mark-Represents_example = check_and_mark-Represents bob_marked (7 ∷ []) 3 marked_stands

delivered_once_example :
    (message : Bytes) × (b' : Session) × (seal_data toy alice_up (69 ∷ []) 26
      ≡ (record alice_up { tx_counter = u64 (0 + 1) }, some message))
    × (open_data toy bob_marked message 2048
        ≡ record { session = b'; written = some (69 ∷ []); result = some 1 })
    × Represents b' (0 ∷ 7 ∷ [])
    × (open_data toy b' message 2048
        ≡ record { session = b'; written = some (69 ∷ []); result = none })
unfolding check_and_mark is_fresh highest
delivered_once_example =
    delivered_once toy toy-Laws alice_up bob_marked (69 ∷ []) 26 2048 (7 ∷ []) refl refl refl
      (omega arith) (omega arith) (omega arith) marked_stands refl

abbrev pub some_ops : List Op
some_ops =
    builds_init 57
    ∷ takes_response reply_message
    ∷ seals (69 ∷ []) 26
    ∷ seals [] 25
    ∷ starts 8
    ∷ opens [] 0
    ∷ []

session_IsUnique_example :
    IsUnique empty_ledger
      (run toy (session_init toy 1000 5 initiator to_bob [] to_alice).0 some_ops).1
    × AllSealed toy (session_init toy 1000 5 initiator to_bob [] to_alice).0 some_ops
unfolding session_init derive_session_keys
session_IsUnique_example =
    session_IsUnique toy 1000 5 initiator to_bob [] to_alice some_ops refl (omega arith)
