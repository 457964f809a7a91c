-- ===== src/Session/Lifecycle.antt =====
-- The life of a session as a diagram: the handshake is pending, or the session is established. An
-- edge carries the uses of keys that are visible on it; bytes, keys and counters are left out.
pub mod Moves
pub mod Secrets
pub mod Wiped
use edgar_vpn.Prelude.{ℕ, List, [], ◌∷◌, ◌++◌}
use edgar_vpn.Crypto.{Role, initiator, responder}
use edgar_vpn.Session.State.{SessionState, handshake_pending, established}
use edgar_vpn.Session.Trace.{Event, handshake_sealed, keyed, data_sealed, data_accepted}

-- The edges. A session may be refused an operation, or begin a new handshake; only an initiator
-- asks and completes, only a responder answers.
pub data Move : Role → SessionState → List Event → SessionState → Type 0 where
  rests : {r : Role} {st : SessionState} → Move r st [] st
  restarts : {r : Role} {st : SessionState} → Move r st [] handshake_pending
  asks :
      {counter : ℕ}
      → Move initiator handshake_pending (handshake_sealed counter ∷ []) handshake_pending
  completes : Move initiator handshake_pending (keyed ∷ []) established
  answers :
      {st : SessionState} {counter : ℕ}
      → Move responder st (handshake_sealed counter ∷ keyed ∷ []) established
  carries_out : {r : Role} {counter : ℕ} → Move r established (data_sealed counter ∷ []) established
  carries_in :
      {r : Role} {counter : ℕ} → Move r established (data_accepted counter ∷ []) established

pub data Course : Role → SessionState → List Event → SessionState → Type 0 where
  here : {r : Role} {st : SessionState} → Course r st [] st
  onward :
      {r : Role} {a b c : SessionState} {es fs : List Event}
      → Move r a es b
      → Course r b fs c
      → Course r a (es ++ fs) c
