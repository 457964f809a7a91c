-- ===== src/Session/Trace/Unique.antt =====
-- Over the whole life of a session: no nonce is used twice under a key, and no packet is accepted
-- twice.
use edgar_vpn.Prelude.{
  ℕ, suc, ◌+◌, ◌^◌, ◌<◌, ◌≡◌, refl, true, false, List, [], ◌∷◌, ◌++◌, Bytes, arith, length,
  Option-cases, inl, inr, u64,
}
use edgar_vpn.Sodium.{Sodium}
use edgar_vpn.Crypto.{Role, initiator, responder, derive_session_keys}
use edgar_vpn.Session.State.{Session, start_handshake}
use edgar_vpn.Session.Replay.Refines.{reset-Stands}
use edgar_vpn.Session.Handshake.{session_init}
use edgar_vpn.Session.Trace.{
  Op, Event, Ledger, step, run, IsUnique, AllSealed, enter_all, empty_ledger,
}
use edgar_vpn.Session.Trace.Sealed.{step-IsSealed}
use edgar_vpn.Session.Trace.Invariant.{Inv, HandshakeFits}
use edgar_vpn.Session.Trace.Steps.{step-Keeps}

IsUnique-append :
    (l : Ledger) (es fs : List Event)
    → IsUnique l es
    → IsUnique (enter_all l es) fs
    → IsUnique l (es ++ fs)
IsUnique-append l [] fs p q = q
IsUnique-append l (e ∷ es) fs p q = (p.0, IsUnique-append _ es fs p.1 q)

-- Any further operations seal each message under its key and the nonce of its counter.
pub run-AllSealed :
    (lib : Sodium) (s : Session) (l : Ledger) (n : ℕ) (ops : List Op)
    → Inv s l n
    → n + length ops < 2 ^ 64
    → AllSealed lib s ops
run-AllSealed lib s l n [] v small = tt
run-AllSealed lib s l n (op ∷ ops) v small =
    let (now, later) = step-Keeps lib s l n v op (omega arith) in
    (
      step-IsSealed lib s n (omega arith) op v.handshake_bound v.tx_bound,
      run-AllSealed lib (step lib s op).0 (enter_all l (step lib s op).1) (suc n) ops later
          (omega arith),
    )

-- Any further operations keep the uses of counters unique.
pub run-IsUnique :
    (lib : Sodium) (s : Session) (l : Ledger) (n : ℕ) (ops : List Op)
    → Inv s l n
    → n + length ops < 2 ^ 64
    → IsUnique l (run lib s ops).1
unfolding run
run-IsUnique lib s l n [] v small = tt
run-IsUnique lib s l n (op ∷ ops) v small =
    let (now, later) = step-Keeps lib s l n v op (omega arith) in
    IsUnique-append l (step lib s op).1 (run lib (step lib s op).0 ops).1 now (
      run-IsUnique lib (step lib s op).0 (enter_all l (step lib s op).1) (suc n) ops later
        (omega arith))

nothing_used : (r : Role) (next : ℕ) → HandshakeFits r next false 0 []
nothing_used initiator next = tt
nothing_used responder next = inl refl

session_init-Inv :
    (lib : Sodium) (now seed : ℕ) (role : Role) (pk sk peer : Bytes)
    → (session_init lib now seed role pk sk peer).1 ≡ true
    → now < 2 ^ 64
    → Inv (session_init lib now seed role pk sk peer).0 empty_ledger now
unfolding session_init start_handshake
session_init-Inv lib now seed role pk sk peer ok small =
    elim (Option-cases (derive_session_keys lib role pk sk peer)) [
      | inl bad ↦ absurd (ground arith)
      | inr (keys, good) ↦
          rw (good, session_init)
            (record {
              channel = (refl, reset-Stands 0);
              handshake = nothing_used role (u64 now);
              tx_bound = omega arith;
              handshake_bound = omega arith;
            })
    ]

-- From a session that `session_init` made at the time `now`, after any operations with any
-- arguments and any input from the network, no more of them than counters are left: the messages
-- that were sealed under the static key to send with all carry different counters, the packets
-- that were sealed under one set of data keys do, and so do those that were accepted under it;
-- and every message was encrypted under the session's key of its kind, with the nonce of the very
-- counter that it carries.
pub session_IsUnique :
    (lib : Sodium) (now seed : ℕ) (role : Role) (pk sk peer : Bytes) (ops : List Op)
    → (session_init lib now seed role pk sk peer).1 ≡ true
    → now + length ops < 2 ^ 64
    → let s = (session_init lib now seed role pk sk peer).0 in
      IsUnique empty_ledger (run lib s ops).1 × AllSealed lib s ops
session_IsUnique lib now seed role pk sk peer ops ok small =
    let v = session_init-Inv lib now seed role pk sk peer ok (omega arith) in
    (run-IsUnique lib _ empty_ledger now ops v small, run-AllSealed lib _ _ now ops v small)
