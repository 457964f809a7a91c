-- ===== src/Peer/Loop/Signals.antt =====
-- src/main.c: `g_running`, and `handle_shutdown` that clears it.
use edgar_vpn.Prelude.{◌≡◌, refl, ap, Bool, true, false, List, [], ◌∷◌, ◌++◌, if◌then◌else◌}
use edgar_vpn.Peer.Loop.{Round}

-- What happens to the process from its loop on: SIGINT or SIGTERM, or that the loop goes round.
pub data Happening : Type 0 where
  signalled : Happening
  goes_round : Round → Happening

-- The handler, on `g_running`.
unfoldable pub handle_shutdown : Bool → Bool
handle_shutdown running = false

-- The rounds that `while (g_running)` begins. A signal during a round stands behind it: the round
-- comes to its end, with `poll` interrupted where it still waited.
unfoldable pub rounds_while : Bool → List Happening → List Round
unfolding handle_shutdown
rounds_while running [] = []
rounds_while running (signalled ∷ more) = rounds_while (handle_shutdown running) more
rounds_while running (goes_round r ∷ more) =
    let rest = rounds_while running more in if running then r ∷ rest else []

stopped : (more : List Happening) → rounds_while false more ≡ []
unfolding rounds_while
stopped [] = refl
stopped (signalled ∷ more) = stopped more
stopped (goes_round r ∷ more) = refl

-- After a signal no round begins, whatever happens.
pub rounds_while_stops :
    (before more : List Happening)
    → rounds_while true (before ++ (signalled ∷ more)) ≡ rounds_while true before
unfolding rounds_while
rounds_while_stops [] more = stopped more
rounds_while_stops (signalled ∷ before) more =
    rw (stopped before) (stopped (before ++ (signalled ∷ more)))
rounds_while_stops (goes_round r ∷ before) more =
    ap (λ rest. r ∷ rest) (rounds_while_stops before more)
