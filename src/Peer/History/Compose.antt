-- ===== src/Peer/History/Compose.antt =====
-- Handlers one after the other: the histories are joined, peer by peer.
use edgar_vpn.Prelude.{
  ℕ, ◌+◌, ◌≤◌, ◌≡◌, refl, sym, ap, ◌∙◌, inl, inr, List, [], ◌∷◌, ◌++◌, arith, length-append,
}
use mathlib.Core.Path.{subst}
use edgar_vpn.Sodium.{Sodium}
use edgar_vpn.Session.State.{Session}
use edgar_vpn.Session.Trace.{Op, step, run}
use edgar_vpn.Peer.State.{PeerSession, Effect}
use edgar_vpn.Peer.History.{
  RunYields, AllFromRun, Acts, Histories, later, Follows, SomeYields, AllYielded, ActsOnAll,
}

module _ (lib : Sodium) where
  run-append :
      (s : Session) (xs ys : List Op) → (run lib s (xs ++ ys)).0 ≡ (run lib (run lib s xs).0 ys).0
  unfolding run
  run-append s [] ys = refl
  run-append s (op ∷ xs) ys = run-append (step lib s op).0 xs ys

  RunYields-left :
      (s : Session) (xs ys : List Op) (e : Effect)
      → RunYields lib s xs e
      → RunYields lib s (xs ++ ys) e
  RunYields-left s [] ys e y = absurd y
  RunYields-left s (op ∷ xs) ys e (inl now) = inl now
  RunYields-left s (op ∷ xs) ys e (inr then_) = inr (RunYields-left (step lib s op).0 xs ys e then_)

  RunYields-right :
      (s : Session) (xs ys : List Op) (e : Effect)
      → RunYields lib (run lib s xs).0 ys e
      → RunYields lib s (xs ++ ys) e
  unfolding run
  RunYields-right s [] ys e y = y
  RunYields-right s (op ∷ xs) ys e y = inr (RunYields-right (step lib s op).0 xs ys e y)

  AllFromRun-left :
      (s : Session) (xs ys : List Op) (es : List Effect)
      → AllFromRun lib s xs es
      → AllFromRun lib s (xs ++ ys) es
  AllFromRun-left s xs ys [] all = tt
  AllFromRun-left s xs ys (e ∷ es) all =
      (RunYields-left s xs ys e all.0, AllFromRun-left s xs ys es all.1)

  AllFromRun-right :
      (s : Session) (xs ys : List Op) (es : List Effect)
      → AllFromRun lib (run lib s xs).0 ys es
      → AllFromRun lib s (xs ++ ys) es
  AllFromRun-right s xs ys [] all = tt
  AllFromRun-right s xs ys (e ∷ es) all =
      (RunYields-right s xs ys e all.0, AllFromRun-right s xs ys es all.1)

  AllFromRun-append :
      (s : Session) (ops : List Op) (es fs : List Effect)
      → AllFromRun lib s ops es
      → AllFromRun lib s ops fs
      → AllFromRun lib s ops (es ++ fs)
  AllFromRun-append s ops [] fs p q = q
  AllFromRun-append s ops (e ∷ es) fs p q = (p.0, AllFromRun-append s ops es fs p.1 q)

  -- Two handlers of one peer.
  pub Acts-then :
      (n m : ℕ) (p q r : PeerSession) (es fs : List Effect)
      → Acts lib n p (q, es)
      → Acts lib m q (r, fs)
      → Acts lib (n + m) p (r, es ++ fs)
  Acts-then n m p q r es fs (xs, few, s, c, all) (ys, few', s', c', all') =
      let sum = length-append xs ys in
      (
        xs ++ ys,
        omega arith,
        s' ∙ ap (λ σ. (run lib σ ys).0) s ∙ sym (run-append p.session xs ys),
        c' ∙ c,
        AllFromRun-append p.session (xs ++ ys) es fs (AllFromRun-left p.session xs ys es all)
            (AllFromRun-right p.session xs ys fs (subst (λ σ. AllFromRun lib σ ys fs) s all')),
      )

  abbrev joined : Histories → Histories → Histories
  joined h k i = h i ++ k i

  pub Follows-then :
      (n m : ℕ) (ps qs rs : List PeerSession) (h k : Histories)
      → Follows lib n ps h qs
      → Follows lib m qs k rs
      → Follows lib (n + m) ps (joined h k) rs
  Follows-then n m [] [] [] h k v w = tt
  Follows-then n m [] [] (r ∷ rs) h k v w = absurd w
  Follows-then n m [] (q ∷ qs) rs h k v w = absurd v
  Follows-then n m (p ∷ ps) [] rs h k v w = absurd v
  Follows-then n m (p ∷ ps) (q ∷ qs) [] h k v w = absurd w
  Follows-then n m (p ∷ ps) (q ∷ qs) (r ∷ rs) h k (few, s, c, rest) (few', s', c', rest') =
      let sum = length-append (h 0) (k 0) in
      (
        omega arith,
        s' ∙ ap (λ σ. (run lib σ (k 0)).0) s ∙ sym (run-append p.session (h 0) (k 0)),
        c' ∙ c,
        Follows-then n m ps qs rs (later h) (later k) rest rest',
      )

  SomeYields-left :
      (ps : List PeerSession) (h k : Histories) (e : Effect)
      → SomeYields lib ps h e
      → SomeYields lib ps (joined h k) e
  SomeYields-left [] h k e y = absurd y
  SomeYields-left (p ∷ ps) h k e (inl this) = inl (RunYields-left p.session (h 0) (k 0) e this)
  SomeYields-left (p ∷ ps) h k e (inr other) = inr (SomeYields-left ps (later h) (later k) e other)

  SomeYields-right :
      (n : ℕ) (ps qs : List PeerSession) (h k : Histories) (e : Effect)
      → Follows lib n ps h qs
      → SomeYields lib qs k e
      → SomeYields lib ps (joined h k) e
  SomeYields-right n [] [] h k e v y = absurd y
  SomeYields-right n [] (q ∷ qs) h k e v y = absurd v
  SomeYields-right n (p ∷ ps) [] h k e v y = absurd v
  SomeYields-right n (p ∷ ps) (q ∷ qs) h k e v (inl this) =
      inl (RunYields-right p.session (h 0) (k 0) e (subst (λ σ. RunYields lib σ (k 0) e) v.1 this))
  SomeYields-right n (p ∷ ps) (q ∷ qs) h k e v (inr other) =
      inr (SomeYields-right n ps qs (later h) (later k) e v.3 other)

  AllYielded-then :
      (n : ℕ) (ps qs : List PeerSession) (h k : Histories) (es fs : List Effect)
      → Follows lib n ps h qs
      → AllYielded lib ps h es
      → AllYielded lib qs k fs
      → AllYielded lib ps (joined h k) (es ++ fs)
  AllYielded-then n ps qs h k [] [] v p q = tt
  AllYielded-then n ps qs h k [] (f ∷ fs) v p q =
      (SomeYields-right n ps qs h k f v q.0, AllYielded-then n ps qs h k [] fs v tt q.1)
  AllYielded-then n ps qs h k (e ∷ es) fs v p q =
      (SomeYields-left ps h k e p.0, AllYielded-then n ps qs h k es fs v p.1 q)

  -- Two handlers of all peers.
  pub ActsOnAll-then :
      (n m : ℕ) (ps qs rs : List PeerSession) (es fs : List Effect)
      → ActsOnAll lib n ps (qs, es)
      → ActsOnAll lib m qs (rs, fs)
      → ActsOnAll lib (n + m) ps (rs, es ++ fs)
  ActsOnAll-then n m ps qs rs es fs (h, v, all) (k, w, all') =
      (joined h k, Follows-then n m ps qs rs h k v w, AllYielded-then n ps qs h k es fs v all all')

  pub AllYielded-append :
      (ps : List PeerSession) (h : Histories) (es fs : List Effect)
      → AllYielded lib ps h es
      → AllYielded lib ps h fs
      → AllYielded lib ps h (es ++ fs)
  AllYielded-append ps h [] fs p q = q
  AllYielded-append ps h (e ∷ es) fs p q = (p.0, AllYielded-append ps h es fs p.1 q)

  -- More operations are allowed.
  Follows-mono :
      (n m : ℕ) (ps qs : List PeerSession) (h : Histories)
      → n ≤ m
      → Follows lib n ps h qs
      → Follows lib m ps h qs
  Follows-mono n m [] [] h le v = tt
  Follows-mono n m [] (q ∷ qs) h le v = absurd v
  Follows-mono n m (p ∷ ps) [] h le v = absurd v
  Follows-mono n m (p ∷ ps) (q ∷ qs) h le v =
      (omega arith, v.1, v.2, Follows-mono n m ps qs (later h) le v.3)

  pub ActsOnAll-mono :
      (n m : ℕ) (ps : List PeerSession) (r : List PeerSession × List Effect)
      → n ≤ m
      → ActsOnAll lib n ps r
      → ActsOnAll lib m ps r
  ActsOnAll-mono n m ps (qs, out) le (h, v, all) = (h, Follows-mono n m ps qs h le v, all)
