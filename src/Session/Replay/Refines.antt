-- ===== src/Session/Replay/Refines.antt =====
-- The window bitmap implements a set of counters: the specification of the freshness check keeps
-- every accepted counter for ever, and the bitmap answers as it does.
use edgar_vpn.Prelude.{
  ℕ, ◌+◌, ◌-◌, ◌≤◌, ◌<◌, ◌≡◌, refl, Bool, true, false, not, ◌&&◌, List, [], ◌∷◌, Bytes, arith, ltb,
  ◌==◌, if◌then◌else◌, elem, Bool-cases, lt→ltb, le→ltb, lt→leb, dec_lt, inl, inr,
}
use edgar_vpn.Session.State.{Session, replay_window_bits, empty_window}
use edgar_vpn.Session.Window.{
  replay_bit_get, replay_bit_set, IsWindow, get-set, empty_window-IsWindow, get-empty_window,
  replay_bit_set-IsWindow,
}
use edgar_vpn.Session.Replay.{slide, check_and_mark}
use edgar_vpn.Session.Replay.Slide.{slide-IsWindow, slide_keeps, slide_clears}

-- The highest counter of a history.
unfoldable pub highest : List ℕ → ℕ
highest [] = 0
highest (c ∷ seen) = if ltb (highest seen) c then c else highest seen

-- The specification: accept what was not accepted before, and is no more than a window's width
-- behind the highest counter accepted.
unfoldable pub is_fresh : List ℕ → ℕ → Bool
is_fresh [] counter = true
is_fresh (c ∷ seen) counter =
    ltb (highest (c ∷ seen)) (counter + replay_window_bits) && not (elem counter (c ∷ seen))

unfoldable pub record_fresh : List ℕ → ℕ → List ℕ
record_fresh seen counter = if is_fresh seen counter then counter ∷ seen else seen

-- A window, its flag and its highest counter stand for the counters accepted since the last
-- reset: the bits of the last `replay_window_bits` counters say which of them are among these.
abbrev pub Stands : Bytes → Bool → ℕ → List ℕ → Type 0
Stands w any top [] = IsWindow w × (any ≡ false) × ((d : ℕ) → replay_bit_get w d ≡ 0)
Stands w any top (c ∷ seen) =
    IsWindow w
    × (any ≡ true)
    × (top ≡ highest (c ∷ seen))
    × ((d : ℕ)
        → d ≤ top
        → top < d + replay_window_bits
        → replay_bit_get w d ≡ (if elem d (c ∷ seen) then 1 else 0))

abbrev pub Represents : Session → List ℕ → Type 0
Represents s seen = Stands s.replay_window s.have_received_any s.highest_rx_counter seen

elem_above : (seen : List ℕ) (d : ℕ) → highest seen < d → elem d seen ≡ false
unfolding highest
elem_above [] d h = refl
elem_above (c ∷ seen) d h = ground (arith, elem_above seen d)

-- The bit of one counter after another was marked, both within a window's width.
get-set_near :
    (w : Bytes) (c d : ℕ)
    → IsWindow w
    → d ≤ c
    → c < d + replay_window_bits
    → replay_bit_get (replay_bit_set w c) d ≡ (if d == c then 1 else replay_bit_get w d)
get-set_near w c d good low near = ground (arith, get-set w c d good)

-- The check answers as the specification does, and the bitmap goes on standing for the history.
abbrev pub Agrees : Session → List ℕ → ℕ → Type 0
Agrees s seen counter =
    ((check_and_mark s counter).1 ≡ is_fresh seen counter)
    × Represents (check_and_mark s counter).0 (record_fresh seen counter)

first-Agrees : (s : Session) (counter : ℕ) → Represents s [] → Agrees s [] counter
unfolding check_and_mark is_fresh record_fresh highest
first-Agrees s counter (good, flag, blank) = rw flag (
  refl,
  (
    replay_bit_set-IsWindow s.replay_window counter good,
    refl,
    ground arith,
    λ d low near. ground (arith, get-set_near s.replay_window counter d good low near, blank d),
  ),
)

module _ (s : Session) (counter c : ℕ) (seen : List ℕ) (r : Represents s (c ∷ seen)) where
  abbrev top : ℕ
  top = s.highest_rx_counter

  abbrev w : Bytes
  w = s.replay_window

  fresh_ahead : top < counter → is_fresh (c ∷ seen) counter ≡ true
  unfolding is_fresh
  fresh_ahead ahead = ground (arith, elem_above (c ∷ seen) counter)

  fresh_known : elem counter (c ∷ seen) ≡ true → is_fresh (c ∷ seen) counter ≡ false
  unfolding is_fresh
  fresh_known known = ground arith

  fresh_late :
      top < counter + replay_window_bits
      → elem counter (c ∷ seen) ≡ false
      → is_fresh (c ∷ seen) counter ≡ true
  unfolding is_fresh
  fresh_late near new = ground arith

  fresh_old : counter + replay_window_bits ≤ top → is_fresh (c ∷ seen) counter ≡ false
  unfolding is_fresh
  fresh_old old = ground arith

  refused :
      is_fresh (c ∷ seen) counter ≡ false
      → check_and_mark s counter ≡ (s, false)
      → Agrees s (c ∷ seen) counter
  unfolding record_fresh
  refused stale e = rw (e, stale) (refl, r)

  ahead-Agrees : top < counter → Agrees s (c ∷ seen) counter
  unfolding check_and_mark record_fresh
  ahead-Agrees ahead =
      let (good, flag, at, bits) = r in
      let slid = slide-IsWindow w top counter good ahead in
      rw (flag, lt→ltb top counter ahead, fresh_ahead ahead)
        (
          refl,
          (
            replay_bit_set-IsWindow (slide w top counter) counter slid,
            refl,
            unfold highest in ground arith,
            λ d low near. elim (dec_lt top d) [
              | yes new ↦ ground (
                arith,
                get-set_near (slide w top counter) counter d slid low near,
                slide_clears w top counter good ahead d new,
                elem_above (c ∷ seen) d,
              )
              | no old ↦ ground (
                arith,
                get-set_near (slide w top counter) counter d slid low near,
                slide_keeps w top counter good ahead d (omega arith) near,
                bits d,
              )
            ],
          ),
        )

  old-Agrees : counter + replay_window_bits ≤ top → Agrees s (c ∷ seen) counter
  old-Agrees old = refused (fresh_old old) (unfold check_and_mark in ground arith)

  seen-Agrees :
      counter ≤ top
      → top < counter + replay_window_bits
      → elem counter (c ∷ seen) ≡ true
      → Agrees s (c ∷ seen) counter
  seen-Agrees low near known =
      refused (fresh_known known) (unfold check_and_mark in ground (arith, r.3 counter low near))

  late-Agrees :
      counter ≤ top
      → top < counter + replay_window_bits
      → elem counter (c ∷ seen) ≡ false
      → Agrees s (c ∷ seen) counter
  unfolding check_and_mark record_fresh
  late-Agrees low near new =
      let (good, flag, at, bits) = r in
      let clear : replay_bit_get w counter ≡ 0 = rw (bits counter low near, new) refl in
      rw
        (
          flag,
          le→ltb top counter low,
          lt→leb (top - counter) replay_window_bits (omega arith),
          clear,
          fresh_late near new,
        )
        (
          refl,
          (
            replay_bit_set-IsWindow w counter good,
            refl,
            unfold highest in ground arith,
            λ d below close. ground (arith, get-set w counter d good, bits d below close),
          ),
        )

-- The sliding-window check of a session that stands for a history gives the answer of the
-- specification, and afterwards stands for the history with the counter, if accepted, added.
pub check_and_mark-Represents :
    (s : Session) (seen : List ℕ) (counter : ℕ)
    → Represents s seen
    → ((check_and_mark s counter).1 ≡ is_fresh seen counter)
      × Represents (check_and_mark s counter).0 (record_fresh seen counter)
check_and_mark-Represents s [] counter r = first-Agrees s counter r
check_and_mark-Represents s (c ∷ seen) counter r = elim (dec_lt s.highest_rx_counter counter) [
  | yes ahead ↦ ahead-Agrees s counter c seen r ahead
  | no behind ↦ elim (dec_lt s.highest_rx_counter (counter + replay_window_bits)) [
    | no old ↦ old-Agrees s counter c seen r (omega arith)
    | yes near ↦ elim (Bool-cases (elem counter (c ∷ seen))) [
      | inl known ↦ seen-Agrees s counter c seen r (omega arith) near known
      | inr new ↦ late-Agrees s counter c seen r (omega arith) near new
    ]
  ]
]

-- What is fresh was not accepted before.
pub fresh_is_new :
    (seen : List ℕ) (counter : ℕ) → is_fresh seen counter ≡ true → elem counter seen ≡ false
unfolding is_fresh
fresh_is_new [] counter e = refl
fresh_is_new (c ∷ seen) counter e = ground arith

-- A session that was just reset stands for the empty history.
pub reset-Stands : (highest_rx : ℕ) → Stands empty_window false highest_rx []
reset-Stands highest_rx = (empty_window-IsWindow, refl, get-empty_window)

-- The check changes the window, its flag and the highest counter, and nothing else.
pub check_and_mark_frame :
    (s : Session) (counter : ℕ)
    → let s' = (check_and_mark s counter).0 in
      (s'.role ≡ s.role)
      × (s'.state ≡ s.state)
      × (s'.tx_counter ≡ s.tx_counter)
      × (s'.handshake_counter ≡ s.handshake_counter)
      × (s'.have_seen_handshake ≡ s.have_seen_handshake)
      × (s'.highest_handshake_counter_seen ≡ s.highest_handshake_counter_seen)
      × (s'.data_keys ≡ s.data_keys)
unfolding check_and_mark
check_and_mark_frame s counter = ground arith

pub record_fresh_new :
    (seen : List ℕ) (counter : ℕ)
    → is_fresh seen counter ≡ true
    → record_fresh seen counter ≡ counter ∷ seen
unfolding record_fresh
record_fresh_new seen counter e = rw e refl

pub record_fresh_stale :
    (seen : List ℕ) (counter : ℕ) → is_fresh seen counter ≡ false → record_fresh seen counter ≡ seen
unfolding record_fresh
record_fresh_stale seen counter e = rw e refl

-- A counter is not fresh a second time.
pub accepted_not_fresh : (seen : List ℕ) (counter : ℕ) → is_fresh (counter ∷ seen) counter ≡ false
unfolding is_fresh
accepted_not_fresh seen counter = ground arith

-- A refused counter changes nothing.
pub check_and_mark_refused :
    (s : Session) (counter : ℕ)
    → (check_and_mark s counter).1 ≡ false
    → (check_and_mark s counter).0 ≡ s
unfolding check_and_mark
check_and_mark_refused s counter e = ground arith
