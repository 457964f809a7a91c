-- ===== src/Session/Replay/Slide.antt =====
-- Moving the window forward: which bits `slide` keeps and which it clears.
use edgar_vpn.Prelude.{
  ℕ, zero, suc, ◌+◌, ◌-◌, ◌≤◌, ◌<◌, ◌≡◌, refl, ◌∙◌, Bytes, arith, leb, ◌==◌, Bool-cases, inl, inr,
}
use edgar_vpn.Session.State.{replay_window_bits}
use edgar_vpn.Session.Window.{
  replay_bit_get, replay_bit_clear, IsWindow, get-clear, get-empty_window,
  replay_bit_clear-IsWindow, empty_window-IsWindow,
}
use edgar_vpn.Session.Replay.{clear_from, slide}

clear_from-IsWindow : (left c : ℕ) (w : Bytes) → IsWindow w → IsWindow (clear_from left c w)
unfolding clear_from
clear_from-IsWindow zero c w good = good
clear_from-IsWindow (suc left) c w good =
    clear_from-IsWindow left (c + 1) (replay_bit_clear w c) (replay_bit_clear-IsWindow w c good)

-- The loop leaves the bits behind it alone,
clear_from_keeps :
    (left c : ℕ) (w : Bytes) (d : ℕ)
    → IsWindow w
    → d < c
    → c + left ≤ d + replay_window_bits
    → replay_bit_get (clear_from left c w) d ≡ replay_bit_get w d
unfolding clear_from
clear_from_keeps zero c w d good low high = refl
clear_from_keeps (suc left) c w d good low high =
    clear_from_keeps left (c + 1) (replay_bit_clear w c) d (replay_bit_clear-IsWindow w c good)
      (omega arith) (omega arith)
    ∙ ground (arith, get-clear w c d good)

-- and clears each bit that it passes.
clear_from_clears :
    (left c : ℕ) (w : Bytes) (d : ℕ)
    → IsWindow w
    → c ≤ d
    → d < c + left
    → left ≤ replay_window_bits
    → replay_bit_get (clear_from left c w) d ≡ 0
unfolding clear_from
clear_from_clears zero c w d good low high short = absurd (omega arith)
clear_from_clears (suc left) c w d good low high short = elim (Bool-cases (c == d)) [
  | inl here ↦
      clear_from_keeps left (c + 1) (replay_bit_clear w c) d (replay_bit_clear-IsWindow w c good)
        (ground arith) (ground arith)
      ∙ ground (arith, get-clear w c d good)
  | inr later ↦
      clear_from_clears left (c + 1) (replay_bit_clear w c) d (replay_bit_clear-IsWindow w c good)
        (ground arith) (omega arith) (omega arith)
]

module _ (w : Bytes) (top counter : ℕ) (good : IsWindow w) (ahead : top < counter) where
  pub slide-IsWindow : IsWindow (slide w top counter)
  unfolding slide
  slide-IsWindow = elim (Bool-cases (leb replay_window_bits (counter - top))) [
    | inl far ↦ rw far empty_window-IsWindow
    | inr near ↦ rw near (clear_from-IsWindow (counter - (top + 1)) (top + 1) w good)
  ]

  -- After sliding, the bits of the old counters still in the window are as they were.
  pub slide_keeps :
      (d : ℕ)
      → d ≤ top
      → counter < d + replay_window_bits
      → replay_bit_get (slide w top counter) d ≡ replay_bit_get w d
  unfolding slide
  slide_keeps d old near =
      ground (
        arith,
        clear_from_keeps (counter - (top + 1)) (top + 1) w d good (omega arith) (omega arith),
      )

  -- The bits of the counters that were passed over are clear.
  pub slide_clears : (d : ℕ) → top < d → d < counter → replay_bit_get (slide w top counter) d ≡ 0
  unfolding slide
  slide_clears d new below = elim (Bool-cases (leb replay_window_bits (counter - top))) [
    | inl far ↦ rw far (get-empty_window d)
    | inr near ↦ rw near (
        clear_from_clears (counter - (top + 1)) (top + 1) w d good (omega arith) (omega arith)
          (ground arith))
  ]
