-- ===== src/Session/Replay.antt =====
-- `replay_check_and_mark`: the sliding-window freshness check of the data channel.
mod Slide
pub mod Refines
pub mod Kept
use edgar_vpn.Prelude.{
  ℕ, zero, suc, ◌+◌, ◌-◌, Bool, true, false, Bytes, leb, ltb, ◌==◌, if◌then◌else◌,
}
use edgar_vpn.Session.State.{Session, replay_window_bits, empty_window}
use edgar_vpn.Session.Window.{replay_bit_get, replay_bit_set, replay_bit_clear}

-- `for (c = highest_rx_counter + 1; c < counter; c++)`, with `left` rounds to go.
unfoldable pub clear_from : ℕ → ℕ → Bytes → Bytes
clear_from zero c window = window
clear_from (suc left) c window = clear_from left (c + 1) (replay_bit_clear window c)

-- The window after it has moved forward to `counter`, before `counter` is marked.
unfoldable pub slide : Bytes → ℕ → ℕ → Bytes
slide window highest counter =
    if leb replay_window_bits (counter - highest)
    then empty_window
    else clear_from (counter - (highest + 1)) (highest + 1) window

unfoldable pub check_and_mark : Session → ℕ → Session × Bool
check_and_mark s counter =
    if s.have_received_any
    then if ltb s.highest_rx_counter counter
      then (
        record s {
          replay_window =
              replay_bit_set (slide s.replay_window s.highest_rx_counter counter) counter;
          highest_rx_counter = counter;
        },
        true,
      )
      else if leb replay_window_bits (s.highest_rx_counter - counter)
      then (s, false)
      else if replay_bit_get s.replay_window counter == 1
      then (s, false)
      else (record s { replay_window = replay_bit_set s.replay_window counter }, true)
    else (
      record s {
        replay_window = replay_bit_set s.replay_window counter;
        highest_rx_counter = counter;
        have_received_any = true;
      },
      true,
    )
