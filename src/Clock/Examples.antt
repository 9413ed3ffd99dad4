-- ===== src/Clock/Examples.antt =====
-- The theorems on the fake clock at concrete clocks.
use ofelia.Common.{◌≡◌, refl, none, some, arith}
use ofelia.Clock.{FakeClock, new_fake_clock, new_ticker, new_timer, after, advance_to}
use ofelia.Clock.Arriving.{IsAdvanced, advance_to-IsAdvanced}
use ofelia.Clock.Hanging.{advance_to-hangs}

-- A ticker each 10, a timer at 125 and a waiter at 130.
abbrev clock : FakeClock
clock = after 0 30 (new_timer 25 (new_ticker 10 (new_fake_clock 100)))

advance_to-IsAdvanced_example :
    (c' : FakeClock) × (advance_to 30 128 clock ≡ some c') × IsAdvanced 128 clock c'
unfolding ofelia.Clock.Advancing.all_tick ofelia.Clock.Advancing.rounds_left
advance_to-IsAdvanced_example = advance_to-IsAdvanced 30 128 clock refl (omega arith)

abbrev frozen : FakeClock
frozen = new_timer 25 (new_ticker 0 (new_fake_clock 100))

advance_to-hangs_example : advance_to 1000 101 frozen ≡ none
unfolding ofelia.Clock.Hanging.has_stuck
advance_to-hangs_example = advance_to-hangs 1000 101 frozen refl
