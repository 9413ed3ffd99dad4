-- ===== src/Clock.antt =====
-- core/clock.go, `FakeClock`: a clock that moves only when it is told to, and its tickers, timers and
-- waiters.
--
-- Times and durations are natural numbers of nanoseconds. A channel of capacity 1 is the value that
-- it holds, if any; the channel of a waiter is a number, and `received` lists what was sent to such
-- channels. The signal to `WaitForAdvance` is left out.
pub mod Firing
pub mod Waking
pub mod Arriving
pub mod Advancing
pub mod Hanging
mod Examples
use ofelia.Common.{
  ℕ, zero, suc, ◌+◌, Bool, true, false, not, ◌&&◌, ◌||◌, Option, none, some, List, [], ◌∷◌, ◌++◌,
  ltb, leb, if◌then◌else◌,
}

pub record FakeTicker : Type 0 where
  pub duration : ℕ
  pub ch : Option ℕ
  pub next_tick : ℕ
  pub stopped : Bool

pub record FakeTimer : Type 0 where
  pub ch : Option ℕ
  pub deadline : ℕ
  pub stopped : Bool
  pub fired : Bool

pub record Waiter : Type 0 where
  pub deadline : ℕ
  pub ch : ℕ

pub record FakeClock : Type 0 where
  pub now : ℕ
  pub tickers : List FakeTicker
  pub timers : List FakeTimer
  pub waiters : List Waiter
  pub received : List (ℕ × ℕ)

abbrev pub new_fake_clock : ℕ → FakeClock
new_fake_clock start = record {
  now = start;
  tickers = [];
  timers = [];
  waiters = [];
  received = [];
}

abbrev pub new_ticker : ℕ → FakeClock → FakeClock
new_ticker d c = record c {
  tickers =
      c.tickers ++ record { duration = d; ch = none; next_tick = c.now + d; stopped = false } ∷ [];
}

abbrev pub new_timer : ℕ → FakeClock → FakeClock
new_timer d c = record c {
  timers =
      c.timers ++ record { ch = none; deadline = c.now + d; stopped = false; fired = false } ∷ [];
}

-- `After`, with the number of the channel that it makes.
abbrev pub after : ℕ → ℕ → FakeClock → FakeClock
after ch d c =
    if leb d 0
    then record c { received = c.received ++ (ch, c.now) ∷ [] }
    else record c { waiters = c.waiters ++ record { deadline = c.now + d; ch = ch } ∷ [] }

-- `earliest` after a look at one more event.
abbrev pub earlier : ℕ → Option ℕ → Option ℕ
earlier t none = some t
earlier t (some e) = if ltb t e then some t else some e

abbrev pub look_at_ticker : FakeTicker → Option ℕ → Option ℕ
look_at_ticker t earliest = if t.stopped then earliest else earlier t.next_tick earliest

abbrev pub look_at_timer : FakeTimer → Option ℕ → Option ℕ
look_at_timer t earliest = if t.stopped || t.fired then earliest else earlier t.deadline earliest

unfoldable pub scan_tickers : List FakeTicker → Option ℕ → Option ℕ
scan_tickers [] earliest = earliest
scan_tickers (t ∷ ts) earliest = scan_tickers ts (look_at_ticker t earliest)

unfoldable pub scan_timers : List FakeTimer → Option ℕ → Option ℕ
scan_timers [] earliest = earliest
scan_timers (t ∷ ts) earliest = scan_timers ts (look_at_timer t earliest)

unfoldable pub scan_waiters : List Waiter → Option ℕ → Option ℕ
scan_waiters [] earliest = earliest
scan_waiters (w ∷ ws) earliest = scan_waiters ws (earlier w.deadline earliest)

unfoldable pub find_earliest_event : FakeClock → Option ℕ
unfolding scan_tickers scan_timers scan_waiters
find_earliest_event c = scan_waiters c.waiters (scan_timers c.timers (scan_tickers c.tickers none))

-- A send that is dropped if the channel is full.
abbrev pub offer : ℕ → Option ℕ → Option ℕ
offer now none = some now
offer now (some t) = some t

abbrev pub fire_ticker : ℕ → FakeTicker → FakeTicker
fire_ticker now t =
    if t.stopped || ltb now t.next_tick
    then t
    else record t { ch = offer now t.ch; next_tick = now + t.duration }

abbrev pub fire_timer : ℕ → FakeTimer → FakeTimer
fire_timer now t =
    if t.stopped || t.fired || ltb now t.deadline
    then t
    else record t { ch = offer now t.ch; fired = true }

-- The loops of `fireTickers` and `fireTimers`.
unfoldable pub fire_tickers : ℕ → List FakeTicker → List FakeTicker
fire_tickers now [] = []
fire_tickers now (t ∷ ts) = fire_ticker now t ∷ fire_tickers now ts

unfoldable pub fire_timers : ℕ → List FakeTimer → List FakeTimer
fire_timers now [] = []
fire_timers now (t ∷ ts) = fire_timer now t ∷ fire_timers now ts

-- What `fireWaiters` leaves, and what it sends.
unfoldable pub remaining : ℕ → List Waiter → List Waiter
remaining now [] = []
remaining now (w ∷ ws) = if ltb now w.deadline then w ∷ remaining now ws else remaining now ws

unfoldable pub woken : ℕ → List Waiter → List (ℕ × ℕ)
woken now [] = []
woken now (w ∷ ws) = if ltb now w.deadline then woken now ws else (w.ch, now) ∷ woken now ws

-- One round of the loop of `advanceTo`, at the time of the earliest event.
unfoldable pub fire : ℕ → FakeClock → FakeClock
unfolding fire_tickers fire_timers remaining woken
fire e c = record {
  now = e;
  tickers = fire_tickers e c.tickers;
  timers = fire_timers e c.timers;
  waiters = remaining e c.waiters;
  received = c.received ++ woken e c.waiters;
}

-- Whether the loop goes on with this earliest event.
abbrev pub is_due : ℕ → Option ℕ → Bool
is_due target none = false
is_due target (some e) = leb e target

abbrev pub time_or : ℕ → Option ℕ → ℕ
time_or target none = target
time_or target (some e) = e

-- The loop of `advanceTo`, for so many rounds; `none` if it has not ended by then.
unfoldable pub advance_to : ℕ → ℕ → FakeClock → Option FakeClock
unfolding find_earliest_event fire
advance_to zero target c = none
advance_to (suc rounds) target c =
    let earliest = find_earliest_event c in
    let later = advance_to rounds target (fire (time_or target earliest) c) in
    if is_due target earliest then later else some (record c { now = target })

abbrev pub advance : ℕ → ℕ → FakeClock → Option FakeClock
advance rounds d c = advance_to rounds (c.now + d) c

abbrev pub stop_ticker : FakeTicker → FakeTicker
stop_ticker t = record t { stopped = true }

-- `Stop` and `Reset` of a timer, and whether it was active.
abbrev pub stop_timer : FakeTimer → FakeTimer × Bool
stop_timer t = (record t { stopped = true }, not t.stopped && not t.fired)

abbrev pub reset_timer : ℕ → ℕ → FakeTimer → FakeTimer × Bool
reset_timer now d t =
    (record t { stopped = false; fired = false; deadline = now + d }, not t.stopped && not t.fired)
