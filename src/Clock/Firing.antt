-- ===== src/Clock/Firing.antt =====
-- What advancing the clock does, told without its rounds: which events are due up to a time.
use mathlib.Core.Path.{ap₂}
use native.Mathlib.Nat.{div-eq_of_lt, div-eq-sub-div}
use ofelia.Common.{
  ℕ, ◌+◌, ◌-◌, ◌*◌, ◌/◌, ◌≤◌, ◌<◌, ◌≡◌, refl, ap, Bool, true, false, ◌||◌, Option, none, some, List,
  [], ◌∷◌, ltb, leb, if◌then◌else◌, inl, inr, Bool-cases, arith,
}
use ofelia.Clock.Advancing.{all_tick}
use ofelia.Clock.{
  FakeTicker, FakeTimer, Waiter, earlier, look_at_ticker, look_at_timer, scan_tickers, scan_timers,
  scan_waiters, offer, fire_ticker, fire_timer, fire_tickers, fire_timers, remaining,
}

-- A ticker at a later time: its first tick is in the channel, unless another one was, and the next
-- one is the first of its ticks after that time.
abbrev pub ticker_at : ℕ → FakeTicker → FakeTicker
ticker_at target t = if t.stopped || ltb target t.next_tick then t else record t {
  ch = offer t.next_tick t.ch;
  next_tick = t.next_tick + ((target - t.next_tick) / t.duration + 1) * t.duration;
}

-- A timer at a later time: it has fired at its deadline.
abbrev pub timer_at : ℕ → FakeTimer → FakeTimer
timer_at target t =
    if t.stopped || t.fired || ltb target t.deadline
    then t
    else record t { ch = offer t.deadline t.ch; fired = true }

unfoldable pub tickers_at : ℕ → List FakeTicker → List FakeTicker
tickers_at target [] = []
tickers_at target (t ∷ ts) = ticker_at target t ∷ tickers_at target ts

unfoldable pub timers_at : ℕ → List FakeTimer → List FakeTimer
timers_at target [] = []
timers_at target (t ∷ ts) = timer_at target t ∷ timers_at target ts

-- Whether no event stands before a time.
abbrev pub is_late : ℕ → Option ℕ → Bool
is_late b none = true
is_late b (some e) = leb b e

abbrev pub ticks_late : ℕ → FakeTicker → Bool
ticks_late b t = t.stopped || leb b t.next_tick

abbrev pub fires_late : ℕ → FakeTimer → Bool
fires_late b t = t.stopped || t.fired || leb b t.deadline

look_at_ticker-late :
    (b : ℕ) (t : FakeTicker) (acc : Option ℕ)
    → is_late b (look_at_ticker t acc) ≡ true
    → (is_late b acc ≡ true) × (ticks_late b t ≡ true)
look_at_ticker-late b t none h = ground arith
look_at_ticker-late b t (some e) h = ground arith

look_at_timer-late :
    (b : ℕ) (t : FakeTimer) (acc : Option ℕ)
    → is_late b (look_at_timer t acc) ≡ true
    → (is_late b acc ≡ true) × (fires_late b t ≡ true)
look_at_timer-late b t none h = ground arith
look_at_timer-late b t (some e) h = ground arith

fire_timer-at :
    (e target : ℕ) (t : FakeTimer)
    → fires_late e t ≡ true
    → e ≤ target
    → timer_at target (fire_timer e t) ≡ timer_at target t
fire_timer-at e target t late due = ground arith

timer_at-late :
    (target : ℕ) (t : FakeTimer) → fires_late (target + 1) t ≡ true → timer_at target t ≡ t
timer_at-late target t late = ground arith

ticker_at-late :
    (target : ℕ) (t : FakeTicker) → ticks_late (target + 1) t ≡ true → ticker_at target t ≡ t
ticker_at-late target t late = ground arith

monus : (a b d : ℕ) → a - (b + d) ≡ a - b - d
monus a b d = omega arith

is_now :
    (e : ℕ) (t : FakeTicker)
    → ticks_late e t ≡ true
    → (t.stopped || ltb e t.next_tick) ≡ false
    → e ≡ t.next_tick
is_now e t late k = ground arith

-- The tick after the one at `e`, and the ones up to the target.
next_tick_step :
    (e target d : ℕ)
    → 0 < d
    → e ≤ target
    → (if ltb target (e + d) then e + d else e + d + ((target - (e + d)) / d + 1) * d)
      ≡ e + ((target - e) / d + 1) * d
next_tick_step e target d h due = elim (Bool-cases (ltb target (e + d))) [
  | inl l ↦
      let none_left = div-eq_of_lt {n = target - e} {m = d} (ground arith) in
      ground (arith, ap (λ q. (q + 1) * d) none_left)
  | inr l ↦
      let one_less = div-eq-sub-div {m = d} {n = target - e} h (ground arith) in
      let same = ap (λ x. (x / d + 1) * d) (monus target e d) in
      ground (arith, ap (λ q. (q + 1) * d) one_less, same)
]

fire_ticker-at :
    (e target : ℕ) (t : FakeTicker)
    → ticks_late e t ≡ true
    → (t.stopped || ltb 0 t.duration) ≡ true
    → e ≤ target
    → ticker_at target (fire_ticker e t) ≡ ticker_at target t
fire_ticker-at e target t late ticks due = elim (Bool-cases (t.stopped || ltb e t.next_tick)) [
  | inl k ↦ ground arith
  | inr k ↦
      let step = next_tick_step e target t.duration (ground arith) due in
      ground
        (arith, step, ap (λ x. ((target - x) / t.duration + 1) * t.duration) (is_now e t late k))
]

pub remaining-at :
    (e target : ℕ) (ws : List Waiter)
    → e ≤ target
    → remaining target (remaining e ws) ≡ remaining target ws
unfolding remaining
remaining-at e target [] due = refl
remaining-at e target (w ∷ ws) due = ground (arith, remaining-at e target ws due)

pub all_ticks_late : ℕ → List FakeTicker → Bool
all_ticks_late b [] = true
all_ticks_late b (t ∷ ts) = if ticks_late b t then all_ticks_late b ts else false

pub all_fires_late : ℕ → List FakeTimer → Bool
all_fires_late b [] = true
all_fires_late b (t ∷ ts) = if fires_late b t then all_fires_late b ts else false

pub scan_tickers-late :
    (b : ℕ) (ts : List FakeTicker) (acc : Option ℕ)
    → is_late b (scan_tickers ts acc) ≡ true
    → (is_late b acc ≡ true) × (all_ticks_late b ts ≡ true)
unfolding scan_tickers all_ticks_late
scan_tickers-late b [] acc h = (h, refl)
scan_tickers-late b (t ∷ ts) acc h =
    let (a, rest) = scan_tickers-late b ts (look_at_ticker t acc) h in
    let (first, head) = look_at_ticker-late b t acc a in (first, ground arith)

pub scan_timers-late :
    (b : ℕ) (ts : List FakeTimer) (acc : Option ℕ)
    → is_late b (scan_timers ts acc) ≡ true
    → (is_late b acc ≡ true) × (all_fires_late b ts ≡ true)
unfolding scan_timers all_fires_late
scan_timers-late b [] acc h = (h, refl)
scan_timers-late b (t ∷ ts) acc h =
    let (a, rest) = scan_timers-late b ts (look_at_timer t acc) h in
    let (first, head) = look_at_timer-late b t acc a in (first, ground arith)

pub earlier-late :
    (b t : ℕ) (acc : Option ℕ) → is_late b (earlier t acc) ≡ true → (is_late b acc ≡ true) × (b ≤ t)
earlier-late b t none h = ground arith
earlier-late b t (some e) h = ground arith

-- Waiters with no deadline before `target + 1` all remain.
pub scan_waiters-late :
    (b : ℕ) (ws : List Waiter) (acc : Option ℕ)
    → is_late b (scan_waiters ws acc) ≡ true
    → is_late b acc ≡ true
unfolding scan_waiters
scan_waiters-late b [] acc h = h
scan_waiters-late b (w ∷ ws) acc h =
    (earlier-late b w.deadline acc (scan_waiters-late b ws (earlier w.deadline acc) h)).0

pub remaining-late :
    (target : ℕ) (ws : List Waiter) (acc : Option ℕ)
    → is_late (target + 1) (scan_waiters ws acc) ≡ true
    → remaining target ws ≡ ws
unfolding scan_waiters remaining
remaining-late target [] acc h = refl
remaining-late target (w ∷ ws) acc h =
    let late = scan_waiters-late (target + 1) ws (earlier w.deadline acc) h in
    let (first, this) = earlier-late (target + 1) w.deadline acc late in
    ground (arith, remaining-late target ws (earlier w.deadline acc) h)

pub fire_tickers-at :
    (e target : ℕ) (ts : List FakeTicker)
    → all_ticks_late e ts ≡ true
    → all_tick ts ≡ true
    → e ≤ target
    → tickers_at target (fire_tickers e ts) ≡ tickers_at target ts
unfolding all_ticks_late all_tick tickers_at fire_tickers
fire_tickers-at e target [] late ticks due = refl
fire_tickers-at e target (t ∷ ts) late ticks due =
    ap₂ (λ x xs. x ∷ xs) (fire_ticker-at e target t (ground arith) (ground arith) due)
      (fire_tickers-at e target ts (ground arith) (ground arith) due)

pub fire_timers-at :
    (e target : ℕ) (ts : List FakeTimer)
    → all_fires_late e ts ≡ true
    → e ≤ target
    → timers_at target (fire_timers e ts) ≡ timers_at target ts
unfolding all_fires_late timers_at fire_timers
fire_timers-at e target [] late due = refl
fire_timers-at e target (t ∷ ts) late due =
    ap₂ (λ x xs. x ∷ xs) (fire_timer-at e target t (ground arith) due)
      (fire_timers-at e target ts (ground arith) due)

pub tickers_at-late :
    (target : ℕ) (ts : List FakeTicker)
    → all_ticks_late (target + 1) ts ≡ true
    → tickers_at target ts ≡ ts
unfolding all_ticks_late tickers_at
tickers_at-late target [] late = refl
tickers_at-late target (t ∷ ts) late =
    ap₂ (λ x xs. x ∷ xs) (ticker_at-late target t (ground arith))
      (tickers_at-late target ts (ground arith))

pub timers_at-late :
    (target : ℕ) (ts : List FakeTimer)
    → all_fires_late (target + 1) ts ≡ true
    → timers_at target ts ≡ ts
unfolding all_fires_late timers_at
timers_at-late target [] late = refl
timers_at-late target (t ∷ ts) late =
    ap₂ (λ x xs. x ∷ xs) (timer_at-late target t (ground arith))
      (timers_at-late target ts (ground arith))
