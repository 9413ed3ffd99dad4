-- ===== src/Clock/Advancing.antt =====
-- That the rounds of advancing the clock come to their end.
use ofelia.Common.{
  ℕ, ◌+◌, ◌-◌, ◌≤◌, ◌<◌, ◌≡◌, refl, sym, ap, ◌∙◌, Bool, true, false, ◌||◌, Option, none, some, List,
  [], ◌∷◌, ltb, if◌then◌else◌, ◌⊎◌, inl, inr, arith,
}
use ofelia.Clock.{
  FakeTicker, FakeTimer, Waiter, FakeClock, earlier, look_at_ticker, look_at_timer, scan_tickers,
  scan_timers, scan_waiters, find_earliest_event, fire_ticker, fire_timer, fire_tickers,
  fire_timers, remaining, fire, is_due, time_or,
}

-- Whether each ticker that runs has a duration above 0.
unfoldable pub all_tick : List FakeTicker → Bool
all_tick [] = true
all_tick (t ∷ ts) = if t.stopped || ltb 0 t.duration then all_tick ts else false

-- The rounds that an event can still take up to the target.
abbrev pub ticker_rounds : ℕ → FakeTicker → ℕ
ticker_rounds target t = if t.stopped then 0 else target + 1 - t.next_tick

abbrev pub timer_rounds : FakeTimer → ℕ
timer_rounds t = if t.stopped || t.fired then 0 else 1

unfoldable pub tickers_rounds : ℕ → List FakeTicker → ℕ
tickers_rounds target [] = 0
tickers_rounds target (t ∷ ts) = ticker_rounds target t + tickers_rounds target ts

unfoldable pub timers_rounds : List FakeTimer → ℕ
timers_rounds [] = 0
timers_rounds (t ∷ ts) = timer_rounds t + timers_rounds ts

unfoldable pub waiters_rounds : List Waiter → ℕ
waiters_rounds [] = 0
waiters_rounds (w ∷ ws) = 1 + waiters_rounds ws

unfoldable pub rounds_left : ℕ → FakeClock → ℕ
unfolding tickers_rounds timers_rounds waiters_rounds
rounds_left target c =
    tickers_rounds target c.tickers + timers_rounds c.timers + waiters_rounds c.waiters

fire_ticker-rounds :
    (target e : ℕ) (t : FakeTicker)
    → (t.stopped || ltb 0 t.duration) ≡ true
    → ticker_rounds target (fire_ticker e t) ≤ ticker_rounds target t
fire_ticker-rounds target e t h = ground arith

fire_ticker-fewer :
    (target e : ℕ) (t : FakeTicker)
    → (t.stopped || ltb 0 t.duration) ≡ true
    → t.stopped ≡ false
    → t.next_tick ≡ e
    → e ≤ target
    → ticker_rounds target (fire_ticker e t) < ticker_rounds target t
fire_ticker-fewer target e t h s n due = ground arith

fire_tickers-rounds :
    (target e : ℕ) (ts : List FakeTicker)
    → all_tick ts ≡ true
    → tickers_rounds target (fire_tickers e ts) ≤ tickers_rounds target ts
unfolding tickers_rounds fire_tickers all_tick
fire_tickers-rounds target e [] h = omega arith
fire_tickers-rounds target e (t ∷ ts) h = omega (
  arith,
  fire_ticker-rounds target e t (ground arith),
  fire_tickers-rounds target e ts (ground arith),
)

look_at_ticker-cases :
    (t : FakeTicker) (acc : Option ℕ)
    → (look_at_ticker t acc ≡ acc)
      ⊎ ((t.stopped ≡ false) × (look_at_ticker t acc ≡ some t.next_tick))
look_at_ticker-cases t none = ground arith
look_at_ticker-cases t (some e) = ground arith

-- What the scan finds was found before, or is a ticker's, which then needs fewer rounds.
scan_tickers-fewer :
    (target e : ℕ) (ts : List FakeTicker) (acc : Option ℕ)
    → all_tick ts ≡ true
    → e ≤ target
    → scan_tickers ts acc ≡ some e
    → (acc ≡ some e) ⊎ (tickers_rounds target (fire_tickers e ts) < tickers_rounds target ts)
unfolding tickers_rounds fire_tickers all_tick scan_tickers
scan_tickers-fewer target e [] acc h due q = inl q
scan_tickers-fewer target e (t ∷ ts) acc h due q =
    let head = fire_ticker-rounds target e t (ground arith) in
    let ticks = fire_tickers-rounds target e ts (ground arith) in
    elim (scan_tickers-fewer target e ts (look_at_ticker t acc) (ground arith) due q) [
      | inr n ↦ inr (omega (arith, head, n))
      | inl a ↦ elim (look_at_ticker-cases t acc) [
        | inl k ↦ inl (sym k ∙ a)
        | inr (s, k) ↦
            let fewer =
              fire_ticker-fewer target e t (ground arith) s (ap (λ o. time_or 0 o) (sym k ∙ a))
                due in
            inr (omega (arith, fewer, ticks))
      ]
    ]

fire_timer-rounds : (e : ℕ) (t : FakeTimer) → timer_rounds (fire_timer e t) ≤ timer_rounds t
fire_timer-rounds e t = ground arith

fire_timers-rounds :
    (e : ℕ) (ts : List FakeTimer) → timers_rounds (fire_timers e ts) ≤ timers_rounds ts
unfolding timers_rounds fire_timers
fire_timers-rounds e [] = omega arith
fire_timers-rounds e (t ∷ ts) = omega (arith, fire_timer-rounds e t, fire_timers-rounds e ts)

look_at_timer-cases :
    (t : FakeTimer) (acc : Option ℕ)
    → (look_at_timer t acc ≡ acc)
      ⊎ (((t.stopped || t.fired) ≡ false) × (look_at_timer t acc ≡ some t.deadline))
look_at_timer-cases t none = ground arith
look_at_timer-cases t (some e) = ground arith

fire_timer-fewer :
    (e : ℕ) (t : FakeTimer)
    → (t.stopped || t.fired) ≡ false
    → t.deadline ≡ e
    → timer_rounds (fire_timer e t) < timer_rounds t
fire_timer-fewer e t s n = ground arith

scan_timers-fewer :
    (e : ℕ) (ts : List FakeTimer) (acc : Option ℕ)
    → scan_timers ts acc ≡ some e
    → (acc ≡ some e) ⊎ (timers_rounds (fire_timers e ts) < timers_rounds ts)
unfolding timers_rounds fire_timers scan_timers
scan_timers-fewer e [] acc q = inl q
scan_timers-fewer e (t ∷ ts) acc q =
    let head = fire_timer-rounds e t in
    let rest = fire_timers-rounds e ts in
    elim (scan_timers-fewer e ts (look_at_timer t acc) q) [
      | inr n ↦ inr (omega (arith, head, n))
      | inl a ↦ elim (look_at_timer-cases t acc) [
        | inl k ↦ inl (sym k ∙ a)
        | inr (s, k) ↦
            let fewer = fire_timer-fewer e t s (ap (λ o. time_or 0 o) (sym k ∙ a)) in
            inr (omega (arith, fewer, rest))
      ]
    ]

earlier-cases : (t : ℕ) (acc : Option ℕ) → (earlier t acc ≡ acc) ⊎ (earlier t acc ≡ some t)
earlier-cases t none = inr refl
earlier-cases t (some e) = ground arith

remaining-rounds : (e : ℕ) (ws : List Waiter) → waiters_rounds (remaining e ws) ≤ waiters_rounds ws
unfolding waiters_rounds remaining
remaining-rounds e [] = omega arith
remaining-rounds e (w ∷ ws) = ground (arith, remaining-rounds e ws)

remaining-fewer :
    (e : ℕ) (w : Waiter) (ws : List Waiter)
    → w.deadline ≡ e
    → waiters_rounds (remaining e (w ∷ ws)) < waiters_rounds (w ∷ ws)
unfolding waiters_rounds remaining
remaining-fewer e w ws n = ground (arith, remaining-rounds e ws)

scan_waiters-fewer :
    (e : ℕ) (ws : List Waiter) (acc : Option ℕ)
    → scan_waiters ws acc ≡ some e
    → (acc ≡ some e) ⊎ (waiters_rounds (remaining e ws) < waiters_rounds ws)
unfolding waiters_rounds remaining scan_waiters
scan_waiters-fewer e [] acc q = inl q
scan_waiters-fewer e (w ∷ ws) acc q = elim (scan_waiters-fewer e ws (earlier w.deadline acc) q) [
  | inr n ↦ inr (ground (arith, n))
  | inl a ↦ elim (earlier-cases w.deadline acc) [
    | inl k ↦ inl (sym k ∙ a)
    | inr k ↦ inr (remaining-fewer e w ws (ap (λ o. time_or 0 o) (sym k ∙ a)))
  ]
]

-- A round leaves fewer of them.
pub fire-rounds :
    (target e : ℕ) (c : FakeClock)
    → all_tick c.tickers ≡ true
    → find_earliest_event c ≡ some e
    → e ≤ target
    → rounds_left target (fire e c) < rounds_left target c
unfolding rounds_left fire find_earliest_event
fire-rounds target e c h q due =
    let ticks = fire_tickers-rounds target e c.tickers h in
    let timers = fire_timers-rounds e c.timers in
    let waiters = remaining-rounds e c.waiters in
    elim (scan_waiters-fewer e c.waiters _ q) [
      | inr n ↦ omega arith
      | inl a ↦ elim (scan_timers-fewer e c.timers _ a) [
        | inr n ↦ omega arith
        | inl b ↦ elim (scan_tickers-fewer target e c.tickers none h due b) [
          | inr n ↦ omega arith
          | inl x ↦ let none_due = ap (λ o. is_due e o) x in absurd (ground arith)
        ]
      ]
    ]

pub fire_tickers-tick : (e : ℕ) (ts : List FakeTicker) → all_tick (fire_tickers e ts) ≡ all_tick ts
unfolding all_tick fire_tickers
fire_tickers-tick e [] = refl
fire_tickers-tick e (t ∷ ts) = ground (arith, fire_tickers-tick e ts)
