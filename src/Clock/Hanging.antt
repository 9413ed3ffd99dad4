-- ===== src/Clock/Hanging.antt =====
-- A ticker of duration 0, which `NewTicker` makes without complaint.
use ofelia.Common.{
  ℕ, zero, suc, ◌≤◌, ◌≡◌, refl, ◌∙◌, Bool, true, false, not, ◌&&◌, ◌||◌, ◌==◌, Option, none, some,
  List, [], ◌∷◌, leb, arith, if-true,
}
use ofelia.Clock.{
  FakeTicker, FakeTimer, Waiter, FakeClock, earlier, look_at_ticker, look_at_timer, scan_tickers,
  scan_timers, scan_waiters, find_earliest_event, fire_ticker, fire_tickers, fire, is_due, time_or,
  advance_to,
}

-- A running ticker of duration 0 whose next tick is due at the target.
abbrev pub is_stuck : ℕ → FakeTicker → Bool
is_stuck target t = not t.stopped && (t.duration == 0) && leb t.next_tick target

unfoldable pub has_stuck : ℕ → List FakeTicker → Bool
has_stuck target [] = false
has_stuck target (t ∷ ts) = is_stuck target t || has_stuck target ts

fire_ticker-stuck :
    (target e : ℕ) (t : FakeTicker)
    → e ≤ target
    → is_stuck target t ≡ true
    → is_stuck target (fire_ticker e t) ≡ true
fire_ticker-stuck target e t due h = ground arith

fire_tickers-stuck :
    (target e : ℕ) (ts : List FakeTicker)
    → e ≤ target
    → has_stuck target ts ≡ true
    → has_stuck target (fire_tickers e ts) ≡ true
unfolding has_stuck fire_tickers
fire_tickers-stuck target e [] due h = h
fire_tickers-stuck target e (t ∷ ts) due h =
    ground (arith, fire_ticker-stuck target e t due, fire_tickers-stuck target e ts due)

earlier-due :
    (target t : ℕ) (acc : Option ℕ)
    → is_due target acc ≡ true
    → is_due target (earlier t acc) ≡ true
earlier-due target t none h = absurd (ground arith)
earlier-due target t (some e) h = ground arith

look_at_ticker-due :
    (target : ℕ) (t : FakeTicker) (acc : Option ℕ)
    → (is_due target acc || is_stuck target t) ≡ true
    → is_due target (look_at_ticker t acc) ≡ true
look_at_ticker-due target t none h = ground arith
look_at_ticker-due target t (some e) h = ground arith

look_at_timer-due :
    (target : ℕ) (t : FakeTimer) (acc : Option ℕ)
    → is_due target acc ≡ true
    → is_due target (look_at_timer t acc) ≡ true
look_at_timer-due target t none h = absurd (ground arith)
look_at_timer-due target t (some e) h = ground arith

scan_tickers-due :
    (target : ℕ) (ts : List FakeTicker) (acc : Option ℕ)
    → (is_due target acc || has_stuck target ts) ≡ true
    → is_due target (scan_tickers ts acc) ≡ true
unfolding has_stuck scan_tickers
scan_tickers-due target [] acc h = ground arith
scan_tickers-due target (t ∷ ts) acc h =
    scan_tickers-due target ts (look_at_ticker t acc)
      (ground (arith, look_at_ticker-due target t acc))

scan_timers-due :
    (target : ℕ) (ts : List FakeTimer) (acc : Option ℕ)
    → is_due target acc ≡ true
    → is_due target (scan_timers ts acc) ≡ true
unfolding scan_timers
scan_timers-due target [] acc h = h
scan_timers-due target (t ∷ ts) acc h =
    scan_timers-due target ts (look_at_timer t acc) (look_at_timer-due target t acc h)

scan_waiters-due :
    (target : ℕ) (ws : List Waiter) (acc : Option ℕ)
    → is_due target acc ≡ true
    → is_due target (scan_waiters ws acc) ≡ true
unfolding scan_waiters
scan_waiters-due target [] acc h = h
scan_waiters-due target (w ∷ ws) acc h =
    scan_waiters-due target ws (earlier w.deadline acc) (earlier-due target w.deadline acc h)

stuck-due :
    (target : ℕ) (c : FakeClock)
    → has_stuck target c.tickers ≡ true
    → is_due target (find_earliest_event c) ≡ true
unfolding find_earliest_event
stuck-due target c h =
    scan_waiters-due target c.waiters _
      (scan_timers-due target c.timers _ (scan_tickers-due target c.tickers none h))

time_or-due : (target : ℕ) (o : Option ℕ) → is_due target o ≡ true → time_or target o ≤ target
time_or-due target none h = omega arith
time_or-due target (some e) h = ground arith

-- With a running ticker of duration 0 whose next tick is due at the target, no number of rounds
-- advances the clock to the target.
pub advance_to-hangs :
    (rounds target : ℕ) (c : FakeClock)
    → has_stuck target c.tickers ≡ true
    → advance_to rounds target c ≡ none
unfolding advance_to fire
advance_to-hangs zero target c h = refl
advance_to-hangs (suc rounds) target c h =
    let due = stuck-due target c h in
    let e = time_or target (find_earliest_event c) in
    let e_due = time_or-due target (find_earliest_event c) due in
    if-true due _ _
    ∙ advance_to-hangs rounds target (fire e c) (fire_tickers-stuck target e c.tickers e_due h)
