-- ===== src/Clock/Arriving.antt =====
-- That advancing the clock comes to its end, and what it has done by then.
use mathlib.Core.List.{append_assoc, append-nil}
use ofelia.Common.{
  ℕ, zero, suc, ◌+◌, ◌≤◌, ◌<◌, ◌≡◌, refl, sym, ap, ◌∙◌, true, false, Option, none, some, List, [],
  ◌++◌, leb, ◌⊎◌, inl, inr, Bool-cases, arith, if-true, if-false,
}
use ofelia.Clock.{
  FakeClock, find_earliest_event, remaining, woken, fire, is_due, time_or, advance_to,
}
use ofelia.Clock.Advancing.{all_tick, rounds_left, fire-rounds, fire_tickers-tick}
use ofelia.Clock.Firing.{
  tickers_at, timers_at, is_late, scan_tickers-late, scan_timers-late, scan_waiters-late,
  remaining-late, fire_tickers-at, fire_timers-at, tickers_at-late, timers_at-late, remaining-at,
  all_ticks_late, all_fires_late,
}
use ofelia.Clock.Waking.{all_sent, all_wait_late, scan_waiters-wait, all_sent-woken, all_sent-late}

-- The clock has been moved to the target, with all that was due done.
pub record IsAdvanced (target : ℕ) (c c' : FakeClock) : Type 0 where
  pub now : c'.now ≡ target
  pub tickers : c'.tickers ≡ tickers_at target c.tickers
  pub timers : c'.timers ≡ timers_at target c.timers
  pub waiters : c'.waiters ≡ remaining target c.waiters
  pub sent : List (ℕ × ℕ)
  pub received : c'.received ≡ c.received ++ sent
  pub woken_all : all_sent target c.waiters sent ≡ true

-- What is not found before a time stands in none of the three lists.
all-late :
    (b : ℕ) (c : FakeClock)
    → is_late b (find_earliest_event c) ≡ true
    → (all_ticks_late b c.tickers ≡ true)
      × (all_fires_late b c.timers ≡ true)
      × (all_wait_late b c.waiters ≡ true)
unfolding find_earliest_event
all-late b c h =
    let w = scan_waiters-late b c.waiters _ h in
    let (a, timers) = scan_timers-late b c.timers _ w in
    let (n, tickers) = scan_tickers-late b c.tickers none a in
    (tickers, timers, scan_waiters-wait b c.waiters _ h)

not_due-late : (target : ℕ) (o : Option ℕ) → is_due target o ≡ false → is_late (target + 1) o ≡ true
not_due-late target none h = refl
not_due-late target (some e) h = ground arith

pub due-cases :
    (target : ℕ) (o : Option ℕ)
    → ((e : ℕ) × (o ≡ some e) × (e ≤ target)) ⊎ (is_due target o ≡ false)
due-cases target none = inr refl
due-cases target (some e) = elim (Bool-cases (leb e target)) [
  | inl h ↦ inl (e, refl, ground arith)
  | inr h ↦ inr h
]

at_target :
    (target : ℕ) (c : FakeClock)
    → is_due target (find_earliest_event c) ≡ false
    → IsAdvanced target c (record c { now = target })
unfolding find_earliest_event
at_target target c h =
    let late = not_due-late target (find_earliest_event c) h in
    let (tickers, timers, waiters) = all-late (target + 1) c late in
    record {
      now = refl;
      tickers = sym (tickers_at-late target c.tickers tickers);
      timers = sym (timers_at-late target c.timers timers);
      waiters = sym (remaining-late target c.waiters _ late);
      sent = [];
      received = sym (append-nil c.received);
      woken_all = all_sent-late target c.waiters waiters;
    }

after_fire :
    (target e : ℕ) (c c' : FakeClock)
    → all_tick c.tickers ≡ true
    → find_earliest_event c ≡ some e
    → e ≤ target
    → IsAdvanced target (fire e c) c'
    → IsAdvanced target c c'
unfolding fire
after_fire target e c c' ticks q due x =
    let (tickers, timers, waiters) = all-late e c (ap (λ o. is_late e o) q ∙ ground arith) in
    record {
      now = x.now;
      tickers = x.tickers ∙ fire_tickers-at e target c.tickers tickers ticks due;
      timers = x.timers ∙ fire_timers-at e target c.timers timers due;
      waiters = x.waiters ∙ remaining-at e target c.waiters due;
      sent = woken e c.waiters ++ x.sent;
      received = x.received ∙ simp append_assoc;
      woken_all = all_sent-woken e target c.waiters x.sent waiters x.woken_all;
    }

-- Where each running ticker has a duration above 0: with more rounds than the ticks up to the target,
-- the timers and the waiters, advancing the clock ends. It is then the target's time; each ticker has
-- its first tick up to then in its channel, unless another one was, and its next tick is its first
-- one after the target; each running timer whose deadline was due has fired at its deadline; the
-- waiters whose deadlines were due are gone, and each was sent its deadline.
pub advance_to-IsAdvanced :
    (rounds target : ℕ) (c : FakeClock)
    → all_tick c.tickers ≡ true
    → rounds_left target c < rounds
    → (c' : FakeClock) × (advance_to rounds target c ≡ some c') × IsAdvanced target c c'
unfolding advance_to
advance_to-IsAdvanced zero target c ticks less = absurd (omega arith)
advance_to-IsAdvanced (suc rounds) target c ticks less =
    elim (due-cases target (find_earliest_event c)) [
      | inr h ↦ (record c { now = target }, if-false h _ _, at_target target c h)
      | inl (e, q, due) ↦
          let fewer = fire-rounds target e c ticks q due in
          let still = fire_tickers-tick e c.tickers ∙ ticks in
          let (c', r, x) =
            advance_to-IsAdvanced rounds target (fire e c) still (omega (arith, fewer)) in
          let goes_on =
            if-true (ap (λ o. is_due target o) q ∙ ground arith) _ _
            ∙ ap (λ o. advance_to rounds target (fire (time_or target o) c)) q in
          (c', goes_on ∙ r, after_fire target e c c' ticks q due x)
    ]
