-- ===== src/Resilience/Attempts.antt =====
-- What `Retry` returns, how often it runs its function, and how long it waits.
use native.Mathlib.Nat.{add-zero}
use ofelia.Common.{
  is_some, ℕ, zero, suc, ◌+◌, ◌≤◌, ◌<◌, Bool, true, false, ◌≡◌, refl, ap, Option, none, some, List,
  [], ◌∷◌, min, ◌==◌, if◌then◌else◌, inl, inr, Bool-cases, arith, pos_part,
}
use ofelia.Resilience.{
  RetryPolicy, FnEnd, fn_passes, fn_fails, fn_panics, RetryEnd, retry_passed, non_retryable,
  retry_canceled, exceeded, retry_panicked, Retried, one_more, only_run, retry_loop, retry,
}

later_last : (left k : ℕ) → (suc left == suc k + 1) ≡ (left == k + 1)
later_last left k = ground arith

first_last : (left : ℕ) → (suc left == 0 + 1) ≡ (left == 0)
first_last left = ground arith

shift : (a k : ℕ) → a + suc k ≡ a + 1 + k
shift a k = omega arith

one_later : (a k : ℕ) → a + suc k ≡ suc (a + k)
one_later a k = omega arith

module _ {E : Type 0} where
  -- How the retries end with an attempt, if they do; `last` tells whether no attempt is left.
  unfoldable pub attempt_end : RetryPolicy E → FnEnd E → Bool → Bool → Option (RetryEnd E)
  attempt_end p fn_passes last interrupted = some retry_passed
  attempt_end p fn_panics last interrupted = some retry_panicked
  attempt_end p (fn_fails e) last interrupted =
      if p.retryable_errors e
      then if last
        then some (exceeded (some e))
        else if interrupted
        then some retry_canceled
        else none
      else some (non_retryable e)

  -- The first waits, with growing delays.
  unfoldable pub waits : RetryPolicy E → ℕ → ℕ → List ℕ
  waits p delay zero = []
  waits p delay (suc k) = p.jittered delay ∷ waits p (min (p.backed_off delay) p.max_delay) k

  abbrev pub cut_off : RetryEnd E → ℕ
  cut_off retry_canceled = 1
  cut_off _ = 0

  -- Whether the first `k` of the attempts that are left do not end the retries.
  unfoldable pub all_go_on : RetryPolicy E → (ℕ → FnEnd E) → (ℕ → Bool) → ℕ → ℕ → ℕ → Bool
  unfolding attempt_end
  all_go_on p fn interrupted left attempt zero = true
  all_go_on p fn interrupted zero attempt (suc k) = false
  all_go_on p fn interrupted (suc left) attempt (suc k) =
      let rest = all_go_on p fn interrupted left (attempt + 1) k in
      if is_some (attempt_end p (fn attempt) (left == 0) (interrupted attempt)) then false else rest

  -- Attempt `attempt + k` ends the retries, and none before it does.
  pub record EndsAt (p : RetryPolicy E) (fn : ℕ → FnEnd E) (interrupted : ℕ → Bool)
      (left attempt delay k : ℕ) (r : Retried E) : Type 0 where
    pub within : k < left
    pub go_on : all_go_on p fn interrupted left attempt k ≡ true
    pub end :
        attempt_end p (fn (attempt + k)) (left == k + 1) (interrupted (attempt + k)) ≡ some r.end
    pub runs : r.runs ≡ k + 1
    pub sleeps : r.sleeps ≡ waits p delay (cut_off r.end + k)

  module _ (p : RetryPolicy E) (fn : ℕ → FnEnd E) (interrupted : ℕ → Bool) where
    at_once :
        (left attempt delay : ℕ) (r : Retried E)
        → attempt_end p (fn attempt) (left == 0) (interrupted attempt) ≡ some r.end
        → r.runs ≡ 1
        → r.sleeps ≡ waits p delay (cut_off r.end)
        → EndsAt p fn interrupted (suc left) attempt delay 0 r
    unfolding all_go_on
    at_once left attempt delay r e n q = record {
      within = omega arith;
      go_on = refl;
      end = rw (add-zero, first_last left) e;
      runs = n;
      sleeps = rw (add-zero) q;
    }

    later :
        (left attempt delay k : ℕ) (r : Retried E)
        → attempt_end p (fn attempt) (left == 0) (interrupted attempt) ≡ none
        → EndsAt p fn interrupted left (attempt + 1) (min (p.backed_off delay) p.max_delay) k r
        → EndsAt p fn interrupted (suc left) attempt delay (suc k) (one_more (p.jittered delay) r)
    unfolding all_go_on waits
    later left attempt delay k r e x = record {
      within = omega (arith, x.within);
      go_on = rw e x.go_on;
      end = rw (shift attempt k, later_last left k) x.end;
      runs = omega (arith, x.runs);
      sleeps = rw (one_later (cut_off r.end) k) (ap (λ ds. p.jittered delay ∷ ds) x.sleeps);
    }

    retry_loop-after :
        (left attempt delay : ℕ) (x : FnEnd E)
        → fn attempt ≡ x
        → (0 < left
            → (k : ℕ) × EndsAt p fn interrupted left
                (attempt + 1)
                (min (p.backed_off delay) p.max_delay)
                k
                (retry_loop p fn interrupted left
                  (attempt + 1)
                  (min (p.backed_off delay) p.max_delay)))
        → (k : ℕ) × EndsAt p fn interrupted
            (suc left)
            attempt
            delay
            k
            (retry_loop p fn interrupted (suc left) attempt delay)
    unfolding retry_loop attempt_end waits
    retry_loop-after left attempt delay fn_passes q rest =
        (0, rw (q) (at_once left attempt delay (only_run retry_passed) (rw q) refl refl))
    retry_loop-after left attempt delay fn_panics q rest =
        (0, rw (q) (at_once left attempt delay (only_run retry_panicked) (rw q) refl refl))
    retry_loop-after left attempt delay (fn_fails e) q rest =
        elim (Bool-cases (p.retryable_errors e)) [
          | inl t ↦ elim (Bool-cases (left == 0)) [
            | inl l ↦ (
              0,
              rw (q, t, l)
                  (at_once left attempt delay (only_run (exceeded (some e))) (rw (q, t, l)) refl
                    refl),
            )
            | inr l ↦ elim (Bool-cases (interrupted attempt)) [
              | inl i ↦ (
                0,
                rw (q, t, l, i)
                    (at_once left attempt delay
                      (record { end = retry_canceled; runs = 1; sleeps = p.jittered delay ∷ [] })
                      (rw (q, t, l, i)) refl refl),
              )
              | inr i ↦
                  let (k, x) = rest (ground arith) in
                  (suc k, rw (q, t, l, i) (later left attempt delay k _ (rw (q, t, l, i)) x))
            ]
          ]
          | inr t ↦ (
            0,
            rw (q, t)
                (at_once left attempt delay (only_run (non_retryable e)) (rw (q, t)) refl refl),
          )
        ]

    retry_loop-EndsAt :
        (left attempt delay : ℕ)
        → 0 < left
        → (k : ℕ) × EndsAt p fn interrupted left attempt delay k
            (retry_loop p fn interrupted left attempt delay)
    retry_loop-EndsAt zero attempt delay h = absurd (omega arith)
    retry_loop-EndsAt (suc left) attempt delay h =
        retry_loop-after left attempt delay (fn attempt) refl
          (retry_loop-EndsAt left (attempt + 1) (min (p.backed_off delay) p.max_delay))

  -- With at least one attempt allowed: some attempt, within the allowed ones, is the first that
  -- passes, panics, fails with an error that is not retryable, fails as the last one allowed, or
  -- fails and has its wait cut off; the retries end as that attempt says, have run the function once
  -- for each attempt up to it, and have waited, between them, the growing delays.
  pub retry-EndsAt :
      (p : RetryPolicy E) (fn : ℕ → FnEnd E) (interrupted : ℕ → Bool)
      → 0 < pos_part p.max_attempts
      → (k : ℕ) × EndsAt p fn interrupted
          (pos_part p.max_attempts)
          1
          p.initial_delay
          k
          (retry p fn interrupted)
  unfolding retry
  retry-EndsAt p fn interrupted h =
      retry_loop-EndsAt p fn interrupted (pos_part p.max_attempts) 1 p.initial_delay h

  retry_loop-runs :
      (p : RetryPolicy E) (fn : ℕ → FnEnd E) (interrupted : ℕ → Bool) (left attempt delay : ℕ)
      → (retry_loop p fn interrupted left attempt delay).runs ≤ left
  unfolding retry_loop
  retry_loop-runs p fn interrupted zero attempt delay = omega arith
  retry_loop-runs p fn interrupted (suc left) attempt delay =
      let (k, x) = retry_loop-EndsAt p fn interrupted (suc left) attempt delay (omega arith) in
      omega (arith, x.runs, x.within)

  pub retry-runs :
      (p : RetryPolicy E) (fn : ℕ → FnEnd E) (interrupted : ℕ → Bool)
      → (retry p fn interrupted).runs ≤ pos_part p.max_attempts
  unfolding retry
  retry-runs p fn interrupted =
      retry_loop-runs p fn interrupted (pos_part p.max_attempts) 1 p.initial_delay
