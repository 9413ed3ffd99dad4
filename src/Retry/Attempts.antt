-- ===== src/Retry/Attempts.antt =====
-- How often the function is run, what is returned, and what the metrics show.
use mathlib.Core.List.{append_assoc, append-nil}
use native.Mathlib.Nat.{add-zero}
use ofelia.Common.{
  ℕ, zero, suc, ◌+◌, ◌≤◌, ◌<◌, ◌≡◌, refl, Bool, true, false, Option, none, some, List, [], ◌∷◌,
  ◌++◌, ℤ, pos, arith, ltb, if◌then◌else◌, ◌⊎◌, inl, inr, Option-cases, ap,
}
use ofelia.Job.{GoError, wrap, Exit, returned, panicked}
use ofelia.Retry.{
  RetryConfig, RetryRecord, Attempted, calculate_delay, note, retry_loop, execute_with_retry,
}

abbrev pub fails_with_error : Exit → Bool
fails_with_error (returned (some e)) = true
fails_with_error (returned none) = false
fails_with_error panicked = false

Exit-cases :
    (x : Exit) → (x ≡ returned none) ⊎ ((e : GoError) × (x ≡ returned (some e))) ⊎ (x ≡ panicked)
Exit-cases (returned none) = inl refl
Exit-cases (returned (some e)) = inr (inl (e, refl))
Exit-cases panicked = inr (inr refl)

module _ {S : Type 0} (run : S → S × Exit) where
  -- The state after `k` runs.
  unfoldable pub state_after : ℕ → S → S
  state_after zero s = s
  state_after (suc k) s = state_after k (run s).0

  -- How run `k` ends, counted from 0.
  unfoldable pub exit_at : ℕ → S → Exit
  unfolding state_after
  exit_at k s = (run (state_after k s)).1

-- The records of failed attempts `a + 1`, …, `a + k`.
unfoldable pub failures_noted : Bool → ℕ → ℕ → List RetryRecord
failures_noted metrics a zero = []
failures_noted metrics a (suc k) = note metrics (a + 1) false ++ failures_noted metrics (a + 1) k

shift : (a k : ℕ) → a + suc k ≡ a + 1 + k
shift a k = omega arith

module _ {S : Type 0} (out_of_range : ℤ) (run : S → S × Exit) (interrupted : ℕ → Option GoError)
    (config : RetryConfig) (metrics : Bool) where
  -- How a loop that began with attempt `a` in state `s`, with `left` retries, ends after `k` retries.
  pub data Ending (left a k : ℕ) (s : S) (records : List RetryRecord) (r : Attempted S)
      : Type 0 where
    success :
        exit_at run k s ≡ returned none
        → r.result ≡ returned none
        → r.records
          ≡ records
            ++ (failures_noted metrics a k
                ++ (if ltb 0 (a + k) then note metrics (a + k) true else []))
        → Ending left a k s records r
    interruption :
        (e x : GoError)
        → exit_at run k s ≡ returned (some e)
        → k < left
        → interrupted (a + k) ≡ some x
        → r.result ≡ returned (some (wrap "retry interrupted" x))
        → r.records ≡ records ++ failures_noted metrics a (suc k)
        → Ending left a k s records r
    exhaustion :
        (e : GoError)
        → exit_at run k s ≡ returned (some e)
        → k ≡ left
        → r.result ≡ returned (some (wrap "job failed after all attempts" e))
        → r.records ≡ records ++ failures_noted metrics a (suc k)
        → Ending left a k s records r
    panic :
        exit_at run k s ≡ panicked
        → r.result ≡ panicked
        → r.records ≡ records ++ failures_noted metrics a k
        → Ending left a k s records r

  pub record Stops (left a k : ℕ) (s : S) (records : List RetryRecord) (r : Attempted S)
      : Type 0 where
    pub within : k ≤ left
    pub state : r.state ≡ state_after run (suc k) s
    pub failed_before : (i : ℕ) → i < k → fails_with_error (exit_at run i s) ≡ true
    pub waited_before : (i : ℕ) → i < k → interrupted (a + i) ≡ none
    pub ending : Ending left a k s records r

  at_once :
      {left a : ℕ} {s : S} {records : List RetryRecord} {r : Attempted S}
      → r.state ≡ (run s).0
      → Ending left a 0 s records r
      → Stops left a 0 s records r
  unfolding state_after
  at_once st en = record {
    within = omega arith;
    state = st;
    failed_before = λ i h. absurd (omega arith);
    waited_before = λ i h. absurd (omega arith);
    ending = en;
  }

  later-Ending :
      {left a k : ℕ} {s : S} {records : List RetryRecord} {r : Attempted S}
      → Ending left (a + 1) k (run s).0 (records ++ note metrics (a + 1) false) r
      → Ending (suc left) a (suc k) s records r
  unfolding exit_at failures_noted
  later-Ending {a} {k} {records} (success e n q) =
      success e n (rw (shift a k) (simp append_assoc (simp append_assoc at q)))
  later-Ending {a} {k} {records} (interruption e x f b i n q) =
      interruption e x f (omega arith) (rw (shift a k) i) n (simp append_assoc at q)
  later-Ending {a} {k} {records} (panic e n q) = panic e n (simp append_assoc at q)
  later-Ending {a} {k} {records} (exhaustion e f b n q) =
      exhaustion e f (ap suc b) n (simp append_assoc at q)

  later :
      {left a k : ℕ} {s : S} {records : List RetryRecord} {r : Attempted S} (x : GoError)
      → (run s).1 ≡ returned (some x)
      → interrupted a ≡ none
      → Stops left (a + 1) k (run s).0 (records ++ note metrics (a + 1) false) r
      → Stops (suc left) a (suc k) s records r
  unfolding state_after
  later {a} {k} {s} x e h st = record {
    within = omega (arith, st.within);
    state = st.state;
    failed_before = failed;
    waited_before = waited;
    ending = later-Ending st.ending;
  }
    where
      failed : (i : ℕ) → i < suc k → fails_with_error (exit_at run i s) ≡ true
      failed zero b = unfold exit_at in rw e
      failed (suc i) b = unfold exit_at in (st.failed_before i (omega arith))

      waited : (i : ℕ) → i < suc k → interrupted (a + i) ≡ none
      waited zero b = rw add-zero h
      waited (suc i) b = rw (shift a i) (st.waited_before i (omega arith))

  retry_loop-Stops :
      (left a : ℕ) (s : S) (records : List RetryRecord) (delays : List ℤ)
      → (k : ℕ) × Stops left a k s records
          (retry_loop out_of_range run interrupted config metrics left a s records delays)
  unfolding retry_loop exit_at failures_noted
  retry_loop-Stops zero a s records delays = elim (Exit-cases (run s).1) [
    | inl e ↦ (0, rw (e, retry_loop) (at_once refl (success e refl (rw add-zero))))
    | inr (inl (x, e)) ↦
        (0, rw (e, retry_loop) (at_once refl (exhaustion x e refl refl (rw append-nil))))
    | inr (inr e) ↦ (0, rw (e, retry_loop) (at_once refl (panic e refl (rw append-nil))))
  ]
  retry_loop-Stops (suc left) a s records delays = elim (Exit-cases (run s).1) [
    | inl e ↦ (0, rw (e, retry_loop) (at_once refl (success e refl (rw add-zero))))
    | inr (inl (x, e)) ↦ elim (Option-cases (interrupted a)) [
      | inr (y, h) ↦ (
        0,
        rw (e, h, retry_loop)
            (at_once refl (interruption x y e (omega arith) (rw add-zero h) refl (rw append-nil))),
      )
      | inl h ↦
          let (k, st) =
            retry_loop-Stops left (a + 1) (run s).0 (records ++ note metrics (a + 1) false)
              (delays ++ calculate_delay out_of_range config a ∷ []) in
          (suc k, rw (e, h, retry_loop) (later x e h st))
    ]
    | inr (inr e) ↦ (0, rw (e, retry_loop) (at_once refl (panic e refl (rw append-nil))))
  ]

  -- With `n + 1` retries configured, the function is run `k + 1` times for some `k` of at most
  -- `n + 1`: all runs before the last failed, and none of the waits after them was interrupted.
  -- The last run succeeded, and nil is returned; or it failed with retries left and its wait was
  -- interrupted, and the context's error is returned wrapped; or it failed with no retry left, and
  -- its own error is returned wrapped; or it panicked, which passes
  -- through. The metrics have one failure for each failed run, in order,
  -- and one success if the last run succeeded after a failure.
  pub execute_with_retry-Stops :
      (n : ℕ) (s : S)
      → config.max_retries ≡ pos (suc n)
      → (k : ℕ) × Stops
          (suc n)
          0
          k
          s
          []
          (execute_with_retry out_of_range run interrupted config metrics s)
  unfolding execute_with_retry
  execute_with_retry-Stops n s h = simp h (retry_loop-Stops (suc n) 0 s [] [])
