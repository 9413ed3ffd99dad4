-- ===== src/Concurrency/Limit.antt =====
-- How many jobs run at once.
use ofelia.Common.{ℕ, zero, suc, ◌+◌, ◌<◌, ◌≤◌, ◌≡◌, refl, ap, ◌∙◌, List, [], ◌∷◌, ℤ, arith}
use ofelia.Concurrency.{
  set_max_concurrent_jobs, new_concurrency_semaphore, Limited, Step, set_limit, sets_limit,
  gets_chan, starts, skips, ends, new_limited, Reach, start, next, at_least_one,
}

-- Each channel's slots are held by its running jobs, within its capacity, and channels that are not
-- made yet have neither.
pub record IsLimited (s : Limited) : Type 0 where
  pub exact : (i : ℕ) → (s.semaphore.channels i).held ≡ s.running i
  pub within : (i : ℕ) → s.running i ≤ (s.semaphore.channels i).capacity
  pub unmade : (i : ℕ) → s.semaphore.current < i → (s.running i ≡ 0) × (s.trying i ≡ 0)

set_limit-IsLimited : (max_jobs : ℤ) (s : Limited) → IsLimited s → IsLimited (set_limit max_jobs s)
unfolding set_max_concurrent_jobs
set_limit-IsLimited max_jobs s v = record {
  exact = λ i. ground (arith, v.exact i, v.unmade i);
  within = λ i. ground (arith, v.within i, v.unmade i);
  unmade = λ i h. v.unmade i (omega (arith, h));
}

Step-IsLimited : (s t : Limited) → Step s t → IsLimited s → IsLimited t
Step-IsLimited s t (gets_chan _) v = record {
  exact = v.exact;
  within = v.within;
  unmade = λ i h. ground (arith, v.unmade i);
}
Step-IsLimited s t (starts i _ some_trying free) v = record {
  exact = λ k. ground (arith, v.exact k, v.exact i);
  within = λ k. ground (arith, v.within k, v.exact i);
  unmade = λ k h. ground (arith, v.unmade k, v.unmade i, some_trying);
}
Step-IsLimited s t (skips i _ some_trying full) v = record {
  exact = v.exact;
  within = v.within;
  unmade = λ k h. ground (arith, v.unmade k);
}
Step-IsLimited s t (ends i _ some_running) v = record {
  exact = λ k. ground (arith, v.exact k, v.exact i);
  within = λ k. ground (arith, v.within k, v.within i);
  unmade = λ k h. ground (arith, v.unmade k);
}

-- The sum of the first `n` values.
unfoldable pub total : (ℕ → ℕ) → ℕ → ℕ
total f zero = 0
total f (suc n) = f n + total f n

unfoldable pub sum : List ℕ → ℕ
sum [] = 0
sum (x ∷ xs) = x + sum xs

abbrev pub capacities : Limited → ℕ → ℕ
capacities s i = (s.semaphore.channels i).capacity

-- The jobs that run, over all channels.
abbrev pub running_jobs : Limited → ℕ
running_jobs s = total s.running (suc s.semaphore.current)

total-le : (f g : ℕ → ℕ) (n : ℕ) → ((i : ℕ) → f i ≤ g i) → total f n ≤ total g n
unfolding total
total-le f g zero h = omega arith
total-le f g (suc n) h = omega (arith, h n, total-le f g n h)

total-same : (f g : ℕ → ℕ) (n : ℕ) → ((i : ℕ) → i < n → f i ≡ g i) → total f n ≡ total g n
unfolding total
total-same f g zero h = refl
total-same f g (suc n) h =
    omega (arith, h n (omega arith), total-same f g n (λ i l. h i (omega (arith, l))))

Step-capacities : (s t : Limited) → Step s t → (i : ℕ) → capacities t i ≡ capacities s i
Step-capacities s t (gets_chan _) k = refl
Step-capacities s t (starts i _ some_trying free) k = ground (arith, ap (capacities s))
Step-capacities s t (skips i _ some_trying full) k = refl
Step-capacities s t (ends i _ some_running) k = ground (arith, ap (capacities s))

Step-current : (s t : Limited) → Step s t → t.semaphore.current ≡ s.semaphore.current
Step-current s t (gets_chan _) = refl
Step-current s t (starts i _ some_trying free) = refl
Step-current s t (skips i _ some_trying full) = refl
Step-current s t (ends i _ some_running) = refl

Reach-IsLimited : (n : ℕ) (limits : List ℕ) (s : Limited) → Reach n limits s → IsLimited s
unfolding new_limited new_concurrency_semaphore
Reach-IsLimited n _ _ start = record {
  exact = λ i. refl;
  within = λ i. omega arith;
  unmade = λ i h. (refl, refl);
}
Reach-IsLimited n _ _ (sets_limit max_jobs limits s r) =
    set_limit-IsLimited max_jobs s (Reach-IsLimited n limits s r)
Reach-IsLimited n limits t (next _ s _ r step) =
    Step-IsLimited s t step (Reach-IsLimited n limits s r)

-- The capacities of the channels made so far are the limits there were.
Reach-capacities :
    (n : ℕ) (limits : List ℕ) (s : Limited)
    → Reach n limits s
    → total (capacities s) (suc s.semaphore.current) ≡ sum limits
unfolding new_limited new_concurrency_semaphore set_max_concurrent_jobs total sum
Reach-capacities n _ _ start = refl
Reach-capacities n _ _ (sets_limit max_jobs limits s r) =
    let t = set_limit max_jobs s in
    let c = s.semaphore.current in
    let own : capacities t (suc c) ≡ at_least_one max_jobs = ground arith in
    let others : total (capacities t) (suc c) ≡ total (capacities s) (suc c) =
      total-same (capacities t) (capacities s) (suc c) (λ i l. ground arith) in
    λ i. own i + (others ∙ Reach-capacities n limits s r) i
Reach-capacities n limits t (next _ s _ r step) =
    ap (λ c. total (capacities t) (suc c)) (Step-current s t step)
    ∙ total-same (capacities t) (capacities s) (suc s.semaphore.current)
        (λ i l. Step-capacities s t step i)
    ∙ Reach-capacities n limits s r

-- In every interleaving of invocations with changes of the limit: the jobs that run are together no
-- more than the sum of the limits there were, so no more than the limit if it was never changed, and
-- no more than the old and the new one after one change; and the slots held of each channel are
-- those of the jobs that run with one, so that an invocation is skipped only while its channel's
-- limit of jobs run.
pub running-limits :
    (n : ℕ) (limits : List ℕ) (s : Limited)
    → Reach n limits s
    → (running_jobs s ≤ sum limits)
      × ((i : ℕ) → (s.semaphore.channels i).held ≡ s.running i)
      × ((i : ℕ) → s.running i ≤ capacities s i)
running-limits n limits s r =
    let v = Reach-IsLimited n limits s r in
    (
      omega (
        arith,
        total-le s.running (capacities s) (suc s.semaphore.current) v.within,
        Reach-capacities n limits s r,
      ),
      v.exact,
      v.within,
    )
