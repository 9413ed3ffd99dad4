-- ===== src/Resilience/Waiting.antt =====
-- That a wait for tokens comes to its end.
use ofelia.Common.{
  ℕ, ◌+◌, ◌*◌, ◌≤◌, ◌<◌, true, false, ◌≡◌, refl, ap, Option, some, List, [], ◌∷◌, ltb, arith,
  if-all,
}
use ofelia.Resilience.{billion, TokenBucket, refill, allow_n, WaitEnd, allowed, wait_loop, wait_n}
use ofelia.Resilience.Bucket.{Take, in_order, last_time, allow_n-keeps, passed_rate}

-- Attempts to take `n` tokens, and the readings of the clock that they are made at.
unfoldable pub attempts : ℕ → List ℕ → List Take
attempts n [] = []
attempts n (t ∷ ts) = record { count = n; time = t } ∷ attempts n ts

unfoldable pub read_at : List ℕ → List (Option ℕ) → List (Option ℕ)
read_at [] rest = rest
read_at (t ∷ ts) rest = some t ∷ read_at ts rest

-- A refusal loses no tokens.
refused_keeps :
    (n now t : ℕ) (rl : TokenBucket)
    → (allow_n n now rl).1 ≡ false
    → rl.last_refill ≤ now
    → now ≤ t
    → n ≤ rl.capacity
    → n * billion + rl.last_refill * rl.rate ≤ rl.tokens + t * rl.rate
    → n * billion + now * rl.rate ≤ (allow_n n now rl).0.tokens + t * rl.rate
unfolding allow_n refill
refused_keeps n now t rl refusal late later small enough =
    ground (arith, passed_rate rl.last_refill now rl.rate late, passed_rate now t rl.rate later)

refused_short :
    (n now : ℕ) (rl : TokenBucket)
    → (allow_n n now rl).1 ≡ false
    → (allow_n n now rl).0.tokens < n * billion
unfolding allow_n refill
refused_short n now rl refusal = ground arith

last_time-late : (ts : List Take) (t : ℕ) → in_order t ts ≡ true → t ≤ last_time t ts
unfolding in_order last_time
last_time-late [] t h = omega arith
last_time-late (k ∷ ks) t h =
    let later = last_time-late ks k.time (ground arith) in ground (arith, later)

wait_loop-allowed :
    (n : ℕ) (rest : List (Option ℕ)) (ts : List ℕ) (now : ℕ) (rl : TokenBucket)
    → n ≤ rl.capacity
    → rl.last_refill ≤ now
    → in_order now (attempts n ts) ≡ true
    → n * billion + rl.last_refill * rl.rate ≤ rl.tokens + last_time now (attempts n ts) * rl.rate
    → (wait_loop n (some now ∷ read_at ts rest) rl).1 ≡ allowed
unfolding wait_loop read_at attempts in_order last_time
wait_loop-allowed n rest [] now rl small late ordered enough =
    if-all {A = TokenBucket × WaitEnd} (λ x. x.1 ≡ allowed) (allow_n n now rl).1 _ _ (λ _. refl)
      (λ refusal. absurd (
        omega (
          arith,
          refused_short n now rl refusal,
          refused_keeps n now now rl refusal late (omega arith) small enough,
        )))
wait_loop-allowed n rest (t ∷ ts) now rl small late ordered enough =
    let (r, c, l, b) = allow_n-keeps n now rl in
    let rl' = (allow_n n now rl).0 in
    let end = last_time t (attempts n ts) in
    if-all {A = TokenBucket × WaitEnd} (λ x. x.1 ≡ allowed) (allow_n n now rl).1 _ _ (λ _. refl)
      (λ refusal.
        let later = last_time-late (attempts n ts) t (ground arith) in
        let kept = refused_keeps n now end rl refusal late (ground (arith, later)) small enough in
        wait_loop-allowed n rest ts t rl' (omega arith) (ground arith) (ground arith)
          (omega (arith, kept, ap (λ x. now * x) r, ap (λ x. end * x) r, ap (λ x. x * rl'.rate) l)))

-- A wait for `n` tokens, not more than the capacity, on a bucket that nobody else uses meanwhile, by
-- a clock that does not run backwards: once the context has not ended up to a reading of the clock by which the rate has given
-- enough tokens, the wait has ended by then with its tokens granted.
pub wait_n-allowed :
    (n now : ℕ) (ts : List ℕ) (rest : List (Option ℕ)) (rl : TokenBucket)
    → n ≤ rl.capacity
    → rl.last_refill ≤ now
    → in_order now (attempts n ts) ≡ true
    → n * billion + rl.last_refill * rl.rate ≤ rl.tokens + last_time now (attempts n ts) * rl.rate
    → (wait_n n now (read_at ts rest) rl).1 ≡ allowed
unfolding wait_n
wait_n-allowed n now ts rest rl small late ordered enough =
    if-all {A = TokenBucket × WaitEnd} (λ x. x.1 ≡ allowed) (ltb rl.capacity n) _ _
      (λ big. absurd (ground arith))
      (λ _. wait_loop-allowed n rest ts now rl small late ordered enough)
