-- ===== src/Resilience/Bucket.antt =====
-- How many tokens a bucket gives away in a time, and that a wait for tokens ends.
use ofelia.Common.{
  ℕ, ◌+◌, ◌-◌, ◌*◌, ◌≤◌, Bool, true, false, ◌≡◌, refl, ap, ◌∙◌, List, [], ◌∷◌, leb, if◌then◌else◌,
  arith,
}
use ofelia.Resilience.{billion, TokenBucket, new_token_bucket, refill, allow_n}

-- The time that has passed, times the rate.
pub passed_rate : (a b r : ℕ) → a ≤ b → (b - a) * r + a * r ≡ b * r
passed_rate a b r h = grind arith

-- A call: so many tokens, at such a time.
pub record Take : Type 0 where
  pub count : ℕ
  pub time : ℕ

abbrev pub granted_of : ℕ → Bool → ℕ
granted_of n ok = if ok then n else 0

allow_n-spends :
    (n now : ℕ) (rl : TokenBucket)
    → rl.last_refill ≤ now
    → granted_of n (allow_n n now rl).1 * billion
        + (allow_n n now rl).0.tokens
        + rl.last_refill * rl.rate
      ≤ rl.tokens + now * rl.rate
unfolding allow_n refill
allow_n-spends n now rl h = ground (arith, passed_rate rl.last_refill now rl.rate h)

-- What calls keep: the rate and the capacity, no more tokens than the capacity.
pub allow_n-keeps :
    (n now : ℕ) (rl : TokenBucket)
    → ((allow_n n now rl).0.rate ≡ rl.rate)
      × ((allow_n n now rl).0.capacity ≡ rl.capacity)
      × ((allow_n n now rl).0.last_refill ≡ now)
      × ((allow_n n now rl).0.tokens ≤ rl.capacity * billion)
unfolding allow_n refill
allow_n-keeps n now rl = ground arith

unfoldable pub after_takes : List Take → TokenBucket → TokenBucket
after_takes [] rl = rl
after_takes (k ∷ ks) rl = after_takes ks (allow_n k.count k.time rl).0

-- How many tokens the calls are granted.
unfoldable pub taken : List Take → TokenBucket → ℕ
taken [] rl = 0
taken (k ∷ ks) rl =
    let (rl', ok) = allow_n k.count k.time rl in granted_of k.count ok + taken ks rl'

-- Whether the times never fall, from `t` on.
unfoldable pub in_order : ℕ → List Take → Bool
in_order t [] = true
in_order t (k ∷ ks) = if leb t k.time then in_order k.time ks else false

unfoldable pub last_time : ℕ → List Take → ℕ
last_time t [] = t
last_time t (k ∷ ks) = last_time k.time ks

pub taken-bounded :
    (ks : List Take) (rl : TokenBucket)
    → in_order rl.last_refill ks ≡ true
    → taken ks rl * billion + rl.last_refill * rl.rate
      ≤ rl.tokens + last_time rl.last_refill ks * rl.rate
unfolding taken in_order last_time
taken-bounded [] rl h = omega arith
taken-bounded (k ∷ ks) rl h =
    let (r, c, l, b) = allow_n-keeps k.count k.time rl in
    let rl' = (allow_n k.count k.time rl).0 in
    let later = taken-bounded ks rl' (ap (λ t. in_order t ks) l ∙ ground arith) in
    let spent = allow_n-spends k.count k.time rl (ground arith) in
    omega (
      arith,
      later,
      spent,
      ap (λ t. t * rl'.rate) l,
      ap (λ x. k.time * x) r,
      ap (λ t. last_time t ks * rl'.rate) l,
      ap (λ x. last_time k.time ks * x) r,
    )

last_refill-after_takes :
    (ks : List Take) (rl : TokenBucket)
    → (after_takes ks rl).last_refill ≡ last_time rl.last_refill ks
unfolding after_takes last_time
last_refill-after_takes [] rl = refl
last_refill-after_takes (k ∷ ks) rl =
    let (r, c, l, b) = allow_n-keeps k.count k.time rl in
    last_refill-after_takes ks (allow_n k.count k.time rl).0 ∙ ap (λ t. last_time t ks) l

after_takes-keeps :
    (ks : List Take) (rl : TokenBucket)
    → rl.tokens ≤ rl.capacity * billion
    → ((after_takes ks rl).rate ≡ rl.rate) × ((after_takes ks rl).tokens ≤ rl.capacity * billion)
unfolding after_takes
after_takes-keeps [] rl h = (refl, h)
after_takes-keeps (k ∷ ks) rl h =
    let (r, c, l, b) = allow_n-keeps k.count k.time rl in
    ground (arith, after_takes-keeps ks (allow_n k.count k.time rl).0)

-- From a new bucket on, and whatever calls came before, if the times never fall: calls are granted,
-- over a time, no more tokens than the capacity and those that the rate gives in that time.
pub bucket_window :
    (rate capacity now : ℕ) (before ks : List Take)
    → let rl = after_takes before (new_token_bucket rate capacity now) in
      in_order rl.last_refill ks ≡ true
      → taken ks rl * billion + rl.last_refill * rate
        ≤ capacity * billion + last_time rl.last_refill ks * rate
unfolding new_token_bucket
bucket_window rate capacity now before ks ordered =
    let start = new_token_bucket rate capacity now in
    let rl = after_takes before start in
    let (r, b) = after_takes-keeps before start (omega arith) in
    omega (
      arith,
      taken-bounded ks rl ordered,
      b,
      ap (λ x. rl.last_refill * x) r,
      ap (λ x. last_time rl.last_refill ks * x) r,
    )
