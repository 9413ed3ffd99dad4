-- ===== src/Scheduler/Naming.antt =====
-- The lists of jobs: looking a name up, counting the jobs that bear it, and cutting one out.
use ofelia.Common.{
  ℕ, ◌+◌, ◌≤◌, String, Bool, true, false, ◌||◌, ◌≡◌, refl, ap, Option, none, some, List, [], ◌∷◌,
  ◌++◌, ◌==◌, if◌then◌else◌, ◌is◌, is_iff, is_refl, arith,
}
use ofelia.Scheduler.{find_job, cut_first, replace_job}

unfoldable pub count : (ℕ → String) → String → List ℕ → ℕ
count names n [] = 0
count names n (r ∷ rs) = (if names r is n then 1 else 0) + count names n rs

unfoldable pub mem : ℕ → List ℕ → Bool
mem x [] = false
mem x (r ∷ rs) = x == r || mem x rs

abbrev pub or_else : Option ℕ → Option ℕ → Option ℕ
or_else (some r) o = some r
or_else none o = o

pub find_job-append :
    (names : ℕ → String) (n : String) (rs : List ℕ) (r : ℕ)
    → find_job names n (rs ++ r ∷ [])
      ≡ or_else (find_job names n rs) (if names r is n then some r else none)
unfolding find_job
find_job-append names n [] r = refl
find_job-append names n (x ∷ rs) r = ground (arith, find_job-append names n rs r)

pub count-append :
    (names : ℕ → String) (n : String) (rs : List ℕ) (r : ℕ)
    → count names n (rs ++ r ∷ []) ≡ count names n rs + (if names r is n then 1 else 0)
unfolding count
count-append names n [] r = omega arith
count-append names n (x ∷ rs) r = ground (arith, count-append names n rs r)

pub count-none :
    (names : ℕ → String) (n : String) (rs : List ℕ)
    → find_job names n rs ≡ none
    → count names n rs ≡ 0
unfolding find_job count
count-none names n [] h = refl
count-none names n (x ∷ rs) h = ground (arith, count-none names n rs)

pub mem-none :
    (names : ℕ → String) (x : ℕ) (rs : List ℕ)
    → find_job names (names x) rs ≡ none
    → mem x rs ≡ false
unfolding find_job mem
mem-none names x [] h = refl
mem-none names x (r ∷ rs) h = ground (arith, mem-none names x rs, is_refl (names x))

count-mem :
    (names : ℕ → String) (x : ℕ) (rs : List ℕ) → mem x rs ≡ true → 1 ≤ count names (names x) rs
unfolding count mem
count-mem names x [] h = ground arith
count-mem names x (r ∷ rs) h = ground (arith, count-mem names x rs, is_refl (names x), ap names)

pub find_job-count :
    (names : ℕ → String) (n : String) (rs : List ℕ)
    → count names n rs ≡ 0
    → find_job names n rs ≡ none
unfolding find_job count
find_job-count names n [] h = refl
find_job-count names n (x ∷ rs) h = ground (arith, find_job-count names n rs)

-- The only job of its name is found by it.
pub find_job-mem :
    (names : ℕ → String) (x : ℕ) (rs : List ℕ)
    → count names (names x) rs ≤ 1
    → mem x rs ≡ true
    → find_job names (names x) rs ≡ some x
unfolding find_job mem count
find_job-mem names x [] c h = ground arith
find_job-mem names x (r ∷ rs) c h =
    ground (arith, find_job-mem names x rs, count-mem names x rs, is_refl (names x), ap names)

pub find_job-name :
    (names : ℕ → String) (n : String) (rs : List ℕ) (r : ℕ)
    → find_job names n rs ≡ some r
    → names r ≡ n
unfolding find_job
find_job-name names n [] r h = ground arith
find_job-name names n (x ∷ rs) r h = ground (arith, find_job-name names n rs r, is_iff (names x) n)

-- Names and pointers decide what is found, the other fields of the jobs do not.
pub find_job-names :
    (names names' : ℕ → String)
    → ((r : ℕ) → names' r ≡ names r)
    → (n : String) (rs : List ℕ) → find_job names' n rs ≡ find_job names n rs
unfolding find_job
find_job-names names names' same n [] = refl
find_job-names names names' same n (r ∷ rs) =
    λ i. if same r i is n then some r else find_job-names names names' same n rs i

pub cut_first-same :
    (p q : ℕ → Bool) (rs : List ℕ)
    → ((x : ℕ) → mem x rs ≡ true → p x ≡ q x)
    → cut_first p rs ≡ cut_first q rs
unfolding cut_first mem
cut_first-same p q [] same = refl
cut_first-same p q (r ∷ rs) same =
    ground (arith, same r, cut_first-same p q rs (λ x h. same x (ground arith)))

pub find_job-cut_first :
    (names : ℕ → String) (n m : String) (rs : List ℕ)
    → count names n rs ≤ 1
    → find_job names m (cut_first (λ x. names x is n) rs)
      ≡ (if m is n then none else find_job names m rs)
unfolding find_job cut_first count
find_job-cut_first names n m [] c = ground arith
find_job-cut_first names n m (r ∷ rs) c = ground (
  arith,
  find_job-cut_first names n m rs,
  find_job-count names n rs,
  is_iff (names r) n,
  is_iff (names r) m,
  is_iff m n,
)

pub count-cut_first :
    (names : ℕ → String) (p : ℕ → Bool) (m : String) (rs : List ℕ)
    → count names m (cut_first p rs) ≤ count names m rs
unfolding cut_first count
count-cut_first names p m [] = ground arith
count-cut_first names p m (r ∷ rs) = ground (arith, count-cut_first names p m rs)

pub count-names :
    (names names' : ℕ → String)
    → ((r : ℕ) → names' r ≡ names r)
    → (n : String) (rs : List ℕ) → count names' n rs ≡ count names n rs
unfolding count
count-names names names' same n [] = refl
count-names names names' same n (r ∷ rs) =
    λ i. (if same r i is n then 1 else 0) + count-names names names' same n rs i

pub replace_job-names :
    (names names' : ℕ → String)
    → ((r : ℕ) → names' r ≡ names r)
    → (n : String) (new : ℕ) (rs : List ℕ)
    → replace_job names' n new rs ≡ replace_job names n new rs
unfolding replace_job
replace_job-names names names' same n new [] = refl
replace_job-names names names' same n new (r ∷ rs) =
    λ i. if same r i is n then new ∷ rs else r ∷ replace_job-names names names' same n new rs i

pub find_job-replace_job :
    (names : ℕ → String) (n m : String) (new : ℕ) (rs : List ℕ)
    → names new ≡ n
    → (m is n) ≡ false
    → find_job names m (replace_job names n new rs) ≡ find_job names m rs
unfolding find_job replace_job
find_job-replace_job names n m new [] h k = refl
find_job-replace_job names n m new (r ∷ rs) h k = ground (
  arith,
  find_job-replace_job names n m new rs h k,
  h,
  is_iff (names new) m,
  is_iff (names r) n,
  is_iff (names r) m,
  is_iff m n,
)

-- The names of the jobs of the list decide what is found in it, and how often.
pub find_job-fresh :
    (names names' : ℕ → String) (new : ℕ)
    → ((x : ℕ) → (x == new) ≡ false → names' x ≡ names x)
    → (n : String) (rs : List ℕ) → mem new rs ≡ false
    → find_job names' n rs ≡ find_job names n rs
unfolding find_job mem
find_job-fresh names names' new same n [] h = refl
find_job-fresh names names' new same n (r ∷ rs) h =
    let rest = find_job-fresh names names' new same n rs (ground arith) in
    λ i. if same r (ground arith) i is n then some r else rest i

pub count-fresh :
    (names names' : ℕ → String) (new : ℕ)
    → ((x : ℕ) → (x == new) ≡ false → names' x ≡ names x)
    → (n : String) (rs : List ℕ) → mem new rs ≡ false
    → count names' n rs ≡ count names n rs
unfolding count mem
count-fresh names names' new same n [] h = refl
count-fresh names names' new same n (r ∷ rs) h =
    let rest = count-fresh names names' new same n rs (ground arith) in
    λ i. (if same r (ground arith) i is n then 1 else 0) + rest i

-- What is found is on the list, so it is no job that is not.
pub find_job-unlisted :
    (names : ℕ → String) (n : String) (new x : ℕ) (rs : List ℕ)
    → mem new rs ≡ false
    → find_job names n rs ≡ some x
    → (x == new) ≡ false
unfolding find_job mem
find_job-unlisted names n new x [] h k = ground arith
find_job-unlisted names n new x (r ∷ rs) h k = ground (arith, find_job-unlisted names n new x rs)
