-- ===== src/Sync/Names.antt =====
-- The webhooks of a job: the names of the global ones and its own.
use ofelia.Common.{
  String, Bool, true, false, not, ◌&&◌, ◌||◌, ◌≡◌, refl, ap, ◌∙◌, List, [], ◌∷◌, ◌++◌,
  if◌then◌else◌, ◌is◌, is_iff, arith,
}
use ofelia.Sync.{has_name, add_unseen, union_webhook_names}

-- No name stands twice in the list.
unfoldable pub are_distinct : List String → Bool
unfolding has_name
are_distinct [] = true
are_distinct (n ∷ names) = not (has_name n names) && are_distinct names

has_name-append :
    (n : String) (xs ys : List String) → has_name n (xs ++ ys) ≡ (has_name n xs || has_name n ys)
unfolding has_name
has_name-append n [] ys = refl
has_name-append n (x ∷ xs) ys = ground (arith, has_name-append n xs ys)

has_name-one : (n m : String) → has_name n (m ∷ []) ≡ (m is n)
unfolding has_name
has_name-one n m = ground arith

has_name-add_unseen :
    (n : String) (names out : List String)
    → has_name n (add_unseen names out) ≡ (has_name n out || has_name n names)
unfolding add_unseen has_name
has_name-add_unseen n [] out = ground arith
has_name-add_unseen n (m ∷ names) out = ground (
  arith,
  has_name-add_unseen n names (if has_name m out then out else out ++ m ∷ []),
  has_name-append n out (m ∷ []),
  has_name-one n m,
  is_iff m n,
  ap (λ k. has_name k out),
)

are_distinct-append :
    (xs : List String) (n : String)
    → are_distinct xs ≡ true
    → has_name n xs ≡ false
    → are_distinct (xs ++ n ∷ []) ≡ true
unfolding are_distinct has_name
are_distinct-append [] n d h = refl
are_distinct-append (x ∷ xs) n d h = ground (
  arith,
  are_distinct-append xs n,
  has_name-append x xs (n ∷ []),
  has_name-one x n,
  is_iff n x,
  is_iff x n,
)

are_distinct-add_unseen :
    (names out : List String) → are_distinct out ≡ true → are_distinct (add_unseen names out) ≡ true
unfolding add_unseen
are_distinct-add_unseen [] out d = d
are_distinct-add_unseen (m ∷ names) out d =
    are_distinct-add_unseen names _ (ground (arith, are_distinct-append out m d))

-- Whether no name is to stand twice: only where one list is empty is the other taken as it is.
abbrev pub drops_repeats : List String → List String → Bool
drops_repeats [] per_job = are_distinct per_job
drops_repeats (g ∷ global) [] = are_distinct (g ∷ global)
drops_repeats (g ∷ global) (p ∷ per_job) = true

-- The webhooks of a job are exactly the global ones and its own. If there are some of each, no name
-- stands twice among them; if one list is empty, a name stands twice exactly if it does in the
-- other list.
pub union_webhook_names-distinct :
    (global per_job : List String)
    → ((n : String)
        → has_name n (union_webhook_names global per_job)
          ≡ (has_name n global || has_name n per_job))
      × (are_distinct (union_webhook_names global per_job) ≡ drops_repeats global per_job)
unfolding union_webhook_names has_name are_distinct
union_webhook_names-distinct [] per_job = ((λ n. refl), refl)
union_webhook_names-distinct (g ∷ global) [] = ((λ n. ground arith), refl)
union_webhook_names-distinct (g ∷ global) (p ∷ per_job) =
    let out = add_unseen (g ∷ global) [] in
    (
      (λ n.
          has_name-add_unseen n (p ∷ per_job) out
          ∙ ap (λ b. b || has_name n (p ∷ per_job)) (has_name-add_unseen n (g ∷ global) [])),
      are_distinct-add_unseen (p ∷ per_job) out (are_distinct-add_unseen (g ∷ global) [] refl),
    )
