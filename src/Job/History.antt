-- ===== src/Job/History.antt =====
-- The history of a job is the end of what was recorded.
use mathlib.Core.List.{append_assoc, append-nil}
use native.Mathlib.Nat.{zero-add, suc-add}
use ofelia.Common.{
  ℕ, zero, suc, ◌+◌, ◌-◌, ◌≤◌, ◌≡◌, refl, ap, ◌∙◌, List, [], ◌∷◌, ◌++◌, pos, length, length-append,
  length-drop, drop, arith, ltb, Bool-cases, inl, inr, sym,
}
use ofelia.Job.{BareJob, set_last_run, trim_history, get_history}

-- The last `n` items of a list.
unfoldable pub last_items {ℓ} : {A : Type ℓ} → ℕ → List A → List A
last_items n xs = drop (length xs - n) xs

module _ {ℓ} {A : Type ℓ} where
  drop-nil : (a : ℕ) → drop {A = A} a [] ≡ []
  drop-nil zero = refl
  drop-nil (suc a) = refl

  drop-drop : (a b : ℕ) (xs : List A) → drop a (drop b xs) ≡ drop (b + a) xs
  drop-drop a zero xs = rw zero-add
  drop-drop a (suc b) [] = rw (suc-add) (drop-nil a)
  drop-drop a (suc b) (x ∷ xs) = rw (suc-add) (drop-drop a b xs)

  drop-append : (k : ℕ) (xs ys : List A) → k ≤ length xs → drop k xs ++ ys ≡ drop k (xs ++ ys)
  drop-append zero xs ys h = refl
  drop-append (suc k) [] ys h = absurd (omega arith)
  drop-append (suc k) (x ∷ xs) ys h = drop-append k xs ys (omega arith)

  last_items-all : (n : ℕ) (xs : List A) → length xs ≤ n → last_items n xs ≡ xs
  unfolding last_items
  last_items-all n xs h = let e : length xs - n ≡ 0 = omega arith in rw e

  length-last_items-le : (n : ℕ) (xs : List A) → length (last_items n xs) ≤ n
  unfolding last_items
  length-last_items-le n xs = omega (arith, length-drop (length xs - n) xs)

  last_items-append-last_items :
      (n : ℕ) (xs ys : List A) → last_items n (last_items n xs ++ ys) ≡ last_items n (xs ++ ys)
  unfolding last_items
  last_items-append-last_items n xs ys =
      let k : ℕ = length xs - n in
      rw (drop-append k xs ys (omega arith), drop-drop)
        (let e : k + (length (drop k (xs ++ ys)) - n) ≡ length (xs ++ ys) - n =
            omega (arith, length-drop k (xs ++ ys), length-append xs ys) in
          ap (λ i. drop i (xs ++ ys)) e)

module _ {E : Type 0} where
  -- Runs recorded one after the other.
  unfoldable pub record_all : List E → BareJob E → BareJob E
  record_all [] j = j
  record_all (e ∷ es) j = record_all es (set_last_run e j)

  trim_history-last_items :
      (n : ℕ) (xs : List E) → trim_history (pos (suc n)) xs ≡ last_items (suc n) xs
  unfolding trim_history
  trim_history-last_items n xs = elim (Bool-cases (ltb (suc n) (length xs))) [
    | inl more ↦ rw more (unfold last_items in refl)
    | inr fits ↦ rw fits (sym (last_items-all (suc n) xs (ground arith)))
  ]

  history-set_last_run :
      (n : ℕ) (e : E) (j : BareJob E)
      → j.history_limit ≡ pos (suc n)
      → (set_last_run e j).history ≡ last_items (suc n) (j.history ++ e ∷ [])
  unfolding set_last_run
  history-set_last_run n e j h = rw h (trim_history-last_items n (j.history ++ e ∷ []))

  limit-set_last_run : (e : E) (j : BareJob E) → (set_last_run e j).history_limit ≡ j.history_limit
  unfolding set_last_run
  limit-set_last_run e j = refl

  -- With a positive history limit, and no more history than that, the history after any runs is
  -- the earlier history with those runs, cut to its last `history_limit` items in their order.
  pub history-record_all :
      (n : ℕ) (es : List E) (j : BareJob E)
      → j.history_limit ≡ pos (suc n)
      → length j.history ≤ suc n
      → get_history (record_all es j) ≡ last_items (suc n) (j.history ++ es)
  unfolding record_all
  history-record_all n [] j h k = rw append-nil (sym (last_items-all (suc n) j.history k))
  history-record_all n (e ∷ es) j h k =
      let now = history-set_last_run n e j h in
      let small : length (set_last_run e j).history ≤ suc n =
        rw now (length-last_items-le (suc n) (j.history ++ e ∷ [])) in
      history-record_all n es (set_last_run e j) (limit-set_last_run e j ∙ h) small
      ∙ (rw (now, last_items-append-last_items, append_assoc))
