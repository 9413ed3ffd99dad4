-- ===== src/Shutdown/Collecting.antt =====
-- The priorities that a shutdown collects, each once, and the sorting of them.
use ofelia.Common.{
  ℕ, ◌+◌, ◌≤◌, true, ◌≡◌, refl, ap, ◌∙◌, List, [], ◌∷◌, ◌++◌, ℤ, ltb, eq_ℤ, eq_ℤ-eq, if◌then◌else◌,
  if-false, arith, ◌⊎◌, inl, inr, Bool-cases,
}
use ofelia.Shutdown.{
  ShutdownHook, of_priority, has_priority, collect_priorities, insert_int, sort_ints,
}

unfoldable pub occurrences : ℤ → List ℤ → ℕ
occurrences q [] = 0
occurrences q (p ∷ ps) = (if eq_ℤ p q then 1 else 0) + occurrences q ps

occurrences-append :
    (q : ℤ) (ps qs : List ℤ) → occurrences q (ps ++ qs) ≡ occurrences q ps + occurrences q qs
unfolding occurrences
occurrences-append q [] qs = omega arith
occurrences-append q (p ∷ ps) qs = ground (arith, occurrences-append q ps qs)

occurrences-insert_int :
    (q p : ℤ) (ps : List ℤ)
    → occurrences q (insert_int p ps) ≡ (if eq_ℤ p q then 1 else 0) + occurrences q ps
unfolding occurrences insert_int
occurrences-insert_int q p [] = refl
occurrences-insert_int q p (x ∷ ps) = ground (arith, occurrences-insert_int q p ps)

pub occurrences-sort_ints : (q : ℤ) (ps : List ℤ) → occurrences q (sort_ints ps) ≡ occurrences q ps
unfolding occurrences sort_ints
occurrences-sort_ints q [] = refl
occurrences-sort_ints q (p ∷ ps) =
    ground (arith, occurrences-insert_int q p (sort_ints ps), occurrences-sort_ints q ps)

has_priority-occurrences : (q : ℤ) (ps : List ℤ) → has_priority q ps ≡ ltb 0 (occurrences q ps)
unfolding occurrences has_priority
has_priority-occurrences q [] = ground arith
has_priority-occurrences q (p ∷ ps) = ground (arith, has_priority-occurrences q ps)

abbrev step : ℤ → List ℤ → List ℤ
step p ps = if has_priority p ps then ps else ps ++ p ∷ []

occurrences-one : (q p : ℤ) → occurrences q (p ∷ []) ≡ (if eq_ℤ p q then 1 else 0)
unfolding occurrences
occurrences-one q p = ground arith

occurrences-step :
    (q p : ℤ) (ps : List ℤ)
    → occurrences q ps ≤ 1
    → (occurrences q (step p ps) ≤ 1) × (occurrences q ps ≤ occurrences q (step p ps))
occurrences-step q p ps h = ground (
  arith,
  occurrences-append q ps (p ∷ []),
  occurrences-one q p,
  has_priority-occurrences p ps,
  eq_ℤ-eq p q,
  ap (λ x. occurrences x ps),
)

occurrences-step_own : (q p : ℤ) (ps : List ℤ) → eq_ℤ p q ≡ true → 1 ≤ occurrences q (step p ps)
occurrences-step_own q p ps h = ground (
  arith,
  occurrences-append q ps (p ∷ []),
  occurrences-one q p,
  has_priority-occurrences p ps,
  ap (λ x. occurrences x ps) (eq_ℤ-eq p q h),
)

-- Each priority is collected once.
pub collect_priorities-once :
    (q : ℤ) (hs : List ShutdownHook) (ps : List ℤ)
    → occurrences q ps ≤ 1
    → occurrences q (collect_priorities hs ps) ≤ 1
unfolding collect_priorities
collect_priorities-once q [] ps h = h
collect_priorities-once q (x ∷ hs) ps h =
    collect_priorities-once q hs (step x.priority ps) (occurrences-step q x.priority ps h).0

collect_priorities-grow :
    (q : ℤ) (hs : List ShutdownHook) (ps : List ℤ)
    → occurrences q ps ≤ 1
    → occurrences q ps ≤ occurrences q (collect_priorities hs ps)
unfolding collect_priorities
collect_priorities-grow q [] ps h = omega arith
collect_priorities-grow q (x ∷ hs) ps h =
    let (once, more) = occurrences-step q x.priority ps h in
    omega (arith, more, collect_priorities-grow q hs (step x.priority ps) once)

pub collected :
    (q : ℤ) (hs : List ShutdownHook) (ps : List ℤ)
    → occurrences q ps ≤ 1
    → (of_priority q hs ≡ []) ⊎ (1 ≤ occurrences q (collect_priorities hs ps))
unfolding of_priority collect_priorities
collected q [] ps h = inl refl
collected q (x ∷ hs) ps h =
    let once = (occurrences-step q x.priority ps h).0 in
    elim (Bool-cases (eq_ℤ x.priority q)) [
      | inl e ↦ inr (
          omega (
            arith,
            occurrences-step_own q x.priority ps e,
            collect_priorities-grow q hs (step x.priority ps) once,
          ))
      | inr e ↦ elim (collected q hs (step x.priority ps) once) [
        | inl none_there ↦ inl (if-false e _ _ ∙ none_there)
        | inr some_there ↦ inr some_there
      ]
    ]
