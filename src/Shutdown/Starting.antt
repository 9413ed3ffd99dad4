-- ===== src/Shutdown/Starting.antt =====
-- The order in which a shutdown takes the groups, and what a hanging group leaves unstarted.
use mathlib.Core.List.{append-nil, append_assoc}
use ofelia.Common.{
  ℕ, ◌+◌, ◌≤◌, Bool, true, false, not, ◌&&◌, ◌||◌, ◌≡◌, refl, sym, ap, ◌∙◌, List, [], ◌∷◌, ◌++◌, ℤ,
  ltb, ltb_ℤ, ltb_ℤ-irrefl, ltb_ℤ_asymm, ltb_ℤ_cotrans, ltb_ℤ_connex, eq_ℤ, eq_ℤ-eq, if◌then◌else◌,
  if-true, if-false, arith, inl, inr, Bool-cases,
}
use ofelia.Shutdown.{
  ShutdownHook, of_priority, insert_int, sort_ints, any_hangs, failures, ShutdownEnd, run_groups,
}
use ofelia.Shutdown.Collecting.{occurrences}
use ofelia.Shutdown.Groups.{of_priority-append, of_priority-of_priority}

-- Whether no priority of the list is lower.
unfoldable all_above : ℤ → List ℤ → Bool
all_above p [] = true
all_above p (q ∷ qs) = not (ltb_ℤ q p) && all_above p qs

unfoldable is_ascending : List ℤ → Bool
is_ascending [] = true
is_ascending (p ∷ ps) = all_above p ps && is_ascending ps

all_above-lower :
    (p q : ℤ) (qs : List ℤ) → ltb_ℤ q p ≡ false → all_above q qs ≡ true → all_above p qs ≡ true
unfolding all_above
all_above-lower p q [] h k = refl
all_above-lower p q (x ∷ qs) h k = ground (arith, all_above-lower p q qs h, ltb_ℤ_cotrans x q p)

all_above-insert_int :
    (r p : ℤ) (qs : List ℤ)
    → ltb_ℤ p r ≡ false
    → all_above r qs ≡ true
    → all_above r (insert_int p qs) ≡ true
unfolding all_above insert_int
all_above-insert_int r p [] h k = ground arith
all_above-insert_int r p (q ∷ qs) h k = ground (arith, all_above-insert_int r p qs h)

is_ascending-insert_int :
    (p : ℤ) (qs : List ℤ) → is_ascending qs ≡ true → is_ascending (insert_int p qs) ≡ true
unfolding is_ascending insert_int all_above
is_ascending-insert_int p [] h = refl
is_ascending-insert_int p (q ∷ qs) h = ground (
  arith,
  is_ascending-insert_int p qs,
  all_above-insert_int q p qs,
  ltb_ℤ_asymm q p,
  all_above-lower p q qs,
)

is_ascending-sort_ints : (ps : List ℤ) → is_ascending (sort_ints ps) ≡ true
unfolding is_ascending sort_ints
is_ascending-sort_ints [] = refl
is_ascending-sort_ints (p ∷ ps) =
    is_ascending-insert_int p (sort_ints ps) (is_ascending-sort_ints ps)

-- Whether a group of a lower priority hangs.
unfoldable pub blocked_in : List ShutdownHook → ℤ → List ℤ → Bool
blocked_in hooks q [] = false
blocked_in hooks q (p ∷ ps) = ltb_ℤ p q && any_hangs (of_priority p hooks) || blocked_in hooks q ps

blocked_in-above :
    (hooks : List ShutdownHook) (q : ℤ) (ps : List ℤ)
    → all_above q ps ≡ true
    → blocked_in hooks q ps ≡ false
unfolding blocked_in all_above
blocked_in-above hooks q [] h = refl
blocked_in-above hooks q (p ∷ ps) h = ground (arith, blocked_in-above hooks q ps)

above-occurrences :
    (p q : ℤ) (ps : List ℤ)
    → all_above p ps ≡ true
    → ltb 0 (occurrences q ps) ≡ true
    → ltb_ℤ q p ≡ false
unfolding all_above occurrences
above-occurrences p q [] h k = ground arith
above-occurrences p q (x ∷ ps) h k =
    ground (arith, above-occurrences p q ps, eq_ℤ-eq x q, ap (λ z. ltb_ℤ z p))

-- The hooks of the priority that are started, after those of the list.
abbrev pub starting : List ShutdownHook → ℤ → List ℤ → List ShutdownHook
starting hooks q ps =
    if ltb 0 (occurrences q ps) && not (blocked_in hooks q ps) then of_priority q hooks else []

starting-hang :
    (hooks : List ShutdownHook) (q p : ℤ) (ps : List ℤ)
    → all_above p ps ≡ true
    → any_hangs (of_priority p hooks) ≡ true
    → (if eq_ℤ p q then of_priority q hooks else []) ≡ starting hooks q (p ∷ ps)
unfolding occurrences blocked_in
starting-hang hooks q p ps above h = ground (
  arith,
  blocked_in-above hooks p ps above,
  eq_ℤ-eq p q,
  ap (λ z. blocked_in hooks z ps),
  ap (ltb_ℤ p),
  ltb_ℤ-irrefl p,
  above-occurrences p q ps above,
  ltb_ℤ_connex p q,
)

starting-onward :
    (hooks : List ShutdownHook) (q p : ℤ) (ps : List ℤ)
    → all_above p ps ≡ true
    → any_hangs (of_priority p hooks) ≡ false
    → occurrences q (p ∷ ps) ≤ 1
    → (if eq_ℤ p q then of_priority q hooks else []) ++ starting hooks q ps
      ≡ starting hooks q (p ∷ ps)
unfolding occurrences blocked_in
starting-onward hooks q p ps above h once = ground (
  arith,
  blocked_in-above hooks p ps above,
  eq_ℤ-eq p q,
  ap (λ z. blocked_in hooks z ps),
  append-nil (of_priority q hooks),
)

run_groups-started :
    (hooks : List ShutdownHook) (q : ℤ) (ps : List ℤ) (started : List ShutdownHook) (errors : ℕ)
    → is_ascending ps ≡ true
    → occurrences q ps ≤ 1
    → of_priority q (run_groups hooks ps started errors).started
      ≡ of_priority q started ++ starting hooks q ps
unfolding run_groups is_ascending occurrences
run_groups-started hooks q [] started errors up once = sym (append-nil _)
run_groups-started hooks q (p ∷ ps) started errors up once =
    let group = of_priority p hooks in
    let joined =
      of_priority-append q started group
      ∙ ap (λ l. of_priority q started ++ l) (of_priority-of_priority q p hooks) in
    elim (Bool-cases (any_hangs group)) [
      | inl h ↦
          ap (λ (e : ShutdownEnd). of_priority q e.started) (if-true h _ _)
          ∙ joined
          ∙ ap (λ l. of_priority q started ++ l) (starting-hang hooks q p ps (ground arith) h)
      | inr h ↦
          ap (λ (e : ShutdownEnd). of_priority q e.started) (if-false h _ _)
          ∙ run_groups-started hooks q ps (started ++ group) (errors + failures group)
              (ground arith) (ground arith)
          ∙ ap (λ l. l ++ starting hooks q ps) joined
          ∙ append_assoc (of_priority q started) _ (starting hooks q ps)
          ∙ ap (λ l. of_priority q started ++ l)
              (starting-onward hooks q p ps (ground arith) h once)
    ]

pub run_groups-sort_ints :
    (hooks : List ShutdownHook) (q : ℤ) (ps : List ℤ)
    → occurrences q (sort_ints ps) ≤ 1
    → of_priority q (run_groups hooks (sort_ints ps) [] 0).started ≡ starting hooks q (sort_ints ps)
unfolding of_priority
run_groups-sort_ints hooks q ps once =
    run_groups-started hooks q (sort_ints ps) [] 0 (is_ascending-sort_ints ps) once
