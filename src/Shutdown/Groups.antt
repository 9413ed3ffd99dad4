-- ===== src/Shutdown/Groups.antt =====
-- Which hooks a shutdown starts.
use mathlib.Core.List.{append_assoc, append-nil}
use ofelia.Common.{
  ℕ, ◌+◌, ◌≤◌, true, false, ◌≡◌, refl, sym, ap, ◌∙◌, subst, Option, none, some, List, [], ◌∷◌, ◌++◌,
  ℤ, ltb, eq_ℤ, eq_ℤ-eq, if◌then◌else◌, if-false, arith, inl, inr,
}
use ofelia.Shutdown.{
  ShutdownHook, ShutdownManager, of_priority, collect_priorities, sort_ints, any_hangs, failures,
  ShutdownError, shutdown_in_progress, hook_errors, ShutdownEnd, run_groups, shutdown,
}
use ofelia.Shutdown.Collecting.{
  occurrences, occurrences-sort_ints, collect_priorities-once, collected,
}

-- The groups of the priorities, one after the other.
unfoldable grouped : List ShutdownHook → List ℤ → List ShutdownHook
grouped hooks [] = []
grouped hooks (p ∷ ps) = of_priority p hooks ++ grouped hooks ps

pub of_priority-append :
    (q : ℤ) (hs ks : List ShutdownHook)
    → of_priority q (hs ++ ks) ≡ of_priority q hs ++ of_priority q ks
unfolding of_priority
of_priority-append q [] ks = refl
of_priority-append q (h ∷ hs) ks = ground (arith, of_priority-append q hs ks)

eq_ℤ-left : (a p q : ℤ) → eq_ℤ a p ≡ true → eq_ℤ a q ≡ eq_ℤ p q
eq_ℤ-left a p q h = ap (λ x. eq_ℤ x q) (eq_ℤ-eq a p h)

eq_ℤ-right : (a p q : ℤ) → eq_ℤ p q ≡ true → eq_ℤ a q ≡ eq_ℤ a p
eq_ℤ-right a p q h = ap (eq_ℤ a) (sym (eq_ℤ-eq p q h))

pub of_priority-of_priority :
    (q p : ℤ) (hs : List ShutdownHook)
    → of_priority q (of_priority p hs) ≡ (if eq_ℤ p q then of_priority q hs else [])
unfolding of_priority
of_priority-of_priority q p [] = ground arith
of_priority-of_priority q p (h ∷ hs) =
    ground
      (arith, of_priority-of_priority q p hs, eq_ℤ-left h.priority p q, eq_ℤ-right h.priority p q)

of_priority-grouped :
    (q : ℤ) (hooks : List ShutdownHook) (ps : List ℤ)
    → occurrences q ps ≤ 1
    → of_priority q (grouped hooks ps)
      ≡ (if ltb 0 (occurrences q ps) then of_priority q hooks else [])
unfolding grouped occurrences of_priority
of_priority-grouped q hooks [] h = refl
of_priority-grouped q hooks (p ∷ ps) h = ground (
  arith,
  of_priority-append q (of_priority p hooks) (grouped hooks ps),
  of_priority-of_priority q p hooks,
  of_priority-grouped q hooks ps,
  append-nil (of_priority q hooks),
)

any_hangs-of_priority :
    (p : ℤ) (hs : List ShutdownHook) → any_hangs hs ≡ false → any_hangs (of_priority p hs) ≡ false
unfolding any_hangs of_priority
any_hangs-of_priority p [] h = refl
any_hangs-of_priority p (x ∷ hs) h = ground (arith, any_hangs-of_priority p hs)

failures-append : (hs ks : List ShutdownHook) → failures (hs ++ ks) ≡ failures hs + failures ks
unfolding failures
failures-append [] ks = omega arith
failures-append (h ∷ hs) ks = omega (arith, failures-append hs ks)

-- What `Shutdown` returns for so many errors.
abbrev pub errors_result : ℕ → Option ShutdownError
errors_result n = if ltb 0 n then some (hook_errors n) else none

run_groups-end :
    (hooks : List ShutdownHook) (ps : List ℤ) (started : List ShutdownHook)
    → any_hangs hooks ≡ false
    → run_groups hooks ps started (failures started) ≡ record {
      started = started ++ grouped hooks ps;
      result = errors_result (failures (started ++ grouped hooks ps));
    }
unfolding run_groups grouped
run_groups-end hooks [] started h =
    ap {B = ShutdownEnd} (λ l. record { started = l; result = errors_result (failures l) })
      (sym (append-nil started))
run_groups-end hooks (p ∷ ps) started h =
    let group = of_priority p hooks in
    if-false (any_hangs-of_priority p hooks h) _ _
    ∙ ap (run_groups hooks ps (started ++ group)) (sym (failures-append started group))
    ∙ run_groups-end hooks ps (started ++ group) h
    ∙ ap {B = ShutdownEnd} (λ l. record { started = l; result = errors_result (failures l) })
        (append_assoc started group (grouped hooks ps))

abbrev all_groups : List ShutdownHook → List ShutdownHook
all_groups hooks = grouped hooks (sort_ints (collect_priorities hooks []))

of_priority-all_groups :
    (q : ℤ) (hooks : List ShutdownHook) → of_priority q (all_groups hooks) ≡ of_priority q hooks
unfolding occurrences
of_priority-all_groups q hooks =
    let ps = collect_priorities hooks [] in
    let nothing_yet : occurrences q [] ≤ 1 = omega arith in
    let same = occurrences-sort_ints q ps in
    of_priority-grouped q hooks (sort_ints ps)
      (omega (arith, same, collect_priorities-once q hooks [] nothing_yet))
    ∙ elim (collected q hooks [] nothing_yet) [
      | inl none_there ↦ ground arith
      | inr some_there ↦ ground arith
    ]

shutdown-first :
    (sm : ShutdownManager)
    → sm.is_shutting_down ≡ false
    → any_hangs sm.hooks ≡ false
    → shutdown sm ≡ (
      record sm { is_shutting_down = true },
      record {
        started = all_groups sm.hooks;
        result = errors_result (failures (all_groups sm.hooks));
      },
    )
unfolding shutdown failures
shutdown-first sm idle ends =
    if-false idle _ _
    ∙ ap {B = ShutdownManager × ShutdownEnd} (λ e. (record sm { is_shutting_down = true }, e))
        (run_groups-end sm.hooks (sort_ints (collect_priorities sm.hooks [])) [] ends)

-- What the first and the second shutdown do.
abbrev pub StartsAll : ShutdownManager → ShutdownManager × ShutdownEnd → Type 0
StartsAll sm (sm', first) =
    ((q : ℤ) → of_priority q first.started ≡ of_priority q sm.hooks)
    × (first.result ≡ errors_result (failures first.started))
    × ((shutdown sm').1 ≡ record { started = []; result = some shutdown_in_progress })

-- Where no hook hangs: a first shutdown starts the hooks of every priority, each once and in their
-- order, and returns their number of errors, or nil if there are none; a second one is refused and
-- starts nothing.
pub shutdown-starts :
    (sm : ShutdownManager)
    → sm.is_shutting_down ≡ false
    → any_hangs sm.hooks ≡ false
    → StartsAll sm (shutdown sm)
unfolding shutdown
shutdown-starts sm idle ends =
    subst (StartsAll sm) (sym (shutdown-first sm idle ends))
      ((λ q. of_priority-all_groups q sm.hooks), refl, refl)
