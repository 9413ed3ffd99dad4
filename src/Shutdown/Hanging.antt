-- ===== src/Shutdown/Hanging.antt =====
-- Which hooks a shutdown starts when some of them hang, and that it then returns the timeout.
use ofelia.Common.{
  ℕ, ◌+◌, ◌≤◌, Bool, true, false, ◌&&◌, ◌||◌, ◌≡◌, sym, ap, ◌∙◌, ◌⊎◌, some, List, [], ◌∷◌, ◌++◌, ℤ,
  ltb_ℤ, eq_ℤ-eq, eq_ℤ-refl, if◌then◌else◌, if-true, if-false, arith, inl, inr, Bool-cases,
}
use ofelia.Shutdown.{
  ShutdownHook, ShutdownManager, of_priority, collect_priorities, sort_ints, hangs, any_hangs,
  failures, shutdown_timeout, ShutdownEnd, run_groups, shutdown,
}
use ofelia.Shutdown.Collecting.{
  occurrences, occurrences-sort_ints, collect_priorities-once, collected,
}
use ofelia.Shutdown.Groups.{errors_result, shutdown-starts}
use ofelia.Shutdown.Starting.{blocked_in, starting, run_groups-sort_ints}

-- Whether a hook of a lower priority hangs.
unfoldable pub blocked : ℤ → List ShutdownHook → Bool
blocked q [] = false
blocked q (h ∷ hs) = hangs h.hook && ltb_ℤ h.priority q || blocked q hs

blocked-of_priority :
    (q p : ℤ) (hs : List ShutdownHook)
    → ltb_ℤ p q ≡ true
    → any_hangs (of_priority p hs) ≡ true
    → blocked q hs ≡ true
unfolding blocked any_hangs of_priority
blocked-of_priority q p [] l h = ground arith
blocked-of_priority q p (x ∷ hs) l h =
    ground (arith, blocked-of_priority q p hs l, eq_ℤ-eq x.priority p, ap (λ z. ltb_ℤ z q))

blocked_in-blocked :
    (q : ℤ) (hooks : List ShutdownHook) (ps : List ℤ)
    → blocked_in hooks q ps ≡ true
    → blocked q hooks ≡ true
unfolding blocked_in
blocked_in-blocked q hooks [] h = ground arith
blocked_in-blocked q hooks (p ∷ ps) h =
    ground (arith, blocked_in-blocked q hooks ps, blocked-of_priority q p hooks)

-- The priority of a hook that hangs and is lower.
blocking :
    (q : ℤ) (hs : List ShutdownHook)
    → blocked q hs ≡ true
    → (p : ℤ) × (ltb_ℤ p q ≡ true) × (any_hangs (of_priority p hs) ≡ true)
unfolding blocked any_hangs of_priority
blocking q [] h = ground arith
blocking q (x ∷ hs) h = elim (Bool-cases (hangs x.hook && ltb_ℤ x.priority q)) [
  | inl here ↦ (x.priority, ground arith, ground (arith, eq_ℤ-refl x.priority))
  | inr gone ↦ let (p, lower, found) = blocking q hs (ground arith) in (p, lower, ground arith)
]

blocked_in-listed :
    (hooks : List ShutdownHook) (q p : ℤ) (ps : List ℤ)
    → ltb_ℤ p q ≡ true
    → any_hangs (of_priority p hooks) ≡ true
    → 1 ≤ occurrences p ps
    → blocked_in hooks q ps ≡ true
unfolding blocked_in occurrences
blocked_in-listed hooks q p [] l h k = ground arith
blocked_in-listed hooks q p (x ∷ ps) l h k = ground (
  arith,
  blocked_in-listed hooks q p ps l h,
  eq_ℤ-eq x p,
  ap (λ z. ltb_ℤ z q),
  ap (λ z. any_hangs (of_priority z hooks)),
)

of_priority-empty : (hooks : List ShutdownHook) → hooks ≡ [] → any_hangs hooks ≡ false
unfolding any_hangs
of_priority-empty hooks e = ap any_hangs e

-- The priorities of the hooks, each once and ascending.
abbrev priorities : List ShutdownHook → List ℤ
priorities hooks = sort_ints (collect_priorities hooks [])

priorities-once : (q : ℤ) (hooks : List ShutdownHook) → occurrences q (priorities hooks) ≤ 1
unfolding occurrences
priorities-once q hooks =
    let nothing_yet : occurrences q [] ≤ 1 = omega arith in
    omega (
      arith,
      occurrences-sort_ints q (collect_priorities hooks []),
      collect_priorities-once q hooks [] nothing_yet,
    )

priorities-listed :
    (q : ℤ) (hooks : List ShutdownHook)
    → (of_priority q hooks ≡ []) ⊎ (1 ≤ occurrences q (priorities hooks))
unfolding occurrences
priorities-listed q hooks =
    let nothing_yet : occurrences q [] ≤ 1 = omega arith in
    elim (collected q hooks [] nothing_yet) [
      | inl none_there ↦ inl none_there
      | inr there ↦ inr (omega (arith, occurrences-sort_ints q (collect_priorities hooks [])))
    ]

blocked_in-hanging :
    (q p : ℤ) (hooks : List ShutdownHook)
    → ltb_ℤ p q ≡ true
    → any_hangs (of_priority p hooks) ≡ true
    → blocked_in hooks q (priorities hooks) ≡ true
blocked_in-hanging q p hooks lower found = elim (priorities-listed p hooks) [
  | inl gone ↦ ground (arith, of_priority-empty (of_priority p hooks) gone)
  | inr there ↦ blocked_in-listed hooks q p (priorities hooks) lower found there
]

blocked_in-priorities :
    (q : ℤ) (hooks : List ShutdownHook) → blocked_in hooks q (priorities hooks) ≡ blocked q hooks
blocked_in-priorities q hooks = elim (Bool-cases (blocked q hooks)) [
  | inl b ↦
      let (p, lower, found) = blocking q hooks b in blocked_in-hanging q p hooks lower found ∙ sym b
  | inr free ↦ ground (arith, blocked_in-blocked q hooks (priorities hooks))
]

starting-priorities :
    (q : ℤ) (hooks : List ShutdownHook)
    → starting hooks q (priorities hooks) ≡ (if blocked q hooks then [] else of_priority q hooks)
starting-priorities q hooks = elim (priorities-listed q hooks) [
  | inl gone ↦ ground (arith, blocked_in-priorities q hooks)
  | inr there ↦ ground (arith, blocked_in-priorities q hooks)
]

shutdown-groups :
    (sm : ShutdownManager)
    → sm.is_shutting_down ≡ false
    → (q : ℤ)
    → of_priority q (shutdown sm).1.started
      ≡ (if blocked q sm.hooks then [] else of_priority q sm.hooks)
unfolding shutdown of_priority
shutdown-groups sm idle q =
    ap (λ (o : ShutdownManager × ShutdownEnd). of_priority q o.1.started) (if-false idle _ _)
    ∙ run_groups-sort_ints sm.hooks q (collect_priorities sm.hooks []) (priorities-once q sm.hooks)
    ∙ starting-priorities q sm.hooks

-- Whether a group of the list hangs.
unfoldable hang_in : List ShutdownHook → List ℤ → Bool
hang_in hooks [] = false
hang_in hooks (p ∷ ps) = any_hangs (of_priority p hooks) || hang_in hooks ps

run_groups-timeout :
    (hooks : List ShutdownHook) (ps : List ℤ) (started : List ShutdownHook) (errors : ℕ)
    → hang_in hooks ps ≡ true
    → (run_groups hooks ps started errors).result ≡ some shutdown_timeout
unfolding run_groups hang_in
run_groups-timeout hooks [] started errors h = ground arith
run_groups-timeout hooks (p ∷ ps) started errors h =
    let group = of_priority p hooks in
    elim (Bool-cases (any_hangs group)) [
      | inl hung ↦ ap (λ (e : ShutdownEnd). e.result) (if-true hung _ _)
      | inr ended ↦
          ap (λ (e : ShutdownEnd). e.result) (if-false ended _ _)
          ∙ run_groups-timeout hooks ps (started ++ group) (errors + failures group) (ground arith)
    ]

hang_in-listed :
    (hooks : List ShutdownHook) (p : ℤ) (ps : List ℤ)
    → any_hangs (of_priority p hooks) ≡ true
    → 1 ≤ occurrences p ps
    → hang_in hooks ps ≡ true
unfolding hang_in occurrences
hang_in-listed hooks p [] h k = ground arith
hang_in-listed hooks p (x ∷ ps) h k =
    ground
      (arith, hang_in-listed hooks p ps h, eq_ℤ-eq x p, ap (λ z. any_hangs (of_priority z hooks)))

-- The priority of a hook that hangs.
hanging_priority :
    (hs : List ShutdownHook) → any_hangs hs ≡ true → (p : ℤ) × (any_hangs (of_priority p hs) ≡ true)
unfolding any_hangs of_priority
hanging_priority [] h = ground arith
hanging_priority (x ∷ hs) h = elim (Bool-cases (hangs x.hook)) [
  | inl here ↦ (x.priority, ground (arith, eq_ℤ-refl x.priority))
  | inr gone ↦ let (p, found) = hanging_priority hs (ground arith) in (p, ground arith)
]

hang_in-priorities :
    (hooks : List ShutdownHook) → any_hangs hooks ≡ true → hang_in hooks (priorities hooks) ≡ true
hang_in-priorities hooks h =
    let (p, found) = hanging_priority hooks h in
    elim (priorities-listed p hooks) [
      | inl gone ↦ ground (arith, of_priority-empty (of_priority p hooks) gone)
      | inr there ↦ hang_in-listed hooks p (priorities hooks) found there
    ]

shutdown-result :
    (sm : ShutdownManager)
    → sm.is_shutting_down ≡ false
    → (shutdown sm).1.result ≡ (
        if any_hangs sm.hooks
        then some shutdown_timeout
        else errors_result (failures (shutdown sm).1.started))
unfolding shutdown
shutdown-result sm idle = elim (Bool-cases (any_hangs sm.hooks)) [
  | inl hung ↦
      ap (λ (o : ShutdownManager × ShutdownEnd). o.1.result) (if-false idle _ _)
      ∙ run_groups-timeout sm.hooks (priorities sm.hooks) [] 0 (hang_in-priorities sm.hooks hung)
      ∙ sym (if-true hung _ _)
  | inr ended ↦ (shutdown-starts sm idle ended).1 ∙ sym (if-false ended _ _)
]

-- A first shutdown, whatever its hooks do: of each priority it starts no hook if a hook of a
-- lower priority hangs, and else all of them, each once and in their order. It returns the
-- timeout if any hook hangs, and else the number of errors of the hooks, or nil if there are none.
pub shutdown-until_hang :
    (sm : ShutdownManager)
    → sm.is_shutting_down ≡ false
    → ((q : ℤ)
        → of_priority q (shutdown sm).1.started
          ≡ (if blocked q sm.hooks then [] else of_priority q sm.hooks))
      × ((shutdown sm).1.result ≡ (
          if any_hangs sm.hooks
          then some shutdown_timeout
          else errors_result (failures (shutdown sm).1.started)))
shutdown-until_hang sm idle = ((λ q. shutdown-groups sm idle q), shutdown-result sm idle)
