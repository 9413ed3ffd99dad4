-- ===== src/Shutdown/Registering.antt =====
-- The hooks are sorted by priority, and those of one priority stand in the order in which they were
-- registered.
use ofelia.Common.{
  Bool, true, false, not, ◌&&◌, ◌≡◌, refl, sym, ap, ◌∙◌, List, [], ◌∷◌, ◌++◌, ℤ, ltb_ℤ, eq_ℤ,
  eq_ℤ-eq, ltb_ℤ-irrefl, ltb_ℤ_asymm, if◌then◌else◌, reverse, arith,
}
use mathlib.Core.List.{reverse_aux, reverse-append, reverse-reverse, append-nil, append_assoc}
use ofelia.Shutdown.{
  ShutdownHook, ShutdownManager, new_shutdown_manager, sift, register_hook, of_priority,
}

unfoldable pub register_all : List ShutdownHook → ShutdownManager → ShutdownManager
register_all [] sm = sm
register_all (h ∷ hs) sm = register_all hs (register_hook h sm)

same_priority : (a b p : ℤ) → eq_ℤ a p ≡ true → eq_ℤ b p ≡ true → ltb_ℤ a b ≡ false
same_priority a b p h k = ap (λ q. ltb_ℤ q b) (eq_ℤ-eq a p h ∙ sym (eq_ℤ-eq b p k)) ∙ ltb_ℤ-irrefl b

of_priority-sift :
    (p : ℤ) (h : ShutdownHook) (l : List ShutdownHook)
    → of_priority p (sift h l) ≡ of_priority p (h ∷ l)
unfolding of_priority sift
of_priority-sift p h [] = refl
of_priority-sift p h (x ∷ l) =
    ground (arith, of_priority-sift p h l, same_priority h.priority x.priority p)

turned :
    (b : Bool) (x : ShutdownHook) (l r : List ShutdownHook)
    → reverse_aux l (if b then x ∷ r else r) ≡ reverse_aux (if b then x ∷ l else l) r
turned true x l r = refl
turned false x l r = refl

of_priority-reverse_aux :
    (p : ℤ) (xs r : List ShutdownHook)
    → of_priority p (reverse_aux xs r) ≡ reverse_aux (of_priority p xs) (of_priority p r)
unfolding of_priority
of_priority-reverse_aux p [] r = refl
of_priority-reverse_aux p (x ∷ xs) r =
    of_priority-reverse_aux p xs (x ∷ r)
    ∙ turned (eq_ℤ x.priority p) x (of_priority p xs) (of_priority p r)

placed :
    (b : Bool) (h : ShutdownHook) (l : List ShutdownHook)
    → reverse (if b then h ∷ reverse l else reverse l) ≡ l ++ (if b then h ∷ [] else [])
placed true h l = reverse-append (h ∷ []) (reverse l) ∙ ap (λ k. k ++ h ∷ []) (reverse-reverse l)
placed false h l = reverse-reverse l ∙ sym (append-nil l)

of_priority-reverse :
    (p : ℤ) (l : List ShutdownHook) → of_priority p (reverse l) ≡ reverse (of_priority p l)
unfolding of_priority
of_priority-reverse p l = of_priority-reverse_aux p l []

of_priority-register_hook :
    (p : ℤ) (h : ShutdownHook) (sm : ShutdownManager)
    → of_priority p (register_hook h sm).hooks
      ≡ of_priority p sm.hooks ++ (if eq_ℤ h.priority p then h ∷ [] else [])
unfolding register_hook of_priority
of_priority-register_hook p h sm =
    of_priority-reverse p (sift h (reverse sm.hooks))
    ∙ ap reverse (of_priority-sift p h (reverse sm.hooks))
    ∙ ap (λ l. reverse (if eq_ℤ h.priority p then h ∷ l else l)) (of_priority-reverse p sm.hooks)
    ∙ placed (eq_ℤ h.priority p) h (of_priority p sm.hooks)

joined :
    (b : Bool) (h : ShutdownHook) (l r : List ShutdownHook)
    → l ++ (if b then h ∷ [] else []) ++ r ≡ l ++ (if b then h ∷ r else r)
joined true h l r = append_assoc l (h ∷ []) r
joined false h l r = ap (λ k. k ++ r) (append-nil l)

of_priority-register_all :
    (p : ℤ) (hs : List ShutdownHook) (sm : ShutdownManager)
    → of_priority p (register_all hs sm).hooks ≡ of_priority p sm.hooks ++ of_priority p hs
unfolding register_all of_priority
of_priority-register_all p [] sm = sym (append-nil (of_priority p sm.hooks))
of_priority-register_all p (h ∷ hs) sm =
    of_priority-register_all p hs (register_hook h sm)
    ∙ ap (λ l. l ++ of_priority p hs) (of_priority-register_hook p h sm)
    ∙ joined (eq_ℤ h.priority p) h (of_priority p sm.hooks) (of_priority p hs)

-- Whether `h` may stand before the list, as to its first hook.
abbrev may_precede : ShutdownHook → List ShutdownHook → Bool
may_precede h [] = true
may_precede h (x ∷ l) = not (ltb_ℤ x.priority h.priority)

abbrev may_follow : ShutdownHook → List ShutdownHook → Bool
may_follow h [] = true
may_follow h (x ∷ l) = not (ltb_ℤ h.priority x.priority)

-- Whether the priorities never fall.
unfoldable pub is_sorted : List ShutdownHook → Bool
is_sorted [] = true
is_sorted (h ∷ l) = may_precede h l && is_sorted l

unfoldable is_falling : List ShutdownHook → Bool
is_falling [] = true
is_falling (h ∷ l) = may_follow h l && is_falling l

abbrev heads_fit : List ShutdownHook → List ShutdownHook → Bool
heads_fit [] r = true
heads_fit (x ∷ l) r = may_precede x r

heads_fit-nil : (l : List ShutdownHook) → heads_fit l [] ≡ true
heads_fit-nil [] = refl
heads_fit-nil (x ∷ l) = refl

heads_fit-cons : (x : ShutdownHook) (l r : List ShutdownHook) → heads_fit l (x ∷ r) ≡ may_follow x l
heads_fit-cons x [] r = refl
heads_fit-cons x (y ∷ l) r = refl

is_sorted-reverse_aux :
    (l r : List ShutdownHook)
    → is_falling l ≡ true
    → is_sorted r ≡ true
    → heads_fit l r ≡ true
    → is_sorted (reverse_aux l r) ≡ true
unfolding is_falling is_sorted
is_sorted-reverse_aux [] r h k j = k
is_sorted-reverse_aux (x ∷ l) r h k j =
    is_sorted-reverse_aux l (x ∷ r) (ground arith) (ground arith)
      (heads_fit-cons x l r ∙ ground arith)

may_follow-sift :
    (x h : ShutdownHook) (l : List ShutdownHook)
    → ltb_ℤ x.priority h.priority ≡ false
    → may_follow x l ≡ true
    → may_follow x (sift h l) ≡ true
unfolding sift
may_follow-sift x h [] k j = ground arith
may_follow-sift x h (y ∷ l) k j = ground arith

is_falling-sift :
    (h : ShutdownHook) (l : List ShutdownHook) → is_falling l ≡ true → is_falling (sift h l) ≡ true
unfolding is_falling sift
is_falling-sift h [] k = refl
is_falling-sift h (x ∷ l) k =
    ground (arith, is_falling-sift h l, may_follow-sift x h l, ltb_ℤ_asymm h.priority x.priority)

register_hook-reversed :
    (h : ShutdownHook) (sm : ShutdownManager)
    → reverse (register_hook h sm).hooks ≡ sift h (reverse sm.hooks)
unfolding register_hook
register_hook-reversed h sm = reverse-reverse (sift h (reverse sm.hooks))

register_all-falling :
    (hs : List ShutdownHook) (sm : ShutdownManager)
    → is_falling (reverse sm.hooks) ≡ true
    → is_falling (reverse (register_all hs sm).hooks) ≡ true
unfolding register_all
register_all-falling [] sm v = v
register_all-falling (h ∷ hs) sm v =
    register_all-falling hs (register_hook h sm)
      (ap is_falling (register_hook-reversed h sm) ∙ is_falling-sift h (reverse sm.hooks) v)

falling-is_sorted : (l : List ShutdownHook) → is_falling (reverse l) ≡ true → is_sorted l ≡ true
unfolding is_sorted
falling-is_sorted l v =
    ap is_sorted (sym (reverse-reverse l))
    ∙ is_sorted-reverse_aux (reverse l) [] v refl (heads_fit-nil (reverse l))

-- However many hooks are registered with a new manager: their priorities never fall along the list,
-- and the hooks of each priority are all there, in the order in which they were registered.
pub register_all-is_sorted :
    (timeout : ℤ) (hs : List ShutdownHook)
    → let l = (register_all hs (new_shutdown_manager timeout)).hooks in
      (is_sorted l ≡ true) × ((p : ℤ) → of_priority p l ≡ of_priority p hs)
unfolding new_shutdown_manager is_falling of_priority
register_all-is_sorted timeout hs = (
  falling-is_sorted _ (register_all-falling hs (new_shutdown_manager timeout) refl),
  λ p. of_priority-register_all p hs (new_shutdown_manager timeout),
)
