-- ===== src/Container/Order.antt =====
-- Which middlewares a container has: the first of each type.
use ofelia.Common.{
  String, Bool, true, false, ◌≡◌, refl, sym, ap, ◌∙◌, ◌||◌, Option, none, some, List, [], ◌∷◌, ◌++◌,
  map, is_some, if◌then◌else◌, if-true, if-false, ◌is◌, is_iff, is_refl, Bool-cases, inl, inr,
  arith, Option-cases,
}
use mathlib.Core.List.{append-nil, append_assoc, map-append}
use ofelia.Container.{
  Container, empty, added, use_one, use_middlewares, reset_middlewares, middlewares,
}

module _ {M : Type 0} (type_name : M → String) where
  -- The middlewares that are not nil, without those whose type is in `seen` or is that of an earlier
  -- one.
  unfoldable pub firsts : (String → Bool) → List (Option M) → List M
  firsts seen [] = []
  firsts seen (none ∷ ms) = firsts seen ms
  firsts seen (some x ∷ ms) =
      let later = firsts (λ t. t is type_name x || seen t) ms in
      if seen (type_name x) then firsts seen ms else x ∷ later

  abbrev pub all_present : List (Option M) → Bool
  all_present [] = true
  all_present (none ∷ _) = false
  all_present (some _ ∷ xs) = all_present xs

  present-cons :
      (o : Option M) (xs : List (Option M))
      → all_present (o ∷ xs) ≡ true
      → (is_some o ≡ true) × (all_present xs ≡ true)
  present-cons none xs h = ground arith
  present-cons (some x) xs h = (refl, h)

  map-other :
      (m : String → Option M) (k : String) (x : M) (ts : List String)
      → m k ≡ none
      → all_present (map m ts) ≡ true
      → map (λ t. if t is k then some x else m t) ts ≡ map m ts
  map-other m k x [] none_there h = refl
  map-other m k x (t ∷ ts) none_there h = elim (Bool-cases (t is k)) [
    | inl e ↦ ground (arith, present-cons (m t) (map m ts) h, is_iff t k, none_there, ap m)
    | inr e ↦ λ i.
        (if e i then some x else m t)
        ∷ map-other m k x ts none_there (present-cons (m t) (map m ts) h).1 i
  ]

  present-append : (xs : List (Option M)) (x : M) → all_present (xs ++ some x ∷ []) ≡ all_present xs
  present-append [] x = refl
  present-append (none ∷ xs) x = refl
  present-append (some y ∷ xs) x = present-append xs x

  added-middlewares :
      (x : M) (c : Container M)
      → c.m (type_name x) ≡ none
      → all_present (middlewares c) ≡ true
      → middlewares (added type_name x c) ≡ middlewares c ++ some x ∷ []
  added-middlewares x c new h =
      map-append (added type_name x c).m c.order (type_name x ∷ []) ∙ (λ i.
        map-other c.m (type_name x) x c.order new h i
        ++ if-true (is_refl (type_name x)) (some x) (c.m (type_name x)) i ∷ [])

  is_some-if :
      (b : Bool) (x : M) (o : Option M) → is_some (if b then some x else o) ≡ (b || is_some o)
  is_some-if true x o = refl
  is_some-if false x o = refl

  -- `Use` appends, of the given middlewares, those that are not nil and are the first of their type,
  -- those already there counted. Every type in the order has its middleware, which `Use` keeps.
  pub middlewares-use_middlewares :
      (ms : List (Option M)) (c : Container M)
      → all_present (middlewares c) ≡ true
      → middlewares (use_middlewares type_name ms c)
        ≡ middlewares c ++ map some (firsts (λ t. is_some (c.m t)) ms)
  unfolding use_middlewares use_one firsts
  middlewares-use_middlewares [] c h = sym (append-nil _)
  middlewares-use_middlewares (none ∷ ms) c h = middlewares-use_middlewares ms c h
  middlewares-use_middlewares (some x ∷ ms) c h = elim (Option-cases (c.m (type_name x))) [
    | inr (y, e) ↦
        ap (λ d. middlewares (use_middlewares type_name ms d))
          (if-true (ap is_some e) c (added type_name x c))
        ∙ middlewares-use_middlewares ms c h
        ∙ ap (λ l. middlewares c ++ map some l) (sym (if-true (ap is_some e) _ _))
    | inl e ↦
        let grown = added-middlewares x c e h in
        ap (λ d. middlewares (use_middlewares type_name ms d))
          (if-false (ap is_some e) c (added type_name x c))
        ∙ middlewares-use_middlewares ms (added type_name x c)
            (ap all_present grown ∙ present-append (middlewares c) x ∙ h)
        ∙ (λ i. grown i ++ map some (firsts (λ t. is_some-if (t is type_name x) x (c.m t) i) ms))
        ∙ append_assoc (middlewares c) (some x ∷ []) _
        ∙ ap (λ l. middlewares c ++ map some l) (sym (if-false (ap is_some e) _ _))
  ]

  -- After `ResetMiddlewares`, the container has, of the given middlewares, those that are not nil and
  -- are the first of their type, in their order.
  pub middlewares-reset_middlewares :
      (ms : List (Option M)) (c : Container M)
      → middlewares (reset_middlewares type_name ms c) ≡ map some (firsts (λ t. false) ms)
  unfolding reset_middlewares
  middlewares-reset_middlewares ms c = middlewares-use_middlewares ms empty refl
