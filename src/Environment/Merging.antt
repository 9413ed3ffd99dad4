-- ===== src/Environment/Merging.antt =====
-- Of the entries with the same key, the last one is in the list, and no other.
use mathlib.Core.List.{append-nil}
use ofelia.Common.{
  ℕ, String, true, false, ◌≡◌, refl, sym, ap, ◌∙◌, Option, none, some, List, [], ◌∷◌, ◌++◌, length,
  if◌then◌else◌, if-true, if-false, ◌is◌, is_iff, is_refl, Bool-cases, inl, inr, arith,
}
use ofelia.Environment.{key_of, Merged, add_at, add_keyed, add, merge_environments}
use ofelia.Environment.Places.{
  is_key, has_key, entries_of, last_from, to_list, index_of, index_of-none, entries_of-set_at,
  entries_of-set_at_other, index_of-set_at, entries_of-append, later_index, index_of-append,
  replaced, later_index-absent, later_index-same,
}

-- The map has the places of the keys in the list, and the list has what `last` says of each key.
record IsMerged (m : Merged) (last : String → Option String) : Type 0 where
  places : (k : String) → m.seen k ≡ index_of k m.result
  values : (k : String) → entries_of k m.result ≡ to_list (last k)

is-false_symm : (s t : String) → (s is t) ≡ false → (t is s) ≡ false
is-false_symm s t h = ground (arith, is_iff s t, is_iff t s)

add_at-IsMerged :
    (key e : String) (o : Option ℕ) (m : Merged) (last : String → Option String)
    → key_of e ≡ some key
    → m.seen key ≡ o
    → IsMerged m last
    → IsMerged (add_at key e o m) (λ k. if has_key k e then some e else last k)
add_at-IsMerged key e (some i) m last h j v =
    let own : has_key key e ≡ true = ap (is_key key) h ∙ is_refl key in
    let found : index_of key m.result ≡ some i = sym (v.places key) ∙ j in
    record {
      places = λ k. v.places k ∙ sym (index_of-set_at key k e i m.result own found);
      values = λ k. elim (Bool-cases (has_key k e)) [
        | inl has_k ↦
            let same : key ≡ k = (is_iff key k).0 (sym (ap (is_key k) h) ∙ has_k) in
            let found_k = ap (λ z. index_of z m.result) (sym same) ∙ found in
            entries_of-set_at k e i m.result has_k found_k
            ∙ replaced k e i m.result (last k) found_k (v.values k)
            ∙ sym (ap to_list (if-true has_k (some e) (last k)))
        | inr lacks_k ↦
            entries_of-set_at_other key k e i m.result own found lacks_k
            ∙ v.values k
            ∙ sym (ap to_list (if-false lacks_k (some e) (last k)))
      ];
    }
add_at-IsMerged key e none m last h j v =
    let absent : index_of key m.result ≡ none = sym (v.places key) ∙ j in
    record {
      places = λ k. elim (Bool-cases (k is key)) [
        | inl eq ↦
            let same : k ≡ key = (is_iff k key).0 eq in
            if-true eq _ _
            ∙ sym (
                index_of-append k e m.result
                ∙ ap (later_index (index_of k m.result) (length m.result))
                    (ap (is_key k) h ∙ (is_iff key k).1 (sym same))
                ∙ later_index-absent (index_of k m.result) (length m.result)
                    (ap (λ z. index_of z m.result) same ∙ absent))
        | inr ne ↦
            if-false ne _ _
            ∙ v.places k
            ∙ sym (
                index_of-append k e m.result
                ∙ ap (later_index (index_of k m.result) (length m.result))
                    (ap (is_key k) h ∙ is-false_symm k key ne)
                ∙ later_index-same (index_of k m.result) (length m.result))
      ];
      values = λ k. elim (Bool-cases (has_key k e)) [
        | inl has_k ↦
            let same : key ≡ k = (is_iff key k).0 (sym (ap (is_key k) h) ∙ has_k) in
            entries_of-append k e m.result
            ∙ (λ n.
                index_of-none k m.result (ap (λ z. index_of z m.result) (sym same) ∙ absent) n
                ++ if-true has_k (e ∷ []) [] n)
            ∙ sym (ap to_list (if-true has_k (some e) (last k)))
        | inr lacks_k ↦
            entries_of-append k e m.result
            ∙ ap (λ l. entries_of k m.result ++ l) (if-false lacks_k (e ∷ []) [])
            ∙ append-nil (entries_of k m.result)
            ∙ v.values k
            ∙ sym (ap to_list (if-false lacks_k (some e) (last k)))
      ];
    }

-- What is the last entry with each key, after one more entry.
abbrev noted : String → (String → Option String) → String → Option String
noted e last k = if has_key k e then some e else last k

no_key : (k e : String) → key_of e ≡ none → has_key k e ≡ false
no_key k e h = ap (is_key k) h

add_keyed-IsMerged :
    (e : String) (o : Option String) (m : Merged) (last : String → Option String)
    → key_of e ≡ o
    → IsMerged m last
    → IsMerged (add_keyed e o m) (noted e last)
add_keyed-IsMerged e none m last h v = record {
  places = v.places;
  values = λ k. v.values k ∙ sym (ap to_list (if-false (no_key k e h) (some e) (last k)));
}
add_keyed-IsMerged e (some key) m last h v = add_at-IsMerged key e (m.seen key) m last h refl v

add-IsMerged :
    (es : List String) (m : Merged) (last : String → Option String)
    → IsMerged m last
    → IsMerged (add es m) (λ k. last_from k (last k) es)
unfolding add last_from
add-IsMerged [] m last v = v
add-IsMerged (e ∷ es) m last v =
    add-IsMerged es (add_keyed e (key_of e) m) (noted e last)
      (add_keyed-IsMerged e (key_of e) m last refl v)

last_from-append :
    (k : String) (last : Option String) (es fs : List String)
    → last_from k last (es ++ fs) ≡ last_from k (last_from k last es) fs
unfolding last_from
last_from-append k last [] fs = refl
last_from-append k last (e ∷ es) fs =
    last_from-append k (if has_key k e then some e else last) es fs

-- Whatever key: of the entries with it, in the env files, the other containers and the job's own
-- environment in this order, the merged environment has exactly the last one, and none if there is none.
pub merge_environments-last :
    (env_files env_from explicit : List String) (k : String)
    → entries_of k (merge_environments env_files env_from explicit)
      ≡ to_list (last_from k none (env_files ++ env_from ++ explicit))
unfolding merge_environments entries_of index_of
merge_environments-last env_files env_from explicit k =
    let start : Merged = record { seen = λ k. none; result = [] } in
    let nothing : IsMerged start (λ k. none) = record { places = λ k. refl; values = λ k. refl } in
    let m₁ = add env_files start in
    let v₁ = add-IsMerged env_files start (λ k. none) nothing in
    let m₂ = add env_from m₁ in
    let v₂ = add-IsMerged env_from m₁ _ v₁ in
    let v₃ = add-IsMerged explicit m₂ _ v₂ in
    v₃.values k
    ∙ ap to_list (
        ap (λ l. last_from k l explicit) (sym (last_from-append k none env_files env_from))
        ∙ sym (last_from-append k none (env_files ++ env_from) explicit))
