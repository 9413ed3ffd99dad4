-- ===== src/Environment/Places.antt =====
-- The entries with a key in a list, their places, and what writing to one place changes.
use ofelia.Common.{
  ℕ, zero, suc, String, Bool, true, false, ◌≡◌, refl, sym, ap, ◌∙◌, Option, none, some, List, [],
  ◌∷◌, ◌++◌, length, if◌then◌else◌, if-true, if-false, ◌is◌, is_iff, arith,
}
use ofelia.Environment.{key_of, set_at}

abbrev pub is_key : String → Option String → Bool
is_key k none = false
is_key k (some m) = m is k

abbrev pub has_key : String → String → Bool
has_key k entry = is_key k (key_of entry)

-- The entries with the key, in their order.
unfoldable pub entries_of : String → List String → List String
entries_of k [] = []
entries_of k (x ∷ xs) = let rest = entries_of k xs in if has_key k x then x ∷ rest else rest

-- The last entry with the key, `last` standing for the entries before.
unfoldable pub last_from : String → Option String → List String → Option String
last_from k last [] = last
last_from k last (x ∷ xs) = last_from k (if has_key k x then some x else last) xs

abbrev pub to_list : Option String → List String
to_list none = []
to_list (some x) = x ∷ []

abbrev pub up : Option ℕ → Option ℕ
up none = none
up (some i) = some (suc i)

unfoldable pub index_of : String → List String → Option ℕ
index_of k [] = none
index_of k (x ∷ xs) = let later = up (index_of k xs) in if has_key k x then some 0 else later

abbrev pub replace_head : String → List String → List String
replace_head e [] = []
replace_head e (x ∷ xs) = e ∷ xs

pub index_of-none : (k : String) (l : List String) → index_of k l ≡ none → entries_of k l ≡ []
unfolding index_of entries_of
index_of-none k [] h = refl
index_of-none k (x ∷ l) h = ground (arith, index_of-none k l)

pub same_key :
    (k m : String) (o p : Option String)
    → is_key k o ≡ true
    → is_key k p ≡ true
    → is_key m o ≡ is_key m p
same_key k m none p h j = ground arith
same_key k m (some n) none h j = ground arith
same_key k m (some n) (some n') h j = ap (λ z. z is m) ((is_iff n k).0 h ∙ sym ((is_iff n' k).0 j))

pub index-head : (b : Bool) (o : Option ℕ) → (if b then some 0 else up o) ≡ some 0 → b ≡ true
index-head true o h = refl
index-head false none h = ground arith
index-head false (some i) h = ground arith

pub index-tail :
    (b : Bool) (o : Option ℕ) (i : ℕ)
    → (if b then some 0 else up o) ≡ some (suc i)
    → (b ≡ false) × (o ≡ some i)
index-tail true o i h = ground arith
index-tail false none i h = ground arith
index-tail false (some n) i h = (refl, ground arith)

pub entries_of-set_at :
    (k e : String) (i : ℕ) (l : List String)
    → has_key k e ≡ true
    → index_of k l ≡ some i
    → entries_of k (set_at i e l) ≡ replace_head e (entries_of k l)
unfolding entries_of set_at index_of
entries_of-set_at k e i [] h j = refl
entries_of-set_at k e zero (x ∷ l) h j =
    if-true h _ _ ∙ ap (replace_head e) (sym (if-true (index-head (has_key k x) _ j) _ _))
entries_of-set_at k e (suc i) (x ∷ l) h j =
    let (other, found) = index-tail (has_key k x) (index_of k l) i j in
    if-false other _ _
    ∙ entries_of-set_at k e i l h found
    ∙ ap (replace_head e) (sym (if-false other _ _))

pub entries_of-set_at_other :
    (k m e : String) (i : ℕ) (l : List String)
    → has_key k e ≡ true
    → index_of k l ≡ some i
    → has_key m e ≡ false
    → entries_of m (set_at i e l) ≡ entries_of m l
unfolding entries_of set_at index_of
entries_of-set_at_other k m e i [] h j n = refl
entries_of-set_at_other k m e zero (x ∷ l) h j n =
    let same = same_key k m (key_of x) (key_of e) (index-head (has_key k x) _ j) h in
    if-false n _ _ ∙ sym (if-false (same ∙ n) _ _)
entries_of-set_at_other k m e (suc i) (x ∷ l) h j n =
    let (other, found) = index-tail (has_key k x) (index_of k l) i j in
    ap (λ r. if has_key m x then x ∷ r else r) (entries_of-set_at_other k m e i l h found n)

pub index_of-set_at :
    (k m e : String) (i : ℕ) (l : List String)
    → has_key k e ≡ true
    → index_of k l ≡ some i
    → index_of m (set_at i e l) ≡ index_of m l
unfolding set_at index_of
index_of-set_at k m e i [] h j = refl
index_of-set_at k m e zero (x ∷ l) h j =
    let same = same_key k m (key_of x) (key_of e) (index-head (has_key k x) _ j) h in
    ap (λ b. if b then some 0 else up (index_of m l)) (sym same)
index_of-set_at k m e (suc i) (x ∷ l) h j =
    let (other, found) = index-tail (has_key k x) (index_of k l) i j in
    ap (λ o. if has_key m x then some 0 else up o) (index_of-set_at k m e i l h found)

pub entries_of-append :
    (k e : String) (l : List String)
    → entries_of k (l ++ e ∷ []) ≡ entries_of k l ++ (if has_key k e then e ∷ [] else [])
unfolding entries_of
entries_of-append k e [] = refl
entries_of-append k e (x ∷ l) = ground (arith, entries_of-append k e l)

unfoldable pub later_index : Option ℕ → ℕ → Bool → Option ℕ
later_index (some i) n b = some i
later_index none n b = if b then some n else none

pub up-later_index :
    (b : Bool) (o : Option ℕ) (n : ℕ) (c : Bool)
    → (if b then some 0 else up (later_index o n c))
      ≡ later_index (if b then some 0 else up o) (suc n) c
unfolding later_index
up-later_index true o n c = refl
up-later_index false (some i) n c = refl
up-later_index false none n true = refl
up-later_index false none n false = refl

pub index_of-append :
    (k e : String) (l : List String)
    → index_of k (l ++ e ∷ []) ≡ later_index (index_of k l) (length l) (has_key k e)
unfolding index_of later_index
index_of-append k e [] = refl
index_of-append k e (x ∷ l) =
    ap (λ o. if has_key k x then some 0 else up o) (index_of-append k e l)
    ∙ up-later_index (has_key k x) (index_of k l) (length l) (has_key k e)

pub index_of-empty : (k : String) (l : List String) → entries_of k l ≡ [] → index_of k l ≡ none
unfolding index_of entries_of
index_of-empty k [] h = refl
index_of-empty k (x ∷ l) h = ground (arith, index_of-empty k l)

pub replaced :
    (k e : String) (i : ℕ) (l : List String) (o : Option String)
    → index_of k l ≡ some i
    → entries_of k l ≡ to_list o
    → replace_head e (entries_of k l) ≡ e ∷ []
replaced k e i l none h j = ground (arith, index_of-empty k l)
replaced k e i l (some y) h j = ap (replace_head e) j

pub later_index-absent : (o : Option ℕ) (n : ℕ) → o ≡ none → later_index o n true ≡ some n
unfolding later_index
later_index-absent none n h = refl
later_index-absent (some i) n h = ground arith

pub later_index-same : (o : Option ℕ) (n : ℕ) → later_index o n false ≡ o
unfolding later_index
later_index-same none n = refl
later_index-same (some i) n = refl
