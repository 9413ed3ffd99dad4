-- ===== src/Environment.antt =====
-- core/envfile.go, `MergeEnvironments`: the variables of the env files, of other containers and of the
-- job itself in one list, the later ones over the earlier ones.
pub mod Files
pub mod Texts
pub mod Parsing
pub mod Scanning
pub mod Resolving
pub mod Places
pub mod Merging
pub mod Precedence
mod Examples
use ofelia.Common.{
  ℕ, zero, suc, String, Bool, true, false, Option, none, some, List, [], ◌∷◌, ◌++◌, length,
  if◌then◌else◌, ◌is◌, index_byte, prefix,
}

abbrev pub key_before : String → Option ℕ → Option String
key_before entry none = none
key_before entry (some i) = some (prefix entry i)

-- The key of an entry: what stands before its first `=`.
unfoldable pub key_of : String → Option String
key_of entry = key_before entry (index_byte entry "=")

-- `result[i] = entry`, where the code has that index in the list.
unfoldable pub set_at : ℕ → String → List String → List String
set_at i entry [] = []
set_at zero entry (x ∷ xs) = entry ∷ xs
set_at (suc i) entry (x ∷ xs) = x ∷ set_at i entry xs

-- `seen` and `result`.
pub record Merged : Type 0 where
  pub seen : String → Option ℕ
  pub result : List String

-- The end of the loop body of `add`, on the index of the key.
abbrev pub add_at : String → String → Option ℕ → Merged → Merged
add_at key entry (some i) m = record m { result = set_at i entry m.result }
add_at key entry none m = record {
  seen = λ k. if k is key then some (length m.result) else m.seen k;
  result = m.result ++ entry ∷ [];
}

-- The loop body of `add`, on the key of the entry.
abbrev pub add_keyed : String → Option String → Merged → Merged
add_keyed entry none m = m
add_keyed entry (some key) m = add_at key entry (m.seen key) m

unfoldable pub add : List String → Merged → Merged
unfolding key_of set_at
add [] m = m
add (entry ∷ entries) m = add entries (add_keyed entry (key_of entry) m)

-- Three empty lists give nil, which is the empty list here.
unfoldable pub merge_environments : List String → List String → List String → List String
unfolding add
merge_environments env_files env_from explicit =
    let empty : Merged = record { seen = λ k. none; result = [] } in
    (add explicit (add env_from (add env_files empty))).result
