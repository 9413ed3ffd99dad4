-- ===== src/Container/Examples.antt =====
-- The theorems on containers at concrete values: middlewares with a setting each.
use ofelia.Common.{
  ℕ, ◌≡◌, refl, String, Bool, true, false, Option, none, some, List, [], ◌∷◌, map, ◌++◌, is_some,
}
use ofelia.Container.{Container, empty, added}
use ofelia.Container.Order.{firsts}

abbrev type_name : String × ℕ → String
type_name (name, setting) = name

abbrev job_container : Container (String × ℕ)
job_container = added type_name ("*middlewares.Save", 1) empty

abbrev global : List (Option (String × ℕ))
global = some ("*middlewares.Mail", 2) ∷ none ∷ some ("*middlewares.Save", 3) ∷ []

only_mail :
    firsts type_name (λ t. is_some (job_container.m t)) global ≡ ("*middlewares.Mail", 2) ∷ []
unfolding firsts ofelia.Common.◌is◌
only_mail = refl
