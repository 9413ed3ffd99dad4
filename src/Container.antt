-- ===== src/Container.antt =====
-- core/common.go, `middlewareContainer`: at most one middleware of each type, in the order in which
-- they came.
pub mod Order
mod Examples
use ofelia.Common.{
  String, Bool, true, false, Option, none, some, List, [], ◌∷◌, ◌++◌, map, is_some, if◌then◌else◌,
  ◌is◌,
}

-- `m` is the map, a nil map being one without keys.
pub record Container (M : Type 0) : Type 0 where
  pub m : String → Option M
  pub order : List String

module _ {M : Type 0} where
  abbrev pub empty : Container M
  empty = record { m = λ t. none; order = [] }

  -- `Middlewares`, where a missing key gives nil.
  abbrev pub middlewares : Container M → List (Option M)
  middlewares c = map c.m c.order

-- `type_name` is `reflect.TypeOf(m).String()`.
module _ {M : Type 0} (type_name : M → String) where
  -- `c.order = append(c.order, t); c.m[t] = m`
  abbrev pub added : M → Container M → Container M
  added x c = record {
    m = λ t. if t is type_name x then some x else c.m t;
    order = c.order ++ type_name x ∷ [];
  }

  -- The loop body of `Use`, for a middleware that is not nil.
  unfoldable pub use_one : M → Container M → Container M
  use_one x c = if is_some (c.m (type_name x)) then c else added x c

  -- `Use`. An item is `none` where the middleware is nil.
  unfoldable pub use_middlewares : List (Option M) → Container M → Container M
  unfolding use_one
  use_middlewares [] c = c
  use_middlewares (none ∷ ms) c = use_middlewares ms c
  use_middlewares (some x ∷ ms) c = use_middlewares ms (use_one x c)

  unfoldable pub reset_middlewares : List (Option M) → Container M → Container M
  unfolding use_middlewares
  reset_middlewares ms c = use_middlewares ms empty
