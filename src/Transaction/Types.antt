-- ===== src/Transaction/Types.antt =====
-- internal/transaction/types.go: the set of transaction types that an operator accepts. The lock is
-- held for one assignment or one read, so an operation is one step and the state is `byKey`. A Go
-- map is an association list without repeated keys; the order of its entries is not relied on.
pub mod Laws
use emovis_micro_service.Base.{
  is_empty, ℕ, Text, Bool, if◌then◌else◌, List, [], ◌∷◌, text_eq, Option, none, some, length, map,
}
use emovis_micro_service.Base.Space.{trim_space}
use emovis_micro_service.Base.Case.{CaseTables, to_lower}
use emovis_micro_service.Base.Order.{sort}

abbrev pub TypeSet : Type 0
TypeSet = List (Text × Text)

-- `m[key]` with `ok`
unfoldable pub lookup : Text → TypeSet → Option Text
lookup key [] = none
lookup key ((k, v) ∷ m) = if text_eq k key then some v else lookup key m

-- `m[key] = value`
unfoldable pub assign : Text → Text → TypeSet → TypeSet
assign key value [] = (key, value) ∷ []
assign key value ((k, v) ∷ m) =
    if text_eq k key then (key, value) ∷ m else (k, v) ∷ assign key value m

module _ (tables : CaseTables) where
  unfoldable pub type_key : Text → Text
  type_key t = to_lower tables (trim_space t)

  -- The loop of `Replace`, over what is still to be read.
  unfoldable pub add_types : TypeSet → List Text → TypeSet
  add_types by_key [] = by_key
  add_types by_key (t ∷ types) =
      let key = type_key t in
      add_types (if is_empty key then by_key else assign key (trim_space t) by_key) types

  -- The new set does not depend on the one that it replaces.
  unfoldable pub replace : TypeSet → List Text → TypeSet
  unfolding add_types
  replace s types = add_types [] types

  unfoldable pub new_type_set : List Text → TypeSet
  unfolding replace
  new_type_set types = replace [] types

  unfoldable pub canonical : TypeSet → Text → Option Text
  canonical s t = let key = type_key t in if is_empty key then none else lookup key s

unfoldable pub all_types : TypeSet → List Text
all_types s = sort (map (λ e. e.1) s)

unfoldable pub len : TypeSet → ℕ
len s = length s
