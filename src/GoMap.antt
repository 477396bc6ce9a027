-- ===== src/GoMap.antt =====
-- Go's `map[K]V`, as an association list. The order of the entries stands for the order in which
-- `range` visits them, which Go leaves open: a theorem about every list covers every order.
pub mod Laws
use kubectl_mcp.Prelude.{Bool, Option, none, some, List, [], ◌∷◌, ◌≡◌, Eq, if◌then◌else◌, is_some}

abbrev pub GoMap {ℓ κ} : Type ℓ → Type κ → Type (ℓ ⊔ κ)
GoMap K V = List (K × V)

module _ {ℓ κ} {K : Type ℓ} {V : Type κ} ⦃e : Eq K⦄ where
  -- `v, ok := m[k]`
  unfoldable pub lookup : K → GoMap K V → Option V
  lookup k [] = none
  lookup k ((j, v) ∷ m) = if e.beq j k then some v else lookup k m

  -- `_, ok := m[k]`
  unfoldable pub has : K → GoMap K V → Bool
  has k m = is_some (lookup k m)

  -- `m[k] = v`
  unfoldable pub insert : K → V → GoMap K V → GoMap K V
  insert k v [] = (k, v) ∷ []
  insert k v ((j, w) ∷ m) = if e.beq j k then (k, v) ∷ m else (j, w) ∷ insert k v m

  -- `delete(m, k)`
  unfoldable pub delete : K → GoMap K V → GoMap K V
  delete k [] = []
  delete k ((j, w) ∷ m) = let rest = delete k m in if e.beq j k then rest else (j, w) ∷ rest

  -- `for k, v := range m { if drop(k, v) { delete(m, k) } }`
  unfoldable pub delete_where : (K → V → Bool) → GoMap K V → GoMap K V
  delete_where drop [] = []
  delete_where drop ((j, w) ∷ m) =
      let rest = delete_where drop m in if drop j w then rest else (j, w) ∷ rest

  -- no key twice, which holds of every Go map
  abbrev pub Distinct : GoMap K V → Type κ
  Distinct [] = Unit
  Distinct ((k, v) ∷ m) = (lookup k m ≡ none) × Distinct m
