-- ===== src/GoMap/Laws.antt =====
-- The laws of Go's map operations, each with no side condition where it has none.
use kubectl_mcp.Prelude.{
  ◌+◌, ◌≤◌, Bool, Option, none, some, [], ◌∷◌, ◌≡◌, refl, arith, Eq, if◌then◌else◌, length,
  Bool-cases, inl, inr, beq_refl,
}
use kubectl_mcp.GoMap.{GoMap, lookup, has, insert, delete, delete_where, Distinct}

module _ {ℓ κ} {K : Type ℓ} {V : Type κ} ⦃e : Eq K⦄ where
  pub lookup-insert :
      (k j : K) (v : V) (m : GoMap K V)
      → lookup j (insert k v m) ≡ (if e.beq k j then some v else lookup j m)
  unfolding lookup insert
  lookup-insert k j v [] = refl
  lookup-insert k j v ((i, w) ∷ m) =
      ground (arith, e.beq_iff k j, e.beq_iff i k, e.beq_iff i j, lookup-insert k j v m)

  pub lookup-delete :
      (k j : K) (m : GoMap K V) → lookup j (delete k m) ≡ (if e.beq k j then none else lookup j m)
  unfolding lookup delete
  lookup-delete k j [] = ground arith
  lookup-delete k j ((i, w) ∷ m) =
      ground (arith, e.beq_iff k j, e.beq_iff i k, e.beq_iff i j, lookup-delete k j m)

  pub lookup-insert_self : (k : K) (v : V) (m : GoMap K V) → lookup k (insert k v m) ≡ some v
  lookup-insert_self k v m = rw (lookup-insert k k v m, beq_refl k)

  pub lookup-delete_self : (k : K) (m : GoMap K V) → lookup k (delete k m) ≡ none
  lookup-delete_self k m = rw (lookup-delete k k m, beq_refl k)

  pub delete_absent : (k : K) (m : GoMap K V) → lookup k m ≡ none → delete k m ≡ m
  unfolding lookup delete
  delete_absent k [] h = refl
  delete_absent k ((i, w) ∷ m) h = ground (arith, delete_absent k m)

  pub delete-Distinct : (k : K) (m : GoMap K V) → Distinct m → Distinct (delete k m)
  unfolding delete
  delete-Distinct k [] d = d
  delete-Distinct k ((i, w) ∷ m) d = elim (Bool-cases (e.beq i k)) [
    | inl same ↦ rw same (delete-Distinct k m d.1)
    | inr other ↦
        rw other (ground (arith, lookup-delete k i m, d.0, e.beq_iff k i), delete-Distinct k m d.1)
  ]

  pub insert-Distinct : (k : K) (v : V) (m : GoMap K V) → Distinct m → Distinct (insert k v m)
  unfolding insert lookup
  insert-Distinct k v [] d = (refl, tt)
  insert-Distinct k v ((i, w) ∷ m) d = elim (Bool-cases (e.beq i k)) [
    | inl same ↦ rw same (ground (arith, d.0, e.beq_iff i k), d.1)
    | inr other ↦ rw other (
      ground (arith, lookup-insert k i v m, d.0, e.beq_iff k i, e.beq_iff i k),
      insert-Distinct k v m d.1,
    )
  ]

  -- a write adds an entry exactly when the key is new
  pub length-insert :
      (k : K) (v : V) (m : GoMap K V)
      → length (insert k v m) ≡ (if has k m then length m else length m + 1)
  unfolding insert has lookup
  length-insert k v [] = refl
  length-insert k v ((i, w) ∷ m) = ground (arith, length-insert k v m)

  -- of a key that occurs once a delete takes one entry
  pub length-delete :
      (k : K) (m : GoMap K V)
      → Distinct m
      → length (delete k m) + (if has k m then 1 else 0) ≡ length m
  unfolding delete has lookup
  length-delete k [] d = refl
  length-delete k ((i, w) ∷ m) d = elim (Bool-cases (e.beq i k)) [
    | inl same ↦ ground (arith, length-delete k m d.1, delete_absent k m, d.0, e.beq_iff i k)
    | inr other ↦ ground (arith, length-delete k m d.1)
  ]

  pub length-delete-le : (k : K) (m : GoMap K V) → length (delete k m) ≤ length m
  unfolding delete
  length-delete-le k [] = omega arith
  length-delete-le k ((i, w) ∷ m) = ground (arith, length-delete-le k m)

  pub length-delete_where-le :
      (p : K → V → Bool) (m : GoMap K V) → length (delete_where p m) ≤ length m
  unfolding delete_where
  length-delete_where-le p [] = omega arith
  length-delete_where-le p ((i, w) ∷ m) = ground (arith, length-delete_where-le p m)

  lookup-delete_where-none :
      (p : K → V → Bool) (k : K) (m : GoMap K V)
      → lookup k m ≡ none
      → lookup k (delete_where p m) ≡ none
  unfolding lookup delete_where
  lookup-delete_where-none p k [] h = refl
  lookup-delete_where-none p k ((i, w) ∷ m) h = ground (arith, lookup-delete_where-none p k m)

  pub delete_where-Distinct :
      (p : K → V → Bool) (m : GoMap K V) → Distinct m → Distinct (delete_where p m)
  unfolding delete_where
  delete_where-Distinct p [] d = d
  delete_where-Distinct p ((i, w) ∷ m) d = elim (Bool-cases (p i w)) [
    | inl dropped ↦ rw dropped (delete_where-Distinct p m d.1)
    | inr kept ↦ rw kept (lookup-delete_where-none p i m d.0, delete_where-Distinct p m d.1)
  ]

  -- what an entry was before the sweep, if it passes the test
  abbrev pub unless_dropped : (K → V → Bool) → K → Option V → Option V
  unless_dropped p k none = none
  unless_dropped p k (some v) = if p k v then none else some v

  pub lookup-delete_where :
      (p : K → V → Bool) (k : K) (m : GoMap K V)
      → Distinct m
      → lookup k (delete_where p m) ≡ unless_dropped p k (lookup k m)
  unfolding lookup delete_where
  lookup-delete_where p k [] d = refl
  lookup-delete_where p k ((i, w) ∷ m) d =
      ground
        (arith, lookup-delete_where p k m d.1, lookup-delete_where-none p k m, d.0, e.beq_iff i k)
