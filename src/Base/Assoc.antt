-- ===== src/Base/Assoc.antt =====
-- A keyed table: a Python dict or a database table with a primary key, in insertion order.
use Prim.Native.Nat.{ℕ}
use mathlib.Core.Path.{◌≡◌, refl}
use mathlib.Core.Bool.{Bool, false, ◌||◌}
use mathlib.Core.Option.{Option, none, some}
use mathlib.Core.List.{List, [], ◌∷◌}
use native.Mathlib.Omega.{arith}
use mathlib.Core.Logic.{◌⊎◌, inl, inr}
use revguard.Base.Tests.{◌==◌, ==_iff, ==_refl, Bool-cases, if◌then◌else◌}

abbrev pub Dict {ℓ} : Type ℓ → Type ℓ
Dict V = List (ℕ × V)

module _ {ℓ} {V : Type ℓ} where
  -- `d.get(k)`
  abbrev pub lookup : ℕ → Dict V → Option V
  lookup key [] = none
  lookup key ((at, value) ∷ rest) = if key == at then some value else lookup key rest

  -- `d[k] = v`, or a row inserted or replaced at its primary key.
  abbrev pub insert : ℕ → V → Dict V → Dict V
  insert k v [] = (k, v) ∷ []
  insert k v ((j, w) ∷ d) = if k == j then (k, v) ∷ d else (j, w) ∷ insert k v d

  pub lookup-insert :
      (j k : ℕ) (v : V) (d : Dict V)
      → lookup j (insert k v d) ≡ (if j == k then some v else lookup j d)
  lookup-insert j k v [] = ground arith
  lookup-insert j k v ((i, w) ∷ d) = ground (arith, lookup-insert j k v d)

  -- A row that is found after an insertion is the new one, or was there.
  pub insert_cases :
      (j k : ℕ) (v w : V) (d : Dict V)
      → lookup j (insert k v d) ≡ some w
      → ((j ≡ k) × (v ≡ w)) ⊎ (((j == k) ≡ false) × (lookup j d ≡ some w))
  insert_cases j k v w d h = elim (Bool-cases (j == k)) [
    | inl same ↦ let found = rw (lookup-insert j k v d, same) at h in inl ((==_iff j k).0 same, cc)
    | inr other ↦ inr (other, rw (lookup-insert j k v d, other) at h)
  ]

  pub inserted : (k : ℕ) (v : V) (d : Dict V) → lookup k (insert k v d) ≡ some v
  inserted k v d = rw (lookup-insert k k v d, ==_refl k) refl

  pub passed_over :
      (j k : ℕ) (v : V) (d : Dict V) → (j == k) ≡ false → lookup j (insert k v d) ≡ lookup j d
  passed_over j k v d other = rw (lookup-insert j k v d, other) refl

  -- `UPDATE ... WHERE key = k`
  abbrev pub adjust : ℕ → (V → V) → Dict V → Dict V
  adjust k f [] = []
  adjust k f ((j, v) ∷ d) = (j, if k == j then f v else v) ∷ adjust k f d

  pub lookup-adjust :
      (j k : ℕ) (f : V → V) (d : Dict V)
      → lookup j (adjust k f d)
        ≡ (if j == k then elim (lookup j d) [ none ↦ none | some v ↦ some (f v) ] else lookup j d)
  lookup-adjust j k f [] = ground arith
  lookup-adjust j k f ((i, w) ∷ d) = ground (arith, lookup-adjust j k f d)

  -- An update of every row.
  abbrev pub map_rows : (V → V) → Dict V → Dict V
  map_rows f [] = []
  map_rows f ((j, v) ∷ d) = (j, f v) ∷ map_rows f d

  pub lookup-map_rows :
      (j : ℕ) (f : V → V) (d : Dict V)
      → lookup j (map_rows f d) ≡ elim (lookup j d) [ none ↦ none | some v ↦ some (f v) ]
  lookup-map_rows j f [] = refl
  lookup-map_rows j f ((i, w) ∷ d) = ground (arith, lookup-map_rows j f d)

  -- `SELECT ... WHERE test` finds a row.
  abbrev pub any_row : (V → Bool) → Dict V → Bool
  any_row test [] = false
  any_row test ((j, v) ∷ d) = test v || any_row test d

  pub any_row-lookup :
      (test : V → Bool) (k : ℕ) (v : V) (d : Dict V)
      → any_row test d ≡ false
      → lookup k d ≡ some v
      → test v ≡ false
  any_row-lookup test k v [] h e = cc
  any_row-lookup test k v ((j, w) ∷ d) h e = ground (arith, any_row-lookup test k v d)
