-- ===== src/Prelude/Dict.antt =====
-- A Python dict with numbers for keys, as the list of its items.
use mathlib.Core.Path.{◌≡◌, refl}
use mathlib.Core.Logic.{◌≢◌}
use mathlib.Core.Option.{Option, none, some}
use mathlib.Core.List.{List, [], ◌∷◌}
use native.Mathlib.Omega.{arith}
use Prim.Native.Nat.{ℕ}
use attendence_v.Prelude.Tests.{◌==◌, if◌then◌else◌}

module _ {ℓ} {V : Type ℓ} where
  -- `d.get(k)`
  abbrev pub lookup : ℕ → List (ℕ × V) → Option V
  lookup k [] = none
  lookup k ((j, v) ∷ d) = if k == j then some v else lookup k d

  -- `d.keys()`
  abbrev pub keys : List (ℕ × V) → List ℕ
  keys [] = []
  keys ((j, _) ∷ d) = j ∷ keys d

  -- `d[k] = v`
  abbrev pub insert : ℕ → V → List (ℕ × V) → List (ℕ × V)
  insert k v [] = (k, v) ∷ []
  insert k v ((j, w) ∷ d) = let rest = insert k v d in if k == j then (k, v) ∷ d else (j, w) ∷ rest

  pub lookup-insert_self : (k : ℕ) (v : V) (d : List (ℕ × V)) → lookup k (insert k v d) ≡ some v
  lookup-insert_self k v [] = ground arith
  lookup-insert_self k v ((j, w) ∷ d) = ground (arith, lookup-insert_self k v d)

  pub lookup-insert_ne :
      (j k : ℕ) (v : V) (d : List (ℕ × V)) → j ≢ k → lookup j (insert k v d) ≡ lookup j d
  lookup-insert_ne j k v [] h = ground arith
  lookup-insert_ne j k v ((i, w) ∷ d) h = ground (arith, lookup-insert_ne j k v d h)

  pub lookup-insert :
      (j k : ℕ) (v : V) (d : List (ℕ × V))
      → lookup j (insert k v d) ≡ (if j == k then some v else lookup j d)
  lookup-insert j k v [] = refl
  lookup-insert j k v ((i, w) ∷ d) = ground (arith, lookup-insert j k v d)
