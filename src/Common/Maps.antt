-- ===== src/Common/Maps.antt =====
-- The standard library's `HashMap` with number keys, as an association list of distinct keys in the
-- order of their insertion. A definition that depends on the order says so.
use Prim.Native.Nat.{ℕ, ◌+◌, ◌≤◌}
use mathlib.Core.Path.{◌≡◌, refl}
use mathlib.Core.Option.{Option, none, some}
use mathlib.Core.List.{List, [], ◌∷◌}
use native.Mathlib.Decide.{ℕ_discrete}
use native.Mathlib.Omega.{arith}
use arbitro.Common.Tests.{if◌then◌else◌, ◌==◌}
use arbitro.Common.Lists.{All, length}

module _ {ℓ} {V : Type ℓ} where
  unfoldable pub lookup : ℕ → List (ℕ × V) → Option V
  lookup k [] = none
  lookup k ((j, v) ∷ m) = if j == k then some v else lookup k m

  -- Replaces the value of a key that is there.
  unfoldable pub put : ℕ → V → List (ℕ × V) → List (ℕ × V)
  put k v [] = (k, v) ∷ []
  put k v ((j, w) ∷ m) = let rest = put k v m in if j == k then (k, v) ∷ m else (j, w) ∷ rest

  unfoldable pub erase : ℕ → List (ℕ × V) → List (ℕ × V)
  erase k [] = []
  erase k ((j, w) ∷ m) = let rest = erase k m in if j == k then rest else (j, w) ∷ rest

  abbrev pub Distinct : List (ℕ × V) → Type ℓ
  Distinct [] = Unit
  Distinct ((k, v) ∷ m) = (lookup k m ≡ none) × Distinct m

  pub lookup-put :
      (k j : ℕ) (v : V) (m : List (ℕ × V))
      → lookup j (put k v m) ≡ (if k == j then some v else lookup j m)
  unfolding lookup put
  lookup-put k j v [] = refl
  lookup-put k j v ((i, w) ∷ m) = ground (arith, lookup-put k j v m)

  pub lookup-erase :
      (k j : ℕ) (m : List (ℕ × V)) → lookup j (erase k m) ≡ (if k == j then none else lookup j m)
  unfolding lookup erase
  lookup-erase k j [] = ground arith
  lookup-erase k j ((i, w) ∷ m) = ground (arith, lookup-erase k j m)

  pub Distinct-put : (k : ℕ) (v : V) (m : List (ℕ × V)) → Distinct m → Distinct (put k v m)
  unfolding put lookup
  Distinct-put k v [] d = (refl, tt)
  Distinct-put k v ((i, w) ∷ m) d = ground (arith, Distinct-put k v m d.1, lookup-put k i v m)

  pub Distinct-erase : (k : ℕ) (m : List (ℕ × V)) → Distinct m → Distinct (erase k m)
  unfolding erase
  Distinct-erase k [] d = tt
  Distinct-erase k ((i, w) ∷ m) d = ground (arith, Distinct-erase k m d.1, lookup-erase k i m)

  pub length-put-le : (k : ℕ) (v : V) (m : List (ℕ × V)) → length (put k v m) ≤ length m + 1
  unfolding put
  length-put-le k v [] = omega arith
  length-put-le k v ((i, w) ∷ m) = ground (arith, length-put-le k v m)

  pub length-erase-le : (k : ℕ) (m : List (ℕ × V)) → length (erase k m) ≤ length m
  unfolding erase
  length-erase-le k [] = omega arith
  length-erase-le k ((i, w) ∷ m) = ground (arith, length-erase-le k m)

-- The count of a key in a map of counts; 0 if it is not there.
unfoldable pub count_of : Option ℕ → ℕ
count_of none = 0
count_of (some c) = c

unfoldable pub sum_values : List (ℕ × ℕ) → ℕ
sum_values [] = 0
sum_values ((k, v) ∷ m) = v + sum_values m

erase_missing :
    (k : ℕ) (m : List (ℕ × ℕ)) → lookup k m ≡ none → sum_values (erase k m) ≡ sum_values m
unfolding lookup erase sum_values
erase_missing k [] h = refl
erase_missing k ((i, w) ∷ m) h = ground (arith, erase_missing k m)

pub sum_values-put :
    (k v : ℕ) (m : List (ℕ × ℕ)) → sum_values (put k v m) + count_of (lookup k m) ≡ sum_values m + v
unfolding lookup put sum_values count_of
sum_values-put k v [] = omega arith
sum_values-put k v ((i, w) ∷ m) = ground (arith, sum_values-put k v m)

pub sum_values-erase :
    (k : ℕ) (m : List (ℕ × ℕ))
    → Distinct m
    → sum_values (erase k m) + count_of (lookup k m) ≡ sum_values m
unfolding lookup erase sum_values count_of
sum_values-erase k [] d = omega arith
sum_values-erase k ((i, w) ∷ m) d = ground (arith, sum_values-erase k m d.1, erase_missing k m)

module _ {ℓ} {V : Type ℓ} where
  -- What a table of codes finds for a code has that code.
  pub lookup-coded :
      (code : V → ℕ) (m : List (ℕ × V)) (k : ℕ) (v : V)
      → All (λ e. code e.1 ≡ e.0) m
      → lookup k m ≡ some v
      → code v ≡ k
  unfolding lookup
  lookup-coded code [] k v h e = cc
  lookup-coded code ((j, w) ∷ m) k v h e = elim (ℕ_discrete j k) [
    | yes p ↦ ground (arith, h.0)
    | no p ↦ lookup-coded code m k v h.1 (ground arith)
  ]
