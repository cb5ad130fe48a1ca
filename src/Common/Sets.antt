-- ===== src/Common/Sets.antt =====
-- The standard library's `BTreeSet` of numbers: a strictly ascending list.
use Prim.Native.Nat.{ℕ, suc, ◌+◌, ◌≤◌}
use mathlib.Core.Path.{◌≡◌, refl}
use mathlib.Core.Logic.{◌⊎◌}
use mathlib.Core.Bool.{Bool, true, false, not, ◌&&◌, ◌||◌}
use mathlib.Core.List.{List, [], ◌∷◌}
use native.Mathlib.Omega.{arith}
use arbitro.Common.Tests.{ltb, leb, ◌==◌, if◌then◌else◌}
use arbitro.Common.Lists.{length, All}

unfoldable pub contains : ℕ → List ℕ → Bool
contains a [] = false
contains a (x ∷ xs) = a == x || contains a xs

unfoldable pub insert : ℕ → List ℕ → List ℕ
insert a [] = a ∷ []
insert a (x ∷ xs) =
    let rest = insert a xs in if ltb a x then a ∷ x ∷ xs else if a == x then x ∷ xs else x ∷ rest

unfoldable pub remove : ℕ → List ℕ → List ℕ
remove a [] = []
remove a (x ∷ xs) = let rest = remove a xs in if a == x then rest else x ∷ rest

-- `split_off`: what is at least `k`.
unfoldable pub split_off : ℕ → List ℕ → List ℕ
split_off k [] = []
split_off k (x ∷ xs) = let rest = split_off k xs in if leb k x then x ∷ rest else rest

-- Strictly ascending, from `n` on.
abbrev pub Ascending : ℕ → List ℕ → Type 0
Ascending n [] = Unit {0}
Ascending n (x ∷ xs) = (n ≤ x) × Ascending (suc x) xs

pub contains-insert : (a b : ℕ) (xs : List ℕ) → contains b (insert a xs) ≡ (b == a || contains b xs)
unfolding contains insert
contains-insert a b [] = refl
contains-insert a b (x ∷ xs) = ground (arith, contains-insert a b xs)

pub contains-remove :
    (a b : ℕ) (xs : List ℕ) → contains b (remove a xs) ≡ (not (b == a) && contains b xs)
unfolding contains remove
contains-remove a b [] = ground arith
contains-remove a b (x ∷ xs) = ground (arith, contains-remove a b xs)

pub contains-split_off :
    (k b : ℕ) (xs : List ℕ) → contains b (split_off k xs) ≡ (leb k b && contains b xs)
unfolding contains split_off
contains-split_off k b [] = ground arith
contains-split_off k b (x ∷ xs) = ground (arith, contains-split_off k b xs)

pub Ascending-mono : {m n : ℕ} (xs : List ℕ) → m ≤ n → Ascending n xs → Ascending m xs
Ascending-mono [] h s = tt
Ascending-mono (x ∷ xs) h s = (omega arith, s.1)

-- A member is not below the bound.
pub contains_lower : (n b : ℕ) (xs : List ℕ) → Ascending n xs → contains b xs ≡ true → n ≤ b
unfolding contains
contains_lower n b [] s h = absurd (ground arith)
contains_lower n b (x ∷ xs) s h = ground (arith, contains_lower (suc x) b xs s.1)

pub Ascending-insert : (n a : ℕ) (xs : List ℕ) → n ≤ a → Ascending n xs → Ascending n (insert a xs)
unfolding insert
Ascending-insert n a [] h s = (h, tt)
Ascending-insert n a (x ∷ xs) h s = ground (arith, Ascending-insert (suc x) a xs)

pub Ascending-remove : (n a : ℕ) (xs : List ℕ) → Ascending n xs → Ascending n (remove a xs)
unfolding remove
Ascending-remove n a [] s = tt
Ascending-remove n a (x ∷ xs) s =
    ground
      (arith, Ascending-remove (suc x) a xs s.1, Ascending-mono {m = n} {n = suc x} (remove a xs))

pub Ascending-split_off : (n k : ℕ) (xs : List ℕ) → Ascending n xs → Ascending n (split_off k xs)
unfolding split_off
Ascending-split_off n k [] s = tt
Ascending-split_off n k (x ∷ xs) s = ground (
  arith,
  Ascending-split_off (suc x) k xs s.1,
  Ascending-mono {m = n} {n = suc x} (split_off k xs),
)

-- Splitting off raises the bound.
pub split_off-Ascending : (n k : ℕ) (xs : List ℕ) → Ascending n xs → Ascending k (split_off k xs)
unfolding split_off
split_off-Ascending n k [] s = tt
split_off-Ascending n k (x ∷ xs) s =
    ground (arith, split_off-Ascending (suc x) k xs s.1, Ascending-split_off (suc x) k xs s.1)

pub length-insert-le : (a : ℕ) (xs : List ℕ) → length (insert a xs) ≤ length xs + 1
unfolding insert
length-insert-le a [] = omega arith
length-insert-le a (x ∷ xs) = ground (arith, length-insert-le a xs)

pub length-remove-le : (a : ℕ) (xs : List ℕ) → length (remove a xs) ≤ length xs
unfolding remove
length-remove-le a [] = omega arith
length-remove-le a (x ∷ xs) = ground (arith, length-remove-le a xs)

pub length-split_off-le : (k : ℕ) (xs : List ℕ) → length (split_off k xs) ≤ length xs
unfolding split_off
length-split_off-le k [] = omega arith
length-split_off-le k (x ∷ xs) = ground (arith, length-split_off-le k xs)

-- What holds of every member, and of the inserted number, holds of the new members.
pub All-insert {ℓ} : (P : ℕ → Type ℓ) (a : ℕ) (xs : List ℕ) → P a → All P xs → All P (insert a xs)
unfolding insert
All-insert P a [] p h = (p, h)
All-insert P a (x ∷ xs) p h = ground (arith, All-insert P a xs p h.1)

pub All-split_off {ℓ} : (P : ℕ → Type ℓ) (k : ℕ) (xs : List ℕ) → All P xs → All P (split_off k xs)
unfolding split_off
All-split_off P k [] h = h
All-split_off P k (x ∷ xs) h = ground (arith, All-split_off P k xs h.1)

-- The laws of membership, read as alternatives.
pub insert_or :
    (a b : ℕ) (xs : List ℕ) → contains b (insert a xs) ≡ true → (b ≡ a) ⊎ (contains b xs ≡ true)
insert_or a b xs h = ground (arith, contains-insert a b xs)

pub insert_self : (a : ℕ) (xs : List ℕ) → contains a (insert a xs) ≡ true
insert_self a xs = ground (arith, contains-insert a a xs)

pub insert_old : (a b : ℕ) (xs : List ℕ) → contains b xs ≡ true → contains b (insert a xs) ≡ true
insert_old a b xs h = ground (arith, contains-insert a b xs)

pub split_off_old :
    (k b : ℕ) (xs : List ℕ) → contains b (split_off k xs) ≡ true → contains b xs ≡ true
split_off_old k b xs h = ground (arith, contains-split_off k b xs)

pub split_off_kept :
    (k b : ℕ) (xs : List ℕ) → k ≤ b → contains b xs ≡ true → contains b (split_off k xs) ≡ true
split_off_kept k b xs l h = ground (arith, contains-split_off k b xs)
