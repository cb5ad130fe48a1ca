-- ===== src/Subject/Tokens.antt =====
-- A subject as the list of its tokens, and the loops as recursions on these lists.
use mathlib.Core.Path.{subst}
use arbitro.Common.{
  All, Bool, Bool-cases, List, Option, [], ap, arith, if◌then◌else◌, inl, inr, length, none, some,
  suc, sym, zero, ℕ, ◌<◌, ◌==◌, ◌∙◌, ◌∷◌, ◌≡◌, ◌≢◌, ◌≤◌, ◌⊎◌,
}
use arbitro.Subject.{Arm, Bytes, dot, next_token, walk}

unfoldable pub cons_head : ℕ → List Bytes → List Bytes
cons_head c [] = (c ∷ []) ∷ []
cons_head c (t ∷ ts) = (c ∷ t) ∷ ts

-- A dot at the end starts no further token.
unfoldable pub tokens : Bytes → List Bytes
unfolding cons_head
tokens [] = []
tokens (c ∷ s) = let rest = tokens s in if c == dot then [] ∷ rest else cons_head c rest

pub tokens-next :
    (c : ℕ) (s : Bytes) → tokens (c ∷ s) ≡ (next_token (c ∷ s)).0 ∷ tokens (next_token (c ∷ s)).1
unfolding tokens next_token
tokens-next c [] = ground arith
tokens-next c (d ∷ s) = elim (Bool-cases (c == dot)) [
  | inl e ↦ rw e
  | inr e ↦ rw e (ap (cons_head c) (tokens-next d s))
]

pub length-next : (c : ℕ) (s : Bytes) → length (next_token (c ∷ s)).1 ≤ length s
unfolding next_token
length-next c [] = ground arith
length-next c (d ∷ s) = ground (arith, length-next d s)

-- No token is empty: no dot at the start, and no two dots in a row.
abbrev pub NoGap : Bytes → Type 0
NoGap s = All (λ t. t ≢ []) (tokens s)

-- What an arm does, as one clause of a recursion on tokens.
pub record IsClause (arm : Arm) (spec : List Bytes → List Bytes → Bool) : Type 0 where
  pub both_end : arm [] [] [] [] ≡ some (spec [] [])
  pub left_ends :
      (s sr : Bytes) (ss : List Bytes) → s ≢ [] → arm [] [] s sr ≡ some (spec [] (s ∷ ss))
  pub right_ends :
      (p pr : Bytes) (ps : List Bytes) → p ≢ [] → arm p pr [] [] ≡ some (spec (p ∷ ps) [])
  pub round :
      (p pr s sr : Bytes) (ps ss : List Bytes)
      → p ≢ []
      → s ≢ []
      → (arm p pr s sr ≡ some (spec (p ∷ ps) (s ∷ ss)))
        ⊎ ((arm p pr s sr ≡ none) × (spec (p ∷ ps) (s ∷ ss) ≡ spec ps ss))

abbrev arm_at : Arm → Bytes → Bytes → Option Bool
arm_at arm a b = arm (next_token a).0 (next_token a).1 (next_token b).0 (next_token b).1

walk-some :
    (arm : Arm) (f : ℕ) (a b : Bytes) (v : Bool)
    → arm_at arm a b ≡ some v
    → walk arm (suc f) a b ≡ some v
unfolding walk
walk-some arm f a b v e = rw (e, walk)

walk-none :
    (arm : Arm) (f : ℕ) (a b : Bytes)
    → arm_at arm a b ≡ none
    → walk arm (suc f) a b ≡ walk arm f (next_token a).1 (next_token b).1
unfolding walk
walk-none arm f a b e = rw (e, walk)

-- The loop ends within its fuel, and returns what the recursion on tokens says.
pub walk_lem :
    (arm : Arm) (spec : List Bytes → List Bytes → Bool)
    → IsClause arm spec
    → (fuel : ℕ) (a b : Bytes) → length a < fuel
    → NoGap a
    → NoGap b
    → walk arm fuel a b ≡ some (spec (tokens a) (tokens b))
walk_lem arm spec c zero a b h na nb = elim h [ ]
walk_lem arm spec c (suc f) [] [] h na nb =
    walk-some arm f [] [] _ (unfold next_token tokens in c.both_end)
walk_lem arm spec c (suc f) [] (y ∷ b) h na nb =
    let nb' = subst (All (λ t. t ≢ [])) (tokens-next y b) nb in
    walk-some arm f [] (y ∷ b) _
      (rw (tokens-next y b) (unfold next_token tokens in c.left_ends _ _ _ nb'.0))
walk_lem arm spec c (suc f) (x ∷ a) [] h na nb =
    let na' = subst (All (λ t. t ≢ [])) (tokens-next x a) na in
    walk-some arm f (x ∷ a) [] _
      (rw (tokens-next x a) (unfold next_token tokens in c.right_ends _ _ _ na'.0))
walk_lem arm spec c (suc f) (x ∷ a) (y ∷ b) h na nb =
    let na' = subst (All (λ t. t ≢ [])) (tokens-next x a) na in
    let nb' = subst (All (λ t. t ≢ [])) (tokens-next y b) nb in
    let (at, ar) = next_token (x ∷ a) in
    let (bt, br) = next_token (y ∷ b) in
    elim (c.round at ar bt br (tokens ar) (tokens br) na'.0 nb'.0) [
      | inl e ↦ walk-some arm f (x ∷ a) (y ∷ b) _ (rw (tokens-next x a, tokens-next y b) e)
      | inr (e, same) ↦
          walk-none arm f (x ∷ a) (y ∷ b) e
          ∙ walk_lem arm spec c f ar br (omega (arith, length-next x a)) na'.1 nb'.1
          ∙ ap some (rw (tokens-next x a, tokens-next y b) (sym same))
    ]
