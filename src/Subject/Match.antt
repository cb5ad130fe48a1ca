-- ===== src/Subject/Match.antt =====
-- `subject_matches` against an inductive relation between pattern tokens and subject tokens.
use arbitro.Common.{
  Bool, Bool-cases, List, [], arith, false, if◌then◌else◌, inl, inr, length, none, refl, some, true,
  ◌+◌, ◌||◌, ◌↔◌, ◌∷◌, ◌≡◌, ◌≢◌, ◌⊎◌,
}
use arbitro.Subject.{Bytes, bytes_eq, gt, is_empty, match_arm, star, subject_matches}
use arbitro.Subject.Tokens.{IsClause, NoGap, tokens, walk_lem}

pub bytes_eq-eq : (a b : Bytes) → bytes_eq a b ≡ true → a ≡ b
unfolding bytes_eq
bytes_eq-eq [] [] h = refl
bytes_eq-eq [] (y ∷ b) h = cc
bytes_eq-eq (x ∷ a) [] h = cc
bytes_eq-eq (x ∷ a) (y ∷ b) h = ground (arith, bytes_eq-eq a b)

pub bytes_eq_refl : (a : Bytes) → bytes_eq a a ≡ true
unfolding bytes_eq
bytes_eq_refl [] = refl
bytes_eq_refl (x ∷ a) = ground (arith, bytes_eq_refl a)

-- A pattern matches a subject: token by token, `*` any one token, `>` one token or more.
pub data Matches : List Bytes → List Bytes → Type 0 where
  end : Matches [] []
  all_rest : {p s : Bytes} {ps ss : List Bytes} → p ≡ gt → Matches (p ∷ ps) (s ∷ ss)
  any_one :
      {p s : Bytes} {ps ss : List Bytes} → p ≡ star → Matches ps ss → Matches (p ∷ ps) (s ∷ ss)
  same : {p s : Bytes} {ps ss : List Bytes} → p ≡ s → Matches ps ss → Matches (p ∷ ps) (s ∷ ss)

unfoldable pub matches_tokens : List Bytes → List Bytes → Bool
matches_tokens [] [] = true
matches_tokens [] (s ∷ ss) = false
matches_tokens (p ∷ ps) [] = false
matches_tokens (p ∷ ps) (s ∷ ss) =
    let rest = matches_tokens ps ss in
    if bytes_eq p gt then true else if bytes_eq p star || bytes_eq p s then rest else false

pub is_empty-false : (s : Bytes) → s ≢ [] → is_empty s ≡ false
is_empty-false [] h = absurd (h refl)
is_empty-false (c ∷ s) h = refl

match_left : (s sr : Bytes) → s ≢ [] → match_arm [] [] s sr ≡ some false
unfolding match_arm bytes_eq
match_left [] sr h = absurd (h refl)
match_left (c ∷ s) sr h = refl

match_right : (p pr : Bytes) → p ≢ [] → match_arm p pr [] [] ≡ some false
unfolding match_arm bytes_eq
match_right [] pr h = absurd (h refl)
match_right (c ∷ p) pr h = ground arith

match_round :
    (p pr s sr : Bytes) (ps ss : List Bytes)
    → is_empty p ≡ false
    → is_empty s ≡ false
    → (match_arm p pr s sr ≡ some (matches_tokens (p ∷ ps) (s ∷ ss)))
      ⊎ ((match_arm p pr s sr ≡ none) × (matches_tokens (p ∷ ps) (s ∷ ss) ≡ matches_tokens ps ss))
unfolding match_arm matches_tokens
match_round p pr s sr ps ss hp hs = ground arith

match-IsClause : IsClause match_arm matches_tokens
unfolding matches_tokens
match-IsClause = record {
  both_end = unfold match_arm bytes_eq in refl;
  left_ends = λ s sr ss. match_left s sr;
  right_ends = λ p pr ps. match_right p pr;
  round = λ p pr s sr ps ss hp hs.
      match_round p pr s sr ps ss (is_empty-false p hp) (is_empty-false s hs);
}

-- On a pattern and a subject with no empty token the loop ends within its fuel, and answers as
-- the recursion on tokens does.
pub subject_matches-tokens :
    (p s : Bytes) → NoGap p → NoGap s → subject_matches p s ≡ matches_tokens (tokens p) (tokens s)
unfolding subject_matches
subject_matches-tokens p s hp hs =
    rw (walk_lem match_arm matches_tokens match-IsClause (length p + 1) p s (omega arith) hp hs)

Matches-sound : {ps ss : List Bytes} → Matches ps ss → matches_tokens ps ss ≡ true
unfolding matches_tokens
Matches-sound end = refl
Matches-sound (all_rest {p} e) = ground (arith, bytes_eq_refl p)
Matches-sound (any_one {p} e m) = ground (arith, bytes_eq_refl p, Matches-sound m)
Matches-sound (same {p} e m) = ground (arith, bytes_eq_refl p, Matches-sound m)

Matches-complete : (ps ss : List Bytes) → matches_tokens ps ss ≡ true → Matches ps ss
unfolding matches_tokens
Matches-complete [] [] h = end
Matches-complete [] (s ∷ ss) h = cc
Matches-complete (p ∷ ps) [] h = cc
Matches-complete (p ∷ ps) (s ∷ ss) h = elim (Bool-cases (bytes_eq p gt)) [
  | inl e ↦ all_rest (bytes_eq-eq p gt e)
  | inr e ↦ elim (Bool-cases (bytes_eq p star)) [
    | inl f ↦ any_one (bytes_eq-eq p star f) (Matches-complete ps ss (ground arith))
    | inr f ↦ elim (Bool-cases (bytes_eq p s)) [
      | inl g ↦ same (bytes_eq-eq p s g) (Matches-complete ps ss (ground arith))
      | inr g ↦ absurd (ground arith)
    ]
  ]
]

-- On a pattern and a subject with no empty token, `subject_matches` returns true exactly if the
-- pattern's tokens match the subject's: `*` one token, `>` one or more, any other itself.
pub subject_matches_iff :
    (p s : Bytes) → NoGap p → NoGap s → (subject_matches p s ≡ true) ↔ Matches (tokens p) (tokens s)
subject_matches_iff p s hp hs =
    rw (subject_matches-tokens p s hp hs)
      (Matches-complete (tokens p) (tokens s), λ m. Matches-sound m)
