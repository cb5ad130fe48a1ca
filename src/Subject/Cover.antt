-- ===== src/Subject/Cover.antt =====
-- `subject_covers` against what both patterns match.
use arbitro.Subject.Join.{
  IsToken, IsToken-NoGap, bytes_eq-other, instance-IsToken, instance_matches, instance_of,
  instances, instances-IsToken, join, matches-instances, other, other-IsToken, tokens-IsToken,
  tokens-join, x-IsToken,
}
use arbitro.Common.{
  All, Bool, Bool-cases, List, [], ap, arith, contains, false, if◌then◌else◌, inl, inr, length,
  none, refl, some, sym, true, ◌+◌, ◌==◌, ◌||◌, ◌↔◌, ◌∙◌, ◌∷◌, ◌≡◌, ◌≢◌, ◌⊎◌,
}
use arbitro.Subject.{
  Bytes, bytes_eq, covers_arm, gt, is_empty, star, subject_covers, subject_matches,
}
use arbitro.Subject.Tokens.{IsClause, NoGap, tokens, walk_lem}
use arbitro.Subject.Match.{
  bytes_eq-eq, bytes_eq_refl, is_empty-false, matches_tokens, subject_matches-tokens,
}

covers_tokens : List Bytes → List Bytes → Bool
covers_tokens [] [] = true
covers_tokens [] (n ∷ ns) = false
covers_tokens (w ∷ ws) [] = false
covers_tokens (w ∷ ws) (n ∷ ns) =
    let rest = covers_tokens ws ns in
    if bytes_eq w gt
    then true
    else if bytes_eq n gt
    then false
    else if bytes_eq w star || bytes_eq w n
    then rest
    else false

covers_left : (s sr : Bytes) → s ≢ [] → covers_arm [] [] s sr ≡ some false
unfolding covers_arm bytes_eq
covers_left [] sr h = absurd (h refl)
covers_left (c ∷ s) sr h = ground arith

covers_right : (p pr : Bytes) → p ≢ [] → covers_arm p pr [] [] ≡ some false
unfolding covers_arm bytes_eq
covers_right [] pr h = absurd (h refl)
covers_right (c ∷ p) pr h = ground arith

covers_round :
    (p pr s sr : Bytes) (ps ss : List Bytes)
    → is_empty p ≡ false
    → is_empty s ≡ false
    → (covers_arm p pr s sr ≡ some (covers_tokens (p ∷ ps) (s ∷ ss)))
      ⊎ ((covers_arm p pr s sr ≡ none) × (covers_tokens (p ∷ ps) (s ∷ ss) ≡ covers_tokens ps ss))
unfolding covers_arm covers_tokens
covers_round p pr s sr ps ss hp hs = ground arith

covers-IsClause : IsClause covers_arm covers_tokens
unfolding covers_tokens
covers-IsClause = record {
  both_end = unfold covers_arm bytes_eq in refl;
  left_ends = λ s sr ss. covers_left s sr;
  right_ends = λ p pr ps. covers_right p pr;
  round = λ p pr s sr ps ss hp hs.
      covers_round p pr s sr ps ss (is_empty-false p hp) (is_empty-false s hs);
}

subject_covers-tokens :
    (w n : Bytes) → NoGap w → NoGap n → subject_covers w n ≡ covers_tokens (tokens w) (tokens n)
unfolding subject_covers
subject_covers-tokens w n hw hn =
    rw (walk_lem covers_arm covers_tokens covers-IsClause (length w + 1) w n (omega arith) hw hn)

-- Whatever the narrow pattern matches, a covering pattern matches.
covers_sound :
    (ws ns ss : List Bytes)
    → covers_tokens ws ns ≡ true
    → matches_tokens ns ss ≡ true
    → matches_tokens ws ss ≡ true
unfolding covers_tokens matches_tokens
covers_sound [] [] ss c m = m
covers_sound [] (n ∷ ns) ss c m = cc
covers_sound (w ∷ ws) [] ss c m = cc
covers_sound (w ∷ ws) (n ∷ ns) [] c m = cc
covers_sound (w ∷ ws) (n ∷ ns) (s ∷ ss) c m = ground (arith, covers_sound ws ns ss, bytes_eq-eq w n)

-- A subject that the second pattern matches and the first does not, where the first does not cover
-- the second.
escape : List Bytes → List Bytes → List Bytes
escape [] ns = instances ns
escape (w ∷ ws) [] = []
escape (w ∷ ws) (n ∷ ns) =
    let rest = escape ws ns in
    if bytes_eq n gt
    then (if bytes_eq w star
        then (if length ws == 0 then (b'x' ∷ []) ∷ (b'x' ∷ []) ∷ [] else (b'x' ∷ []) ∷ [])
        else other w ∷ [])
    else if bytes_eq w star || bytes_eq w n
    then instance_of n ∷ rest
    else if bytes_eq n star
    then other w ∷ instances ns
    else n ∷ instances ns

escape_matched :
    (ws ns : List Bytes) → covers_tokens ws ns ≡ false → matches_tokens ns (escape ws ns) ≡ true
unfolding covers_tokens matches_tokens escape
escape_matched [] ns c = matches-instances ns
escape_matched (w ∷ ws) [] c = refl
escape_matched (w ∷ ws) (n ∷ ns) c =
    ground (arith, escape_matched ws ns, matches-instances ns, instance_matches n, bytes_eq_refl n)

escape_missed :
    (ws ns : List Bytes) → covers_tokens ws ns ≡ false → matches_tokens ws (escape ws ns) ≡ false
unfolding covers_tokens matches_tokens escape instances
escape_missed [] [] c = cc
escape_missed [] (n ∷ ns) c = refl
escape_missed (w ∷ ws) [] c = refl
escape_missed (w ∷ []) (n ∷ ns) c = ground (
  arith,
  escape_missed [] ns,
  instance_matches n,
  bytes_eq_refl n,
  bytes_eq-eq w n,
  bytes_eq-other w,
)
escape_missed (w ∷ v ∷ ws) (n ∷ ns) c = ground (
  arith,
  escape_missed (v ∷ ws) ns,
  instance_matches n,
  bytes_eq_refl n,
  bytes_eq-eq w n,
  bytes_eq-other w,
)

escape-IsToken : (ws ns : List Bytes) → All IsToken ws → All IsToken ns → All IsToken (escape ws ns)
unfolding escape contains
escape-IsToken [] ns hw hn = instances-IsToken ns hn
escape-IsToken (w ∷ ws) [] hw hn = tt
escape-IsToken (w ∷ ws) (n ∷ ns) hw hn = ground (
  arith,
  escape-IsToken ws ns hw.1 hn.1,
  instances-IsToken ns hn.1,
  other-IsToken w hw.0,
  instance-IsToken n hn.0,
  x-IsToken,
)

-- `subject_covers` is exact. For two patterns with no empty token it returns true exactly if the
-- first matches every subject, with no empty token, that the second matches.
pub subject_covers_iff :
    (wide narrow : Bytes)
    → NoGap wide
    → NoGap narrow
    → (subject_covers wide narrow ≡ true)
      ↔ ((s : Bytes) → NoGap s → subject_matches narrow s ≡ true → subject_matches wide s ≡ true)
subject_covers_iff wide narrow hw hn = (
  λ c s hs m.
      subject_matches-tokens wide s hw hs
      ∙ covers_sound (tokens wide) (tokens narrow) (tokens s)
          (sym (subject_covers-tokens wide narrow hw hn) ∙ c)
          (sym (subject_matches-tokens narrow s hn hs) ∙ m),
  λ all. elim (Bool-cases (covers_tokens (tokens wide) (tokens narrow))) [
    | inl c ↦ subject_covers-tokens wide narrow hw hn ∙ c
    | inr c ↦ absurd (refuted all c)
  ],
)
  where
    ss : List Bytes
    ss = escape (tokens wide) (tokens narrow)

    ok_ss : All IsToken ss
    ok_ss =
        escape-IsToken (tokens wide) (tokens narrow) (tokens-IsToken wide hw)
          (tokens-IsToken narrow hn)

    by_tokens : (p : Bytes) → NoGap p → subject_matches p (join ss) ≡ matches_tokens (tokens p) ss
    by_tokens p hp =
        subject_matches-tokens p (join ss) hp (IsToken-NoGap ss ok_ss)
        ∙ ap (matches_tokens (tokens p)) (tokens-join ss ok_ss)

    refuted :
        ((s : Bytes) → NoGap s → subject_matches narrow s ≡ true → subject_matches wide s ≡ true)
        → covers_tokens (tokens wide) (tokens narrow) ≡ false
        → ⊥
    refuted all c = ground (
      arith,
      all (join ss) (IsToken-NoGap ss ok_ss)
          (by_tokens narrow hn ∙ escape_matched (tokens wide) (tokens narrow) c),
      by_tokens wide hw,
      escape_missed (tokens wide) (tokens narrow) c,
    )
