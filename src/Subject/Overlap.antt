-- ===== src/Subject/Overlap.antt =====
-- `subjects_overlap` against what both patterns match.
use arbitro.Common.{
  All, Bool, List, [], ap, arith, false, if◌then◌else◌, length, none, refl, some, sym, true, ◌+◌,
  ◌||◌, ◌↔◌, ◌∙◌, ◌∷◌, ◌≡◌, ◌≢◌, ◌⊎◌,
}
use arbitro.Subject.{
  Bytes, bytes_eq, gt, is_empty, overlap_arm, star, subject_matches, subjects_overlap,
}
use arbitro.Subject.Tokens.{IsClause, NoGap, tokens, walk_lem}
use arbitro.Subject.Match.{
  bytes_eq-eq, bytes_eq_refl, is_empty-false, matches_tokens, subject_matches-tokens,
}
use arbitro.Subject.Join.{
  IsToken, IsToken-NoGap, instance-IsToken, instance_matches, instance_of, instances,
  instances-IsToken, join, matches-instances, tokens-IsToken, tokens-join,
}

unfoldable pub overlap_tokens : List Bytes → List Bytes → Bool
overlap_tokens [] [] = true
overlap_tokens [] (q ∷ qs) = false
overlap_tokens (p ∷ ps) [] = false
overlap_tokens (p ∷ ps) (q ∷ qs) =
    let rest = overlap_tokens ps qs in
    if bytes_eq p gt || bytes_eq q gt
    then true
    else if bytes_eq p star || bytes_eq q star || bytes_eq p q
    then rest
    else false

overlap_left : (s sr : Bytes) → s ≢ [] → overlap_arm [] [] s sr ≡ some false
unfolding overlap_arm bytes_eq
overlap_left [] sr h = absurd (h refl)
overlap_left (c ∷ s) sr h = ground arith

overlap_right : (p pr : Bytes) → p ≢ [] → overlap_arm p pr [] [] ≡ some false
unfolding overlap_arm bytes_eq
overlap_right [] pr h = absurd (h refl)
overlap_right (c ∷ p) pr h = ground arith

overlap_round :
    (p pr s sr : Bytes) (ps ss : List Bytes)
    → is_empty p ≡ false
    → is_empty s ≡ false
    → (overlap_arm p pr s sr ≡ some (overlap_tokens (p ∷ ps) (s ∷ ss)))
      ⊎ ((overlap_arm p pr s sr ≡ none) × (overlap_tokens (p ∷ ps) (s ∷ ss) ≡ overlap_tokens ps ss))
unfolding overlap_arm overlap_tokens
overlap_round p pr s sr ps ss hp hs = ground arith

overlap-IsClause : IsClause overlap_arm overlap_tokens
unfolding overlap_tokens
overlap-IsClause = record {
  both_end = unfold overlap_arm bytes_eq in refl;
  left_ends = λ s sr ss. overlap_left s sr;
  right_ends = λ p pr ps. overlap_right p pr;
  round = λ p pr s sr ps ss hp hs.
      overlap_round p pr s sr ps ss (is_empty-false p hp) (is_empty-false s hs);
}

pub subjects_overlap-tokens :
    (a b : Bytes) → NoGap a → NoGap b → subjects_overlap a b ≡ overlap_tokens (tokens a) (tokens b)
unfolding subjects_overlap
subjects_overlap-tokens a b ha hb =
    rw (walk_lem overlap_arm overlap_tokens overlap-IsClause (length a + 1) a b (omega arith) ha hb)

-- A common subject shows the overlap.
overlap_complete :
    (ps qs ss : List Bytes)
    → matches_tokens ps ss ≡ true
    → matches_tokens qs ss ≡ true
    → overlap_tokens ps qs ≡ true
unfolding overlap_tokens matches_tokens
overlap_complete [] [] ss m n = refl
overlap_complete [] (q ∷ qs) [] m n = cc
overlap_complete [] (q ∷ qs) (s ∷ ss) m n = cc
overlap_complete (p ∷ ps) [] [] m n = cc
overlap_complete (p ∷ ps) [] (s ∷ ss) m n = cc
overlap_complete (p ∷ ps) (q ∷ qs) [] m n = cc
overlap_complete (p ∷ ps) (q ∷ qs) (s ∷ ss) m n =
    ground (arith, overlap_complete ps qs ss, bytes_eq-eq p s, bytes_eq-eq q s, bytes_eq_refl s)

-- A subject that both match, where they overlap.
common : List Bytes → List Bytes → List Bytes
common [] qs = []
common (p ∷ ps) [] = []
common (p ∷ ps) (q ∷ qs) =
    let rest = common ps qs in
    if bytes_eq p gt
    then instances (q ∷ qs)
    else if bytes_eq q gt
    then instances (p ∷ ps)
    else if bytes_eq p star
    then instance_of q ∷ rest
    else p ∷ rest

common_matches :
    (ps qs : List Bytes)
    → overlap_tokens ps qs ≡ true
    → (matches_tokens ps (common ps qs) ≡ true) × (matches_tokens qs (common ps qs) ≡ true)
unfolding overlap_tokens matches_tokens common instances
common_matches [] [] h = (refl, refl)
common_matches [] (q ∷ qs) h = cc
common_matches (p ∷ ps) [] h = cc
common_matches (p ∷ ps) (q ∷ qs) h = ground (
  arith,
  common_matches ps qs,
  matches-instances ps,
  matches-instances qs,
  instance_matches p,
  instance_matches q,
  bytes_eq_refl p,
  bytes_eq_refl q,
  bytes_eq-eq p q,
)

common-IsToken : (ps qs : List Bytes) → All IsToken ps → All IsToken qs → All IsToken (common ps qs)
unfolding common
common-IsToken [] qs hp hq = tt
common-IsToken (p ∷ ps) [] hp hq = tt
common-IsToken (p ∷ ps) (q ∷ qs) hp hq = ground (
  arith,
  common-IsToken ps qs hp.1 hq.1,
  instances-IsToken (p ∷ ps) hp,
  instances-IsToken (q ∷ qs) hq,
  instance-IsToken q hq.0,
)

-- `subjects_overlap` is exact. For two patterns with no empty token it returns true exactly if
-- there is a subject, with no empty token, that both match.
pub subjects_overlap_iff :
    (a b : Bytes)
    → NoGap a
    → NoGap b
    → (subjects_overlap a b ≡ true)
      ↔ ((s : Bytes) × NoGap s × (subject_matches a s ≡ true) × (subject_matches b s ≡ true))
subjects_overlap_iff a b ha hb = (
  λ o.
      let both =
        common_matches (tokens a) (tokens b) (sym (subjects_overlap-tokens a b ha hb) ∙ o) in
      (join ss, IsToken-NoGap ss ok_ss, by_tokens a ha ∙ both.0, by_tokens b hb ∙ both.1),
  λ (s, hs, m, n).
      subjects_overlap-tokens a b ha hb
      ∙ overlap_complete (tokens a) (tokens b) (tokens s)
          (sym (subject_matches-tokens a s ha hs) ∙ m) (sym (subject_matches-tokens b s hb hs) ∙ n),
)
  where
    ss : List Bytes
    ss = common (tokens a) (tokens b)

    ok_ss : All IsToken ss
    ok_ss = common-IsToken (tokens a) (tokens b) (tokens-IsToken a ha) (tokens-IsToken b hb)

    by_tokens : (p : Bytes) → NoGap p → subject_matches p (join ss) ≡ matches_tokens (tokens p) ss
    by_tokens p hp =
        subject_matches-tokens p (join ss) hp (IsToken-NoGap ss ok_ss)
        ∙ ap (matches_tokens (tokens p)) (tokens-join ss ok_ss)
