-- ===== src/Subject/Tests.antt =====
-- Subjects and patterns at concrete bytes.
use arbitro.Common.{[], false, refl, true, ◌↔◌, ◌∷◌, ◌≡◌}
use arbitro.Subject.{
  Bytes, answer, bytes_eq, covers_arm, match_arm, next_token, overlap_arm, subject_covers,
  subject_matches, subjects_overlap, walk,
}
use arbitro.Subject.Tokens.{NoGap, tokens}
use arbitro.Subject.Match.{Matches, subject_matches_iff}
use arbitro.Subject.Cover.{subject_covers_iff}
use arbitro.Subject.Overlap.{subjects_overlap_iff}

-- `a.*.c`
abbrev star_pattern : Bytes
star_pattern = b'a' ∷ b'.' ∷ b'*' ∷ b'.' ∷ b'c' ∷ []

-- `a.>`
abbrev tail_pattern : Bytes
tail_pattern = b'a' ∷ b'.' ∷ b'>' ∷ []

-- `a.bb.c`
abbrev three_tokens : Bytes
three_tokens = b'a' ∷ b'.' ∷ b'b' ∷ b'b' ∷ b'.' ∷ b'c' ∷ []

star_pattern-NoGap : NoGap star_pattern
unfolding tokens
star_pattern-NoGap = ((λ e. cc), ((λ e. cc), ((λ e. cc), tt)))

tail_pattern-NoGap : NoGap tail_pattern
unfolding tokens
tail_pattern-NoGap = ((λ e. cc), ((λ e. cc), tt))

three_tokens-NoGap : NoGap three_tokens
unfolding tokens
three_tokens-NoGap = ((λ e. cc), ((λ e. cc), ((λ e. cc), tt)))

answers :
    (subject_matches star_pattern three_tokens ≡ true)
    × (subject_matches tail_pattern (b'a' ∷ []) ≡ false)
    × (subject_covers tail_pattern star_pattern ≡ true)
    × (subject_covers star_pattern tail_pattern ≡ false)
    × (subjects_overlap star_pattern tail_pattern ≡ true)
unfolding subject_matches subject_covers subjects_overlap walk match_arm covers_arm overlap_arm
    next_token answer bytes_eq
answers = (refl, refl, refl, refl, refl)

subject_matches_iff_example :
    (subject_matches star_pattern three_tokens ≡ true)
    ↔ Matches (tokens star_pattern) (tokens three_tokens)
subject_matches_iff_example =
    subject_matches_iff star_pattern three_tokens star_pattern-NoGap three_tokens-NoGap

subject_covers_iff_example : (subject_covers tail_pattern star_pattern ≡ true) ↔ (
    (s : Bytes)
    → NoGap s
    → subject_matches star_pattern s ≡ true
    → subject_matches tail_pattern s ≡ true)
subject_covers_iff_example =
    subject_covers_iff tail_pattern star_pattern tail_pattern-NoGap star_pattern-NoGap

subjects_overlap_iff_example : (subjects_overlap star_pattern tail_pattern ≡ true) ↔ (
    (s : Bytes) × NoGap s
    × (subject_matches star_pattern s ≡ true)
    × (subject_matches tail_pattern s ≡ true))
subjects_overlap_iff_example =
    subjects_overlap_iff star_pattern tail_pattern star_pattern-NoGap tail_pattern-NoGap
