-- ===== src/Validate/Tests.antt =====
-- Names and patterns at concrete bytes.
use arbitro.Common.{[], err, ok, refl, true, ◌↔◌, ◌∷◌, ◌≡◌}
use arbitro.Subject.{Bytes, bytes_eq, subject_matches, subjects_overlap}
use arbitro.Subject.Tokens.{NoGap}
use arbitro.Validate.{
  check_bytes, check_last, check_tokens, has_byte, invalid_char, is_between, is_name_byte,
  is_subject_byte, patterns_overlap, push_head, split, then_tokens, validate_subject,
}
use arbitro.Validate.Patterns.{patterns_overlap_iff}

-- `a.*`
abbrev one_star : Bytes
one_star = b'a' ∷ b'.' ∷ b'*' ∷ []

-- `a.>`
abbrev all_below : Bytes
all_below = b'a' ∷ b'.' ∷ b'>' ∷ []

one_star-ok : validate_subject one_star ≡ ok tt
unfolding validate_subject check_bytes is_subject_byte is_name_byte is_between then_tokens split
    push_head check_tokens has_byte check_last bytes_eq
one_star-ok = refl

all_below-ok : validate_subject all_below ≡ ok tt
unfolding validate_subject check_bytes is_subject_byte is_name_byte is_between then_tokens split
    push_head check_tokens has_byte check_last bytes_eq
all_below-ok = refl

-- The rules of the comment exclude the last of these, which has a `>` before the last token.
verdicts :
    (validate_subject (b'a' ∷ b'.' ∷ []) ≡ err (invalid_char b'.'))
    × (validate_subject (b'a' ∷ b'*' ∷ []) ≡ err (invalid_char b'*'))
    × (validate_subject (b'>' ∷ b'.' ∷ b'a' ∷ []) ≡ err (invalid_char b'>'))
    × (validate_subject (b'>' ∷ b'.' ∷ b'>' ∷ []) ≡ ok tt)
unfolding validate_subject check_bytes is_subject_byte is_name_byte is_between then_tokens split
    push_head check_tokens has_byte check_last bytes_eq
verdicts = (refl, refl, refl, refl)

patterns_overlap_iff_example :
    (patterns_overlap one_star all_below ≡ subjects_overlap one_star all_below)
    × ((patterns_overlap one_star all_below ≡ true) ↔ (
        (s : Bytes) × NoGap s
        × (subject_matches one_star s ≡ true)
        × (subject_matches all_below s ≡ true)))
patterns_overlap_iff_example = patterns_overlap_iff one_star all_below one_star-ok all_below-ok
