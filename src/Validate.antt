-- ===== src/Validate.antt =====
-- crates/arbitro-proto/src/validate.rs: which names and subjects are accepted, and its own overlap
-- test, which nothing but its tests calls: the stream rules use that of the engine.
pub mod Names
pub mod Patterns
mod Tests
use arbitro.Common.{
  Bool, List, Result, [], err, false, if◌then◌else◌, leb, length, ltb, not, ok, true, ℕ, ◌&&◌, ◌==◌,
  ◌||◌, ◌∷◌,
}
use arbitro.Subject.{Bytes, bytes_eq, dot, gt, is_empty, star}

abbrev pub max_name_len : ℕ
max_name_len = 255

abbrev pub max_subject_len : ℕ
max_subject_len = 255

pub data ValidateError : Type 0 where
  empty_name too_long : ValidateError
  invalid_char : ℕ → ValidateError

pub is_between : ℕ → ℕ → ℕ → Bool
is_between lo hi b = leb lo b && leb b hi

pub is_name_byte : ℕ → Bool
unfolding is_between
is_name_byte b =
    is_between b'a' b'z' b
    || is_between b'A' b'Z' b
    || is_between b'0' b'9' b
    || b == b'_'
    || b == b'-'

pub is_subject_byte : ℕ → Bool
unfolding is_name_byte
is_subject_byte b = is_name_byte b || b == b'.' || b == b'*' || b == b'>'

-- The loop over the bytes: the first one that is not allowed.
pub check_bytes : (ℕ → Bool) → Bytes → Result ValidateError (Unit {0})
check_bytes allowed [] = ok tt
check_bytes allowed (b ∷ bs) =
    let rest = check_bytes allowed bs in if allowed b then rest else err (invalid_char b)

pub validate_name : Bytes → Result ValidateError (Unit {0})
unfolding check_bytes is_name_byte
validate_name name =
    if is_empty name
    then err empty_name
    else if ltb max_name_len (length name)
    then err too_long
    else check_bytes is_name_byte name

-- `slice::split` at the dots: one token more than there are dots.
pub push_head : ℕ → List Bytes → List Bytes
push_head c [] = (c ∷ []) ∷ []
push_head c (t ∷ ts) = (c ∷ t) ∷ ts

pub split : Bytes → List Bytes
unfolding push_head
split [] = [] ∷ []
split (c ∷ s) = let rest = split s in if c == dot then [] ∷ rest else push_head c rest

-- `slice::contains`
pub has_byte : ℕ → Bytes → Bool
has_byte c [] = false
has_byte c (b ∷ bs) = b == c || has_byte c bs

-- The loop over the tokens, with the last token; on success it returns the last token.
pub check_tokens : Bytes → List Bytes → Result ValidateError Bytes
unfolding has_byte
check_tokens last_token [] = ok last_token
check_tokens last_token (t ∷ ts) =
    let rest = check_tokens t ts in
    if is_empty t
    then err (invalid_char b'.')
    else if has_byte b'*' t && ltb 1 (length t)
    then err (invalid_char b'*')
    else if has_byte b'>' t && ltb 1 (length t)
    then err (invalid_char b'>')
    else rest

check_last : Bytes → Result ValidateError Bytes → Result ValidateError (Unit {0})
unfolding has_byte
check_last subject (err e) = err e
check_last subject (ok last_token) =
    if has_byte b'>' subject && not (bytes_eq last_token gt) then err (invalid_char b'>') else ok tt

-- What follows the loop over the bytes.
then_tokens : Bytes → Result ValidateError (Unit {0}) → Result ValidateError (Unit {0})
unfolding check_tokens split check_last
then_tokens subject (err e) = err e
then_tokens subject (ok u) = check_last subject (check_tokens [] (split subject))

pub validate_subject : Bytes → Result ValidateError (Unit {0})
unfolding check_bytes is_subject_byte then_tokens
validate_subject subject =
    if is_empty subject
    then err empty_name
    else if ltb max_subject_len (length subject)
    then err too_long
    else then_tokens subject (check_bytes is_subject_byte subject)

-- The loop of `subjects_overlap` over the tokens of both patterns.
pub overlap_loop : List Bytes → List Bytes → Bool
overlap_loop [] [] = true
overlap_loop [] (b ∷ bs) = false
overlap_loop (a ∷ as') [] = false
overlap_loop (a ∷ as') (b ∷ bs) =
    let rest = overlap_loop as' bs in
    if bytes_eq a gt || bytes_eq b gt
    then true
    else if bytes_eq a star || bytes_eq b star || bytes_eq a b
    then rest
    else false

pub patterns_overlap : Bytes → Bytes → Bool
unfolding split overlap_loop
patterns_overlap a b = overlap_loop (split a) (split b)
