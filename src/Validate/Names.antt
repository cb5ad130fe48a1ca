-- ===== src/Validate/Names.antt =====
-- What `validate_name` accepts, and which error it gives.
use arbitro.Common.{
  All, Bool, Bool-cases, Result, [], ap, arith, err, false, inl, inr, length, ltb, ok, refl, true,
  ℕ, ◌++◌, ◌<◌, ◌∷◌, ◌≡◌, ◌≢◌, ◌≤◌,
}
use arbitro.Subject.{Bytes}
use arbitro.Validate.{
  ValidateError, check_bytes, empty_name, invalid_char, is_name_byte, max_name_len, too_long,
  validate_name,
}

-- The outcome of the loop over the bytes: the error names the first byte that is not allowed.
abbrev pub Checked : (ℕ → Bool) → Bytes → Result ValidateError (Unit {0}) → Type 0
Checked allowed s (ok u) = All (λ b. allowed b ≡ true) s
Checked allowed s (err (invalid_char b)) =
    (before : Bytes) × (after : Bytes) × (s ≡ before ++ b ∷ after)
    × All (λ c. allowed c ≡ true) before
    × (allowed b ≡ false)
Checked allowed s (err e) = ⊥

check_bytes-Checked : (allowed : ℕ → Bool) (s : Bytes) → Checked allowed s (check_bytes allowed s)
unfolding check_bytes
check_bytes-Checked allowed [] = tt
check_bytes-Checked allowed (b ∷ s) = elim (Bool-cases (allowed b)) [
  | inl e ↦ rw (e) (go e (check_bytes allowed s) (check_bytes-Checked allowed s))
  | inr e ↦ rw (e) ([], s, refl, tt, e)
]
  where
    go :
        allowed b ≡ true
        → (r : Result ValidateError (Unit {0})) → Checked allowed s r
        → Checked allowed (b ∷ s) r
    go e (ok u) h = (e, h)
    go e (err empty_name) h = elim h [ ]
    go e (err too_long) h = elim h [ ]
    go e (err (invalid_char c)) (before, after, p, q, f) =
        (b ∷ before, after, ap (λ t. b ∷ t) p, (e, q), f)

-- The outcome of `validate_name`.
abbrev pub Named : Bytes → Result ValidateError (Unit {0}) → Type 0
Named s (err empty_name) = s ≡ []
Named s (err too_long) = max_name_len < length s
Named s r = (s ≢ []) × (length s ≤ max_name_len) × Checked is_name_byte s r

-- A name is accepted if it is not empty, has at most 255 bytes, and all are letters, digits, `_` or
-- `-`. Otherwise the error says what is wrong first: empty, too long, or which byte is the first
-- that is not allowed.
pub validate_name-Named : (s : Bytes) → Named s (validate_name s)
unfolding validate_name
validate_name-Named [] = refl
validate_name-Named (c ∷ s) = elim (Bool-cases (ltb max_name_len (length (c ∷ s)))) [
  | inl e ↦ rw (e) (ground arith)
  | inr e ↦ rw (e) (
      go (ground (arith, e)) (check_bytes is_name_byte (c ∷ s))
        (check_bytes-Checked is_name_byte (c ∷ s)))
]
  where
    go :
        length (c ∷ s) ≤ max_name_len
        → (r : Result ValidateError (Unit {0})) → Checked is_name_byte (c ∷ s) r
        → Named (c ∷ s) r
    go short (ok u) h = ((λ q. cc), omega (arith, short), h)
    go short (err empty_name) h = elim h [ ]
    go short (err too_long) h = elim h [ ]
    go short (err (invalid_char b)) h = ((λ q. cc), omega (arith, short), h)
