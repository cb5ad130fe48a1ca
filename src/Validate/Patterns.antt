-- ===== src/Validate/Patterns.antt =====
-- Validated patterns and their tokens, and the two overlap tests.
use arbitro.Common.{
  All, Bool-cases, List, Result, [], ap, arith, err, false, if◌then◌else◌, inl, inr, ok, refl, sym,
  true, ℕ, ◌==◌, ◌↔◌, ◌∙◌, ◌∷◌, ◌≡◌, ◌≢◌,
}
use arbitro.Subject.{Bytes, dot, is_empty, subject_matches, subjects_overlap}
use arbitro.Subject.Tokens.{NoGap, cons_head, tokens}
use arbitro.Subject.Overlap.{overlap_tokens, subjects_overlap-tokens, subjects_overlap_iff}
use arbitro.Validate.{
  ValidateError, check_bytes, check_last, check_tokens, is_subject_byte, overlap_loop,
  patterns_overlap, push_head, split, then_tokens, validate_subject,
}

drop_end : List Bytes → List Bytes
drop_end [] = []
drop_end (t ∷ []) = if is_empty t then [] else t ∷ []
drop_end (t ∷ u ∷ ts) = t ∷ drop_end (u ∷ ts)

drop_end-push_head :
    (c : ℕ) (t : Bytes) (ts : List Bytes)
    → drop_end (push_head c (t ∷ ts)) ≡ cons_head c (drop_end (t ∷ ts))
unfolding drop_end push_head cons_head
drop_end-push_head c [] [] = refl
drop_end-push_head c (d ∷ t) [] = refl
drop_end-push_head c t (u ∷ ts) = refl

split-cons : (s : Bytes) → (t : Bytes) × (ts : List Bytes) × (split s ≡ t ∷ ts)
unfolding split push_head
split-cons [] = ([], [], refl)
split-cons (c ∷ s) =
    let (t, ts, e) = split-cons s in
    elim (Bool-cases (c == dot)) [
      | inl p ↦ ([], split s, rw (p) refl)
      | inr p ↦ (c ∷ t, ts, rw (p, e) refl)
    ]

-- The tokens are those of `split`, less an empty one at the end.
tokens-split : (s : Bytes) → tokens s ≡ drop_end (split s)
unfolding tokens split
tokens-split [] = unfold drop_end in refl
tokens-split (c ∷ s) =
    let (t, ts, e) = split-cons s in
    elim (Bool-cases (c == dot)) [
      | inl p ↦ rw (p, tokens-split s, e) (unfold drop_end in refl)
      | inr p ↦ rw (p, tokens-split s, e) (sym (drop_end-push_head c t ts))
    ]

drop_end_full : (ts : List Bytes) → All (λ t. is_empty t ≡ false) ts → drop_end ts ≡ ts
unfolding drop_end
drop_end_full [] h = refl
drop_end_full (t ∷ []) h = rw (h.0) refl
drop_end_full (t ∷ u ∷ ts) h = ap (λ r. t ∷ r) (drop_end_full (u ∷ ts) h.1)

check_tokens-full :
    (last r : Bytes) (ts : List Bytes)
    → check_tokens last ts ≡ ok r
    → All (λ t. is_empty t ≡ false) ts
unfolding check_tokens
check_tokens-full last r [] e = tt
check_tokens-full last r (t ∷ ts) e = ground (arith, check_tokens-full t r ts)

overlap_loop_lem : (as' bs : List Bytes) → overlap_loop as' bs ≡ overlap_tokens as' bs
unfolding overlap_loop overlap_tokens
overlap_loop_lem [] [] = refl
overlap_loop_lem [] (b ∷ bs) = refl
overlap_loop_lem (a ∷ as') [] = refl
overlap_loop_lem (a ∷ as') (b ∷ bs) = rw (overlap_loop_lem as' bs) refl

reached :
    (s : Bytes) → validate_subject s ≡ ok tt → then_tokens s (check_bytes is_subject_byte s) ≡ ok tt
unfolding validate_subject
reached s e = ground arith

then_tokens-ok :
    (s : Bytes) (b : Result ValidateError (Unit {0}))
    → then_tokens s b ≡ ok tt
    → check_last s (check_tokens [] (split s)) ≡ ok tt
unfolding then_tokens
then_tokens-ok s (ok u) e = e
then_tokens-ok s (err x) e = absurd (cc e)

check_last-ok :
    (s : Bytes) (t : Result ValidateError Bytes) → check_last s t ≡ ok tt → (r : Bytes) × (t ≡ ok r)
unfolding check_last
check_last-ok s (ok r) e = (r, refl)
check_last-ok s (err x) e = absurd (cc e)

-- A validated subject passed the loop over the tokens.
passed : (s : Bytes) → validate_subject s ≡ ok tt → (r : Bytes) × (check_tokens [] (split s) ≡ ok r)
passed s e =
    check_last-ok s (check_tokens [] (split s))
      (then_tokens-ok s (check_bytes is_subject_byte s) (reached s e))

full-NoGap : (ts : List Bytes) → All (λ t. is_empty t ≡ false) ts → All (λ t. t ≢ []) ts
full-NoGap [] h = tt
full-NoGap ([] ∷ ts) h = absurd (cc (h.0))
full-NoGap ((c ∷ t) ∷ ts) h = ((λ q. cc), full-NoGap ts h.1)

tokens_nonempty : (s : Bytes) → validate_subject s ≡ ok tt → All (λ t. is_empty t ≡ false) (split s)
tokens_nonempty s e = let (r, p) = passed s e in check_tokens-full [] r (split s) p

-- A validated subject has no empty token, and its tokens are those of `split`: none is lost.
pub validate_subject-NoGap :
    (s : Bytes) → validate_subject s ≡ ok tt → (tokens s ≡ split s) × NoGap s
validate_subject-NoGap s e = (same, rw (same) (full-NoGap (split s) (tokens_nonempty s e)))
  where
    same : tokens s ≡ split s
    same = tokens-split s ∙ drop_end_full (split s) (tokens_nonempty s e)

-- On patterns that validate.rs accepts, its own overlap test answers as that of the engine: it says
-- yes exactly if a subject with no empty token matches both.
pub patterns_overlap_iff :
    (a b : Bytes)
    → validate_subject a ≡ ok tt
    → validate_subject b ≡ ok tt
    → (patterns_overlap a b ≡ subjects_overlap a b)
      × ((patterns_overlap a b ≡ true)
          ↔ ((s : Bytes) × NoGap s × (subject_matches a s ≡ true) × (subject_matches b s ≡ true)))
unfolding patterns_overlap
patterns_overlap_iff a b ha hb = (same, rw (same) (subjects_overlap_iff a b na nb))
  where
    na : NoGap a
    na = (validate_subject-NoGap a ha).1

    nb : NoGap b
    nb = (validate_subject-NoGap b hb).1

    same : patterns_overlap a b ≡ subjects_overlap a b
    same =
        overlap_loop_lem (split a) (split b)
        ∙ sym (
            rw (sym (validate_subject-NoGap a ha).0, sym (validate_subject-NoGap b hb).0)
              (subjects_overlap-tokens a b na nb))
