-- ===== src/SubjectTrie/Valid.antt =====
-- crates/arbitro-engine/src/common/trie.rs: `validate_pattern` accepts the patterns whose tokens are in
-- order.
use mathlib.Core.Path.{subst, Path}
use arbitro.Subject.Match.{bytes_eq_refl}
use arbitro.SubjectTrie.Links.{ne-bytes_eq, same_bytes}
use arbitro.Common.{
  All, Bool-cases, List, Result, [], arith, err, false, if◌then◌else◌, inl, inr, length, not, ok,
  refl, suc, sym, true, true≢false, zero, ℕ, ◌&&◌, ◌==◌, ◌↔◌, ◌∙◌, ◌∷◌, ◌≡◌, ◌≢◌, ◌≤◌, ◌⊎◌,
}
use arbitro.Subject.{Bytes, bytes_eq, dot, gt, is_empty, next_token}
use arbitro.Subject.Tokens.{length-next, tokens, tokens-next}
use arbitro.SubjectTrie.{
  PatternError, empty_token, ends_in_dot, tokens_after_gt, validate_loop, validate_pattern,
}
use arbitro.SubjectTrie.Inserting.{tokens_end}

-- No token is empty, and `>` is the last one.
abbrev pub InOrder : List Bytes → Type 0
InOrder [] = Unit
InOrder (t ∷ ts) = (t ≢ []) × ((t ≢ gt) ⊎ (ts ≡ [])) × InOrder ts

pub InOrder-NoGap : (ts : List Bytes) → InOrder ts → All (λ t. t ≢ []) ts
InOrder-NoGap [] h = tt
InOrder-NoGap (t ∷ ts) (h, _, hs) = (h, InOrder-NoGap ts hs)

cons_not_nil : {t : Bytes} {ts : List Bytes} → t ∷ ts ≡ [] → ⊥
cons_not_nil e = absurd (cc)

is_empty_iff : (s : Bytes) → (is_empty s ≡ true) ↔ (s ≡ [])
is_empty_iff [] = (λ _. refl, λ _. refl)
is_empty_iff (c ∷ s) = (λ h. absurd (true≢false (sym h)), λ h. absurd (cc))

err_not_ok : {e : PatternError} → Path (Result {0, 0} PatternError (Unit {0})) (err e) (ok tt) → ⊥
err_not_ok h = absurd (cc)

empty_tokens : (p : Bytes) → (is_empty p ≡ true) ↔ (tokens p ≡ [])
empty_tokens [] = (λ _. tokens_end, λ _. refl)
empty_tokens (c ∷ p) =
    (λ h. absurd (true≢false (sym h)), λ h. absurd (cons_not_nil (sym (tokens-next c p) ∙ h)))

-- One round, where the rest of the loop answers as it should.
round :
    (t rest : Bytes) (ts : List Bytes) (later : Result {0, 0} PatternError (Unit {0}))
    → (is_empty rest ≡ true) ↔ (ts ≡ [])
    → (later ≡ ok tt) ↔ InOrder ts
    → ((if is_empty t
          then err empty_token
          else if bytes_eq t gt && not (is_empty rest)
          then err tokens_after_gt
          else later)
        ≡ ok tt)
      ↔ InOrder (t ∷ ts)
round t rest ts later last ih = elim (Bool-cases (is_empty t)) [
  | inl none_left ↦
      rw none_left
        ((λ h. absurd (err_not_ok h)), (λ h. absurd (h.0 ((is_empty_iff t).0 none_left))))
  | inr some_left ↦
      let there : t ≢ [] = λ e. true≢false (sym ((is_empty_iff t).1 e) ∙ some_left) in
      rw some_left (elim (same_bytes t gt) [
        | inr ng ↦ rw (ne-bytes_eq t gt ng) ((λ h. (there, inl ng, ih.0 h)), (λ h. ih.1 h.2))
        | inl it ↦
            rw (it, bytes_eq_refl gt)
              (elim (Bool-cases (is_empty rest)) [
                | inl ends ↦
                    rw ends
                      ((λ h. ((λ e. there (it ∙ e)), inr (last.0 ends), ih.0 h)), (λ h. ih.1 h.2))
                | inr goes_on ↦ rw goes_on (
                  (λ h. absurd (err_not_ok h)),
                  (λ h. elim h.1 [
                    | inl ng ↦ absurd (ng refl)
                    | inr ends ↦ absurd (true≢false (sym (last.1 ends) ∙ goes_on))
                  ]),
                )
              ])
      ])
]

validate_loop_iff :
    (fuel : ℕ) (p : Bytes) → length p ≤ fuel → (validate_loop fuel p ≡ ok tt) ↔ InOrder (tokens p)
unfolding validate_loop
validate_loop_iff fuel [] h = rw tokens_end ((λ _. tt), (λ _. refl))
validate_loop_iff zero (c ∷ p) h = absurd (omega (arith, h))
validate_loop_iff (suc fuel) (c ∷ p) h =
    let (token, rest) = next_token (c ∷ p) in
    let ih = validate_loop_iff fuel rest (omega (arith, h, length-next c p)) in
    rw (tokens-next c p)
      (round token rest (tokens rest) (validate_loop fuel rest) (empty_tokens rest) ih)

dot_first : (c : ℕ) (p : Bytes) → (c == dot) ≡ true → InOrder (tokens (c ∷ p)) → ⊥
unfolding next_token
dot_first c [] h order = (subst InOrder (tokens-next c []) order).0 (rw h refl)
dot_first c (d ∷ p) h order = (subst InOrder (tokens-next c (d ∷ p)) order).0 (rw h refl)

-- A pattern is accepted exactly if it has a byte, does not end in a dot, has no empty token and has
-- `>` as the last token only.
pub validate_pattern_iff :
    (p : Bytes)
    → (validate_pattern p ≡ ok tt) ↔ ((p ≢ []) × (ends_in_dot p ≡ false) × InOrder (tokens p))
unfolding validate_pattern
validate_pattern_iff [] = ((λ h. absurd (err_not_ok h)), (λ h. absurd (h.0 refl)))
validate_pattern_iff (c ∷ p) =
    let ih = validate_loop_iff (length (c ∷ p)) (c ∷ p) (omega arith) in
    elim (Bool-cases (c == dot)) [
      | inl starts ↦
          rw starts ((λ h. absurd (err_not_ok h)), (λ h. absurd (dot_first c p starts h.2)))
      | inr fine ↦ rw fine (elim (Bool-cases (ends_in_dot (c ∷ p))) [
        | inl ends ↦ rw ends ((λ h. absurd (err_not_ok h)), (λ h. absurd (true≢false h.1)))
        | inr open_end ↦ rw open_end ((λ h. ((λ e. absurd (cc)), refl, ih.0 h)), (λ h. ih.1 h.2))
      ])
    ]
