-- ===== src/MatchTable/Stored.antt =====
-- crates/arbitro-engine/src/catalog/match_table.rs: where a pattern is added the trie is that of a
-- rebuild, and which subject is stored for a bucket.
use mathlib.Core.Path.{subst}
use arbitro.Common.{
  ==_refl, List, Option, Option-cases, [], ap, arith, if◌then◌else◌, inl, inr, length, lookup,
  lookup-put, none, put, refl, same_number, some, suc, sym, ℕ, ◌%◌, ◌++◌, ◌+◌, ◌==◌, ◌∙◌, ◌∷◌, ◌≡◌,
  ◌≢◌, ◌⊎◌,
}
use arbitro.Common.Word.{u32_mod}
use arbitro.Subject.{Bytes}
use arbitro.SubjectTrie.Links.{never_both}
use arbitro.SubjectTrie.{SubjectTrie, insert_pattern}
use arbitro.MatchTable.{MatchEntry, keep_subject, rebuild_loop, seconds}

pub rebuild_loop-end :
    (i : ℕ) (ps : List (Bytes × MatchEntry)) (p : Bytes) (x : MatchEntry) (trie : SubjectTrie)
    → rebuild_loop i (ps ++ (p, x) ∷ []) trie
      ≡ insert_pattern (rebuild_loop i ps trie) p ((i + length ps) % u32_mod)
unfolding rebuild_loop
rebuild_loop-end i [] p x trie = ap (λ k. insert_pattern trie p (k % u32_mod)) (omega arith)
rebuild_loop-end i ((q, y) ∷ ps) p x trie =
    rebuild_loop-end (i + 1) ps p x (insert_pattern trie q (i % u32_mod))
    ∙ ap
        (λ k.
          insert_pattern (rebuild_loop (i + 1) ps (insert_pattern trie q (i % u32_mod))) p
            (k % u32_mod))
        (omega arith)

pub seconds-end :
    (ps : List (Bytes × MatchEntry)) (p : Bytes) (x : MatchEntry)
    → seconds (ps ++ (p, x) ∷ []) ≡ seconds ps ++ x ∷ []
unfolding seconds
seconds-end [] p x = refl
seconds-end ((q, y) ∷ ps) p x = ap (λ l. y ∷ l) (seconds-end ps p x)

pub length-seconds : (ps : List (Bytes × MatchEntry)) → length (seconds ps) ≡ length ps
unfolding seconds
length-seconds [] = refl
length-seconds ((q, y) ∷ ps) = ap suc (length-seconds ps)

pub zero_first : (n : ℕ) → n ≡ 0 + n
zero_first n = omega arith

some_bytes : {a b : Bytes} → some a ≡ some b → a ≡ b
some_bytes e = cc

otherwise :
    {h k : ℕ} {r : Option Bytes} (s : Bytes) (o : Option Bytes)
    → h ≢ k
    → (if h == k then some s else o) ≡ r
    → o ≡ r
otherwise s o ne e = ground (arith, ne, e)

keep_subject-old :
    (h : ℕ) (s x : Bytes) (subjects : List (ℕ × Bytes))
    → lookup h subjects ≡ some x
    → keep_subject h s subjects ≡ subjects
unfolding keep_subject
keep_subject-old h s x subjects e = rw (keep_subject, e) refl

keep_subject-new :
    (h : ℕ) (s : Bytes) (subjects : List (ℕ × Bytes))
    → lookup h subjects ≡ none
    → keep_subject h s subjects ≡ put h s subjects
unfolding keep_subject
keep_subject-new h s subjects e = rw (keep_subject, e) refl

-- What is stored under a hash afterwards: what was there before, or the new subject under its own.
pub lookup-keep_subject :
    (h k : ℕ) (s : Bytes) (subjects : List (ℕ × Bytes)) (x : Bytes)
    → lookup k (keep_subject h s subjects) ≡ some x
    → (lookup k subjects ≡ some x) ⊎ ((h ≡ k) × (s ≡ x))
lookup-keep_subject h k s subjects x e = elim (Option-cases (lookup h subjects)) [
  | inr (y, old) ↦ inl (sym (ap (lookup k) (keep_subject-old h s y subjects old)) ∙ e)
  | inl fresh ↦
      let e' : (if h == k then some s else lookup k subjects) ≡ some x =
        sym (ap (lookup k) (keep_subject-new h s subjects fresh) ∙ lookup-put h k s subjects) ∙ e in
      elim (same_number h k) [
        | inl here ↦ inr (here, some_bytes (sym (rw (here, ==_refl k) refl) ∙ e'))
        | inr there ↦ inl (otherwise s (lookup k subjects) there e')
      ]
]

pub lookup-keep_subject-none :
    (h k : ℕ) (s : Bytes) (subjects : List (ℕ × Bytes))
    → lookup k (keep_subject h s subjects) ≡ none
    → (h ≢ k) × (lookup k subjects ≡ none)
lookup-keep_subject-none h k s subjects e = elim (Option-cases (lookup h subjects)) [
  | inr (y, old) ↦
      let gone = sym (ap (lookup k) (keep_subject-old h s y subjects old)) ∙ e in
      ((λ here. never_both old (subst (λ j. lookup j subjects ≡ none) (sym here) gone)), gone)
  | inl fresh ↦
      let e' : (if h == k then some s else lookup k subjects) ≡ none =
        sym (ap (lookup k) (keep_subject-new h s subjects fresh) ∙ lookup-put h k s subjects) ∙ e in
      elim (same_number h k) [
        | inl here ↦ absurd (
            never_both {a = s} {o = if h == k then some s else lookup k subjects}
              (rw (here, ==_refl k) refl) e')
        | inr there ↦ (there, otherwise s (lookup k subjects) there e')
      ]
]
