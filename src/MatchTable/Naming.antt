-- ===== src/MatchTable/Naming.antt =====
-- Whom a match table names for a subject, and that these are the recipients.
use arbitro.Common.{
  Bool, List, Option-cases, [], ap, arith, inl, inr, lookup, refl, some, sym, ℕ, ◌++◌, ◌||◌, ◌∙◌,
  ◌∷◌, ◌≡◌, ◌⊎◌,
}
use arbitro.Subject.{Bytes}
use arbitro.Subject.Match.{bytes_eq_refl}
use arbitro.Subject.Tokens.{NoGap}
use arbitro.MatchTable.{
  MatchEntry, MatchTable, bucket, has_entry, lookup_verified, resolve_patterns_readonly,
}
use arbitro.MatchTable.Delivery.{recipients, resolve_cached}
use arbitro.MatchTable.Entries.{has_entry-append, has_entry-push_new}
use arbitro.MatchTable.Resolving.{Fits, any_pattern, resolve_patterns_readonly-any_pattern}
use arbitro.MatchTable.Registering.{Consistent, NoClash}

patterns_cases :
    (ps : List (Bytes × MatchEntry))
    → (ps ≡ []) ⊎ ((p : Bytes × MatchEntry) × (rest : List (Bytes × MatchEntry)) × (ps ≡ p ∷ rest))
patterns_cases [] = inl refl
patterns_cases (p ∷ ps) = inr (p, ps, refl)

module _ (wire_hash_32 : Bytes → ℕ) where
  -- What the cache of a stream says of a subject is what the table says.
  abbrev pub Truthful : MatchTable → List (ℕ × List MatchEntry) → Bytes → Type 0
  Truthful t cache subject =
      (r : List MatchEntry)
      → lookup (wire_hash_32 subject) cache ≡ some r
      → r ≡ resolve_patterns_readonly t subject []

  resolve_cached-resolve :
      (t : MatchTable) (cache : List (ℕ × List MatchEntry)) (subject : Bytes)
      → Truthful t cache subject
      → (resolve_cached wire_hash_32 t cache subject).0 ≡ resolve_patterns_readonly t subject []
  unfolding resolve_cached
  resolve_cached-resolve t cache subject honest =
      elim (Option-cases (lookup (wire_hash_32 subject) cache)) [
        | inl fresh ↦ rw (resolve_cached, fresh) refl
        | inr (r, e) ↦ rw (resolve_cached, e) (honest r e)
      ]

  -- Whom the table names for a subject.
  abbrev pub named : MatchTable → MatchEntry → Bytes → Bool
  named t e subject =
      (has_entry e (bucket (wire_hash_32 subject) t.exact) || has_entry e t.catch_all)
      || any_pattern e subject t.patterns

  module _ (K : Bytes → Type 0) (clash : NoClash wire_hash_32 K) where
    -- Where no two known subjects have the same hash the check of the subject changes nothing.
    lookup_verified-bucket :
        (t : MatchTable) (subject : Bytes)
        → Consistent wire_hash_32 K t
        → K subject
        → lookup_verified t (wire_hash_32 subject) subject
          ≡ (bucket (wire_hash_32 subject) t.exact, t.catch_all)
    unfolding lookup_verified
    lookup_verified-bucket t subject c k =
        elim (Option-cases (lookup (wire_hash_32 subject) t.exact_subjects)) [
          | inl fresh ↦
              rw (lookup_verified, fresh)
                (ap (λ l. (l, t.catch_all)) (sym (c.covered (wire_hash_32 subject) fresh)))
          | inr (s, e) ↦
              let (ks, hash) = c.known (wire_hash_32 subject) s e in
              rw (lookup_verified, e, clash s subject ks k hash, bytes_eq_refl subject) refl
        ]

    pub recipients-named :
        (t : MatchTable) (cache : List (ℕ × List MatchEntry)) (subject : Bytes) (e : MatchEntry)
        → Consistent wire_hash_32 K t
        → Fits t.patterns
        → K subject
        → NoGap subject
        → Truthful t cache subject
        → has_entry e (recipients wire_hash_32 t cache subject).0 ≡ named t e subject
    unfolding recipients
    recipients-named t cache subject e c fits k hs honest =
        let stored = lookup_verified-bucket t subject c k in
        let matches = bucket (wire_hash_32 subject) t.exact ++ t.catch_all in
        elim (patterns_cases t.patterns) [
          | inl nil ↦
              rw
                (
                  recipients,
                  nil,
                  stored,
                  has_entry-append e (bucket (wire_hash_32 subject) t.exact) t.catch_all,
                )
                (unfold any_pattern in ground arith)
          | inr (p, ps, some_there) ↦
              rw (recipients, some_there, stored)
                (has_entry-push_new e matches (resolve_cached wire_hash_32 t cache subject).0
                  ∙ rw
                      (
                        resolve_cached-resolve t cache subject honest,
                        has_entry-append e (bucket (wire_hash_32 subject) t.exact) t.catch_all,
                        resolve_patterns_readonly-any_pattern t subject [] e c.in_step fits hs,
                      )
                      (unfold has_entry in
                        ap
                          (λ l.
                            (has_entry e (bucket (wire_hash_32 subject) t.exact)
                              || has_entry e t.catch_all)
                            || any_pattern e subject l)
                          some_there))
        ]
