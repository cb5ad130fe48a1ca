-- ===== src/MatchTable/Routing.antt =====
-- Who gets a message: the registrations of `ensure_subscription`, looked up by the drain.
use arbitro.SubjectTrie.Links.{ne-bytes_eq, same_bytes}
use arbitro.Common.{
  ==_refl, All, Bool, Bool-cases, List, [], ap, arith, false, if◌then◌else◌, inl, inr, lookup, refl,
  same_number, sym, ℕ, ◌&&◌, ◌++◌, ◌==◌, ◌||◌, ◌∙◌, ◌∷◌, ◌≡◌,
}
use arbitro.Subject.{Bytes, bytes_eq, subject_matches}
use arbitro.Subject.Match.{bytes_eq_refl}
use arbitro.Subject.Tokens.{NoGap}
use arbitro.MatchTable.{
  MatchEntry, MatchTable, add_catch_all, add_exact, add_pattern, bucket, has_entry, new_table,
  same_entry,
}
use arbitro.MatchTable.Binding.{is_pattern}
use arbitro.MatchTable.Delivery.{add_filter, add_filters, recipients, register}
use arbitro.MatchTable.Entries.{has_entry-append, has_entry-same}
use arbitro.MatchTable.Resolving.{Fits, any_pattern}
use arbitro.MatchTable.Naming.{Truthful, named, recipients-named}
use arbitro.MatchTable.Registering.{
  Consistent, NoClash, add_catch_all-Consistent, add_exact-Consistent, add_pattern-Consistent,
  has_entry-add_exact, new_table-Consistent,
}

-- Whether a filter accepts a subject.
abbrev pub accepts : Bytes → Bytes → Bool
accepts filter subject =
    if is_pattern filter then subject_matches filter subject else bytes_eq filter subject

unfoldable pub accepts_any : List Bytes → Bytes → Bool
accepts_any [] subject = false
accepts_any (filter ∷ filters) subject = accepts filter subject || accepts_any filters subject

-- What the subscriptions ask for: no filter takes every subject.
unfoldable pub wanted : MatchEntry → Bytes → List (MatchEntry × List Bytes) → Bool
wanted e subject [] = false
wanted e subject ((x, []) ∷ rs) = same_entry x e || wanted e subject rs
wanted e subject ((x, f ∷ fs) ∷ rs) =
    (same_entry x e && accepts_any (f ∷ fs) subject) || wanted e subject rs

any_pattern-end :
    (e : MatchEntry) (s : Bytes) (ps : List (Bytes × MatchEntry)) (p : Bytes) (x : MatchEntry)
    → any_pattern e s (ps ++ (p, x) ∷ [])
      ≡ (any_pattern e s ps || (same_entry x e && subject_matches p s))
unfolding any_pattern
any_pattern-end e s [] p x = ground arith
any_pattern-end e s ((q, y) ∷ ps) p x = ground (arith, any_pattern-end e s ps p x)

or_moved : (a b c : Bool) → (a || (b || c)) ≡ ((a || b) || c)
or_moved a b c = ground arith

or_split : (a b c d : Bool) → ((a || (b && c)) || (b && d)) ≡ (a || (b && (c || d)))
or_split a b c d = ground arith

or_turned : (a b c d f : Bool) → (((a || (d && f)) || b) || c) ≡ (((a || b) || c) || (f && d))
or_turned a b c d f = ground arith

module _ (wire_hash_32 : Bytes → ℕ) where
  unfoldable pub register_all : MatchTable → List (MatchEntry × List Bytes) → MatchTable
  register_all t [] = t
  register_all t ((x, fs) ∷ rs) = register_all (register wire_hash_32 t x fs) rs

  module _ (K : Bytes → Type 0) (clash : NoClash wire_hash_32 K) where
    same_hash :
        (f subject : Bytes)
        → K f
        → K subject
        → (wire_hash_32 f == wire_hash_32 subject) ≡ bytes_eq f subject
    same_hash f subject kf k = elim (same_bytes f subject) [
      | inl it ↦ rw (it, bytes_eq_refl subject) (==_refl (wire_hash_32 subject))
      | inr differs ↦
          rw (ne-bytes_eq f subject differs)
            (elim (same_number (wire_hash_32 f) (wire_hash_32 subject)) [
              | inl same_one ↦ absurd (differs (clash f subject kf k same_one))
              | inr off ↦ ground (arith, off)
            ])
    ]

    named-add_pattern :
        (t : MatchTable) (x : MatchEntry) (f subject : Bytes) (e : MatchEntry)
        → named wire_hash_32 (add_pattern t f x) e subject
          ≡ (named wire_hash_32 t e subject || (same_entry x e && subject_matches f subject))
    unfolding add_pattern
    named-add_pattern t x f subject e =
        ap
          (λ b.
            (has_entry e (bucket (wire_hash_32 subject) t.exact) || has_entry e t.catch_all) || b)
          (any_pattern-end e subject t.patterns f x)
        ∙ or_moved (has_entry e (bucket (wire_hash_32 subject) t.exact) || has_entry e t.catch_all)
            (any_pattern e subject t.patterns) (same_entry x e && subject_matches f subject)

    named-add_exact :
        (t : MatchTable) (x : MatchEntry) (f subject : Bytes) (e : MatchEntry)
        → Consistent wire_hash_32 K t
        → K f
        → K subject
        → named wire_hash_32 (add_exact t (wire_hash_32 f) f x) e subject
          ≡ (named wire_hash_32 t e subject || (same_entry x e && bytes_eq f subject))
    unfolding add_exact
    named-add_exact t x f subject e c kf k =
        ap (λ b. (b || has_entry e t.catch_all) || any_pattern e subject t.patterns)
          (has_entry-add_exact wire_hash_32 K t (wire_hash_32 f) (wire_hash_32 subject) f x e c
            ∙ ap (λ b. has_entry e (bucket (wire_hash_32 subject) t.exact) || (b && same_entry x e))
                (same_hash f subject kf k))
        ∙ or_turned (has_entry e (bucket (wire_hash_32 subject) t.exact)) (has_entry e t.catch_all)
            (any_pattern e subject t.patterns) (bytes_eq f subject) (same_entry x e)

    add_filter-named :
        (t : MatchTable) (x : MatchEntry) (f subject : Bytes) (e : MatchEntry)
        → Consistent wire_hash_32 K t
        → (is_pattern f ≡ false → K f)
        → K subject
        → Consistent wire_hash_32 K (add_filter wire_hash_32 t x f)
          × (named wire_hash_32 (add_filter wire_hash_32 t x f) e subject
              ≡ (named wire_hash_32 t e subject || (same_entry x e && accepts f subject)))
    unfolding add_filter
    add_filter-named t x f subject e c kf k = elim (Bool-cases (is_pattern f)) [
      | inl wild ↦
          rw wild (add_pattern-Consistent wire_hash_32 K t f x c, named-add_pattern t x f subject e)
      | inr literal ↦ rw literal (
        add_exact-Consistent wire_hash_32 K t f x (kf literal) c,
        named-add_exact t x f subject e c (kf literal) k,
      )
    ]

    catch_all_named :
        (t : MatchTable) (x : MatchEntry) (subject : Bytes) (e : MatchEntry)
        → Consistent wire_hash_32 K t
        → named wire_hash_32 (add_catch_all t x) e subject
          ≡ (named wire_hash_32 t e subject || same_entry x e)
    unfolding add_catch_all
    catch_all_named t x subject e c = elim (Bool-cases (has_entry x t.catch_all_dedup)) [
      | inl there ↦ rw there (elim (Bool-cases (same_entry x e)) [
        | inl it ↦
            rw (it, sym (has_entry-same x e t.catch_all it), sym (c.catch_all_set x), there)
              (ground arith)
        | inr differs ↦ rw differs (ground arith)
      ])
      | inr fresh ↦
          rw (fresh, has_entry-append e t.catch_all (x ∷ [])) (unfold has_entry in ground arith)
    ]

    add_filters-named :
        (t : MatchTable) (x : MatchEntry) (fs : List Bytes) (subject : Bytes) (e : MatchEntry)
        → Consistent wire_hash_32 K t
        → All (λ f. is_pattern f ≡ false → K f) fs
        → K subject
        → Consistent wire_hash_32 K (add_filters wire_hash_32 t x fs)
          × (named wire_hash_32 (add_filters wire_hash_32 t x fs) e subject
              ≡ (named wire_hash_32 t e subject || (same_entry x e && accepts_any fs subject)))
    unfolding add_filters accepts_any
    add_filters-named t x [] subject e c kf k = (c, ground arith)
    add_filters-named t x (f ∷ fs) subject e c kf k =
        let (c1, n1) = add_filter-named t x f subject e c kf.0 k in
        let (c2, n2) = add_filters-named (add_filter wire_hash_32 t x f) x fs subject e c1 kf.1 k in
        (
          c2,
          n2
              ∙ ap (λ b. b || (same_entry x e && accepts_any fs subject)) n1
              ∙ or_split (named wire_hash_32 t e subject) (same_entry x e) (accepts f subject)
                  (accepts_any fs subject),
        )

    pub register_all-named :
        (t : MatchTable) (rs : List (MatchEntry × List Bytes)) (subject : Bytes) (e : MatchEntry)
        → Consistent wire_hash_32 K t
        → All (λ r. All (λ f. is_pattern f ≡ false → K f) r.1) rs
        → K subject
        → Consistent wire_hash_32 K (register_all t rs)
          × (named wire_hash_32 (register_all t rs) e subject
              ≡ (named wire_hash_32 t e subject || wanted e subject rs))
    unfolding register_all wanted register
    register_all-named t [] subject e c kf k = (c, ground arith)
    register_all-named t ((x, []) ∷ rs) subject e c kf k =
        let (c2, n2) =
          register_all-named (add_catch_all t x) rs subject e
            (add_catch_all-Consistent wire_hash_32 K t x c) kf.1 k in
        (
          c2,
          n2
              ∙ ap (λ b. b || wanted e subject rs) (catch_all_named t x subject e c)
              ∙ sym (
                  or_moved (named wire_hash_32 t e subject) (same_entry x e) (wanted e subject rs)),
        )
    register_all-named t ((x, f ∷ fs) ∷ rs) subject e c kf k =
        let (c1, n1) = add_filters-named t x (f ∷ fs) subject e c kf.0 k in
        let (c2, n2) =
          register_all-named (add_filters wire_hash_32 t x (f ∷ fs)) rs subject e c1 kf.1 k in
        (
          c2,
          n2
              ∙ ap (λ b. b || wanted e subject rs) n1
              ∙ sym (
                  or_moved (named wire_hash_32 t e subject)
                    (same_entry x e && accepts_any (f ∷ fs) subject) (wanted e subject rs)),
        )

    -- After subscriptions have been registered in a new table, the drain's recipients of a subject are
    -- exactly the entries that want it: an entry with no filter, with a literal filter that is the
    -- subject, or with a pattern that matches it. Here the cache of the stream tells what the table
    -- says, the subject and the patterns have no empty token and fit the trie, and no two of the known
    -- subjects, which are the subject and the literal filters at least, have the same hash.
    pub recipients-wanted :
        (rs : List (MatchEntry × List Bytes)) (cache : List (ℕ × List MatchEntry)) (subject : Bytes)
        (e : MatchEntry)
        → All (λ r. All (λ f. is_pattern f ≡ false → K f) r.1) rs
        → Fits (register_all new_table rs).patterns
        → K subject
        → NoGap subject
        → Truthful wire_hash_32 (register_all new_table rs) cache subject
        → has_entry e (recipients wire_hash_32 (register_all new_table rs) cache subject).0
          ≡ wanted e subject rs
    recipients-wanted rs cache subject e kf fits k hs honest =
        let (c, n) =
          register_all-named new_table rs subject e (new_table-Consistent wire_hash_32 K) kf k in
        recipients-named wire_hash_32 K clash (register_all new_table rs) cache subject e c fits k
          hs honest
        ∙ n
        ∙ (unfold has_entry any_pattern bucket lookup in refl)
