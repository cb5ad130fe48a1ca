-- ===== src/MatchTable/Removing.antt =====
-- crates/arbitro-engine/src/catalog/match_table.rs: `remove_subscription`.
use arbitro.Subject.Tokens.{NoGap}
use arbitro.MatchTable.Delivery.{recipients}
use arbitro.MatchTable.Naming.{Truthful, named, recipients-named}
use arbitro.Common.{
  ==_refl, All, Bool, Bool-cases, List, [], ap, arith, false, if◌then◌else◌, inl, inr, length,
  lookup, none, not, refl, same_number, some, sym, true≢false, ℕ, ◌&&◌, ◌==◌, ◌||◌, ◌∙◌, ◌∷◌, ◌≡◌,
  ◌≤◌, ◌⊎◌,
}
use arbitro.Subject.{Bytes}
use arbitro.SubjectTrie
use arbitro.SubjectTrie.{SubjectTrie, new}
use arbitro.SubjectTrie.Links.{never_both}
use arbitro.MatchTable.{
  Buckets, MatchEntry, MatchTable, bucket, has_entry, has_subscription, is_key, patterns_without,
  rebuild_loop, remove_subscription, retain_buckets, retain_subjects, same_entry, seconds, without,
}
use arbitro.MatchTable.Entries.{has_entry-without}
use arbitro.MatchTable.Maps.{Distinct-retain_buckets, bucket-retain_buckets, is_key-bucket}
use arbitro.MatchTable.Resolving.{Fits, any_pattern, token_total}
use arbitro.MatchTable.Registering.{Consistent, NoClash}

any_pattern-patterns_without :
    (e : MatchEntry) (s : Bytes) (subscription_id : ℕ) (ps : List (Bytes × MatchEntry))
    → any_pattern e s (patterns_without subscription_id ps)
      ≡ (any_pattern e s ps && not (e.subscription_id == subscription_id))
unfolding any_pattern patterns_without same_entry
any_pattern-patterns_without e s subscription_id [] = refl
any_pattern-patterns_without e s subscription_id ((p, x) ∷ ps) =
    ground (arith, any_pattern-patterns_without e s subscription_id ps)

-- Without a pattern of the subscription nothing is to be rebuilt.
patterns_without_none :
    (subscription_id : ℕ) (ps : List (Bytes × MatchEntry))
    → has_subscription subscription_id ps ≡ false
    → patterns_without subscription_id ps ≡ ps
unfolding patterns_without has_subscription
patterns_without_none subscription_id [] h = refl
patterns_without_none subscription_id ((p, x) ∷ ps) h =
    elim (Bool-cases (x.subscription_id == subscription_id)) [
      | inl mine ↦ absurd (true≢false (sym (rw mine refl) ∙ h))
      | inr other ↦ rw other (
          ap (λ l. (p, x) ∷ l) (patterns_without_none subscription_id ps (sym (rw other refl) ∙ h)))
    ]

lookup-retain_subjects :
    (h : ℕ) (buckets : Buckets) (subjects : List (ℕ × Bytes))
    → lookup h (retain_subjects buckets subjects)
      ≡ (if is_key h buckets then lookup h subjects else none)
unfolding lookup retain_subjects
lookup-retain_subjects h buckets [] = ground arith
lookup-retain_subjects h buckets ((k, s) ∷ subjects) =
    let ih = lookup-retain_subjects h buckets subjects in
    elim (same_number k h) [
      | inl here ↦ elim (Bool-cases (is_key k buckets)) [
        | inl stays ↦ rw (stays, sym here, stays, ==_refl k) refl
        | inr gone ↦ rw gone (ih ∙ rw (sym here, gone) refl)
      ]
      | inr off ↦ elim (Bool-cases (is_key k buckets)) [
        | inl stays ↦ rw stays (ground (arith, off, ih))
        | inr gone ↦ rw gone (ground (arith, off, ih))
      ]
    ]

all_kept :
    (a b c d : Bool) → (((a && not d) || (b && not d)) || (c && not d)) ≡ (((a || b) || c) && not d)
all_kept a b c d = ground arith

fewer :
    (subscription_id : ℕ) (ps : List (Bytes × MatchEntry))
    → All (λ p. NoGap p.0) ps
    → (length (patterns_without subscription_id ps) ≤ length ps)
      × (token_total (patterns_without subscription_id ps) ≤ token_total ps)
      × All (λ p. NoGap p.0) (patterns_without subscription_id ps)
unfolding patterns_without token_total
fewer subscription_id [] h = (omega arith, omega arith, tt)
fewer subscription_id ((p, x) ∷ ps) h =
    let (a, b, c) = fewer subscription_id ps h.1 in
    elim (Bool-cases (x.subscription_id == subscription_id)) [
      | inl mine ↦ rw mine (omega (arith, a), omega (arith, b), c)
      | inr other ↦ rw other (omega (arith, a), omega (arith, b), (h.0, c))
    ]

Fits-patterns_without :
    (subscription_id : ℕ) (ps : List (Bytes × MatchEntry))
    → Fits ps
    → Fits (patterns_without subscription_id ps)
Fits-patterns_without subscription_id ps (few, room, ordered) =
    let (a, b, c) = fewer subscription_id ps ordered in
    (omega (arith, few, a), omega (arith, room, b), c)

patterns_left :
    (t : MatchTable) (subscription_id : ℕ)
    → Fits t.patterns
    → Fits (remove_subscription t subscription_id).patterns
unfolding remove_subscription
patterns_left t subscription_id fits =
    elim (Bool-cases (has_subscription subscription_id t.patterns)) [
      | inl some_there ↦ rw some_there (Fits-patterns_without subscription_id t.patterns fits)
      | inr none_there ↦ rw none_there (Fits-patterns_without subscription_id t.patterns fits)
    ]

module _ (wire_hash_32 : Bytes → ℕ) (K : Bytes → Type 0) where
  kept_subject :
      (h : ℕ) (buckets : Buckets) (subjects : List (ℕ × Bytes)) (s : Bytes)
      → lookup h (retain_subjects buckets subjects) ≡ some s
      → lookup h subjects ≡ some s
  kept_subject h buckets subjects s e = elim (Bool-cases (is_key h buckets)) [
    | inl stays ↦ sym (lookup-retain_subjects h buckets subjects ∙ rw stays refl) ∙ e
    | inr gone ↦ absurd (never_both e (lookup-retain_subjects h buckets subjects ∙ rw gone refl))
  ]

  removed_subject :
      (h : ℕ) (buckets : Buckets) (subjects : List (ℕ × Bytes))
      → lookup h (retain_subjects buckets subjects) ≡ none
      → (is_key h buckets ≡ false) ⊎ (lookup h subjects ≡ none)
  removed_subject h buckets subjects e = elim (Bool-cases (is_key h buckets)) [
    | inl stays ↦ inr (sym (lookup-retain_subjects h buckets subjects ∙ rw stays refl) ∙ e)
    | inr gone ↦ inl gone
  ]

  -- What the removal leaves, before the trie.
  abbrev pruned : MatchTable → ℕ → MatchTable
  pruned t subscription_id =
      let exact = retain_buckets subscription_id t.exact in
      record t {
        catch_all = without subscription_id t.catch_all;
        catch_all_dedup = without subscription_id t.catch_all_dedup;
        exact = exact;
        exact_dedup = retain_buckets subscription_id t.exact_dedup;
        exact_subjects = retain_subjects exact t.exact_subjects;
        patterns = patterns_without subscription_id t.patterns;
      }

  with_trie-Consistent :
      (t : MatchTable) (subscription_id : ℕ) (trie : SubjectTrie) (entries : List MatchEntry)
      → Consistent wire_hash_32 K t
      → (trie ≡ rebuild_loop 0 (patterns_without subscription_id t.patterns) SubjectTrie.new)
      → (entries ≡ seconds (patterns_without subscription_id t.patterns))
      → Consistent wire_hash_32 K
          (record (pruned t subscription_id) { pattern_trie = trie; pattern_entries = entries })
  with_trie-Consistent t subscription_id trie entries c e f = record {
    catch_all_set = λ x.
        has_entry-without x subscription_id t.catch_all_dedup
        ∙ ap (λ b. b && not (x.subscription_id == subscription_id)) (c.catch_all_set x)
        ∙ sym (has_entry-without x subscription_id t.catch_all);
    exact_set = λ h x.
        ap (has_entry x) (bucket-retain_buckets h subscription_id t.exact_dedup c.set_keys)
        ∙ has_entry-without x subscription_id (bucket h t.exact_dedup)
        ∙ ap (λ b. b && not (x.subscription_id == subscription_id)) (c.exact_set h x)
        ∙ sym (has_entry-without x subscription_id (bucket h t.exact))
        ∙ sym (ap (has_entry x) (bucket-retain_buckets h subscription_id t.exact c.keys));
    keys = Distinct-retain_buckets subscription_id t.exact c.keys;
    set_keys = Distinct-retain_buckets subscription_id t.exact_dedup c.set_keys;
    covered = λ h g.
        elim (removed_subject h (retain_buckets subscription_id t.exact) t.exact_subjects g) [
          | inl gone ↦ is_key-bucket h (retain_buckets subscription_id t.exact) gone
          | inr never ↦
              bucket-retain_buckets h subscription_id t.exact c.keys
              ∙ ap (without subscription_id) (c.covered h never)
              ∙ (unfold without in refl)
        ];
    known = λ h s g.
        c.known h s (kept_subject h (retain_buckets subscription_id t.exact) t.exact_subjects s g);
    in_step = (e, f);
  }

  pub remove_subscription-Consistent :
      (t : MatchTable) (subscription_id : ℕ)
      → Consistent wire_hash_32 K t
      → Consistent wire_hash_32 K (remove_subscription t subscription_id)
  unfolding remove_subscription
  remove_subscription-Consistent t subscription_id c =
      elim (Bool-cases (has_subscription subscription_id t.patterns)) [
        | inl some_there ↦ rw some_there (
            with_trie-Consistent t subscription_id
              (rebuild_loop 0 (patterns_without subscription_id t.patterns) SubjectTrie.new)
              (seconds (patterns_without subscription_id t.patterns)) c refl refl)
        | inr none_there ↦ rw none_there (
            let same_ones = sym (patterns_without_none subscription_id t.patterns none_there) in
            with_trie-Consistent t subscription_id t.pattern_trie t.pattern_entries c
              (c.in_step.0 ∙ ap (λ ps. rebuild_loop 0 ps SubjectTrie.new) same_ones)
              (c.in_step.1 ∙ ap seconds same_ones))
      ]

  remove_subscription-named :
      (t : MatchTable) (subscription_id : ℕ) (subject : Bytes) (e : MatchEntry)
      → Consistent wire_hash_32 K t
      → named wire_hash_32 (remove_subscription t subscription_id) e subject
        ≡ (named wire_hash_32 t e subject && not (e.subscription_id == subscription_id))
  unfolding remove_subscription
  remove_subscription-named t subscription_id subject e c =
      let h = wire_hash_32 subject in
      let exact =
        ap (has_entry e) (bucket-retain_buckets h subscription_id t.exact c.keys)
        ∙ has_entry-without e subscription_id (bucket h t.exact) in
      let all = has_entry-without e subscription_id t.catch_all in
      let rest = any_pattern-patterns_without e subject subscription_id t.patterns in
      elim (Bool-cases (has_subscription subscription_id t.patterns)) [
        | inl some_there ↦
            rw (some_there, exact, all, rest)
              (all_kept (has_entry e (bucket h t.exact)) (has_entry e t.catch_all)
                (any_pattern e subject t.patterns) (e.subscription_id == subscription_id))
        | inr none_there ↦
            rw (none_there, exact, all, rest)
              (all_kept (has_entry e (bucket h t.exact)) (has_entry e t.catch_all)
                (any_pattern e subject t.patterns) (e.subscription_id == subscription_id))
      ]

-- In a table that is consistent, whose patterns have no empty tokens and fit the 32-bit indices of the
-- trie, where no two known subjects have the same hash and the caches tell what their tables say: for
-- a known subject without empty tokens, the drain's recipients after `remove_subscription` are those
-- from before less the entries of the subscription, and the table stays consistent.
pub remove_subscription-recipients :
    (wire_hash_32 : Bytes → ℕ) (K : Bytes → Type 0) (t : MatchTable) (subscription_id : ℕ)
    (before after : List (ℕ × List MatchEntry)) (subject : Bytes) (e : MatchEntry)
    → NoClash wire_hash_32 K
    → Consistent wire_hash_32 K t
    → Fits t.patterns
    → K subject
    → NoGap subject
    → Truthful wire_hash_32 t before subject
    → Truthful wire_hash_32 (remove_subscription t subscription_id) after subject
    → (has_entry e (recipients wire_hash_32 (remove_subscription t subscription_id) after subject).0
        ≡ (has_entry e (recipients wire_hash_32 t before subject).0
            && not (e.subscription_id == subscription_id)))
      × Consistent wire_hash_32 K (remove_subscription t subscription_id)
remove_subscription-recipients wire_hash_32 K t subscription_id before after subject e clash c fits
      k hs honest later =
    let c' = remove_subscription-Consistent wire_hash_32 K t subscription_id c in
    (
      recipients-named wire_hash_32 K clash (remove_subscription t subscription_id) after subject e
            c' (patterns_left t subscription_id fits) k hs later
          ∙ remove_subscription-named wire_hash_32 K t subscription_id subject e c
          ∙ ap (λ b. b && not (e.subscription_id == subscription_id))
              (sym (recipients-named wire_hash_32 K clash t before subject e c fits k hs honest)),
      c',
    )
