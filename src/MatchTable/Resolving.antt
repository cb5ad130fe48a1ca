-- ===== src/MatchTable/Resolving.antt =====
-- crates/arbitro-engine/src/catalog/match_table.rs: `resolve_patterns_readonly` adds the entries of
-- the patterns that match.
use arbitro.Common.{
  All, Bool, Bool-cases, List, [], ap, arith, false, get_or, if◌then◌else◌, inl, inr, leb, length,
  map, refl, same_number, suc, sym, true, true≢false, ℕ, ◌%◌, ◌&&◌, ◌+◌, ◌<◌, ◌||◌, ◌∙◌, ◌∷◌, ◌≡◌,
  ◌≤◌,
}
use arbitro.Common.Word.{u32_mod}
use arbitro.Subject.{Bytes, subject_matches}
use arbitro.Subject.Tokens.{NoGap, tokens}
use arbitro.SubjectTrie
use arbitro.SubjectTrie.{SubjectTrie, find_matches, insert_pattern, new}
use arbitro.SubjectTrie.Counting.{tally}
use arbitro.SubjectTrie.Matching.{find_matches-matching, insert_patterns, matching, token_count}
use arbitro.MatchTable.{
  MatchEntry, MatchTable, dedup_threshold, has_entry, no_entry, push_new, rebuild_loop,
  resolve_patterns_readonly, same_entry, seconds,
}
use arbitro.MatchTable.Entries.{has_entry-push_new, push_unseen-push_new}

unfoldable any_of : (ℕ → Bool) → List ℕ → Bool
any_of f [] = false
any_of f (x ∷ xs) = f x || any_of f xs

tally_here : (x : ℕ) (xs : List ℕ) → 0 < tally x (x ∷ xs)
unfolding tally
tally_here x xs = ground arith

tally_later : (id x : ℕ) (xs : List ℕ) → 0 < tally id xs → 0 < tally id (x ∷ xs)
unfolding tally
tally_later id x xs h = omega (arith, h)

any_of-tally :
    (f : ℕ → Bool) (xs : List ℕ) → any_of f xs ≡ true → (id : ℕ) × (f id ≡ true) × (0 < tally id xs)
unfolding any_of
any_of-tally f [] h = absurd (true≢false (sym h))
any_of-tally f (x ∷ xs) h = elim (Bool-cases (f x)) [
  | inl here ↦ (x, here, tally_here x xs)
  | inr there ↦
      let (id, a, b) = any_of-tally f xs (sym (rw there refl) ∙ h) in (id, a, tally_later id x xs b)
]

tally-any_of :
    (f : ℕ → Bool) (id : ℕ) (xs : List ℕ) → f id ≡ true → 0 < tally id xs → any_of f xs ≡ true
unfolding any_of tally
tally-any_of f id [] h k = absurd (omega (arith, k))
tally-any_of f id (x ∷ xs) h k = elim (same_number x id) [
  | inl here ↦ rw (here, h) refl
  | inr there ↦ ground (arith, there, k, tally-any_of f id xs h)
]

-- Two lists with the same numbers.
any_of_same :
    (f : ℕ → Bool) (xs ys : List ℕ)
    → ((id : ℕ) → tally id xs ≡ tally id ys)
    → any_of f xs ≡ any_of f ys
any_of_same f xs ys e = elim (Bool-cases (any_of f xs)) [
  | inl hit ↦
      let (id, a, b) = any_of-tally f xs hit in
      hit ∙ sym (tally-any_of f id ys a (omega (arith, b, e id)))
  | inr missed ↦ elim (Bool-cases (any_of f ys)) [
    | inl hit ↦
        let (id, a, b) = any_of-tally f ys hit in
        absurd (true≢false (sym (tally-any_of f id xs a (omega (arith, b, e id))) ∙ missed))
    | inr never ↦ missed ∙ sym never
  ]
]

any_of-map :
    (e : MatchEntry) (es : List MatchEntry) (xs : List ℕ)
    → has_entry e (map (λ idx. get_or es idx no_entry) xs)
      ≡ any_of (λ idx. same_entry (get_or es idx no_entry) e) xs
unfolding has_entry any_of
any_of-map e es [] = refl
any_of-map e es (x ∷ xs) = rw (any_of-map e es xs) refl

-- The patterns with their numbers.
unfoldable numbered : ℕ → List (Bytes × MatchEntry) → List (Bytes × ℕ)
numbered i [] = []
numbered i ((p, x) ∷ ps) = (p, i % u32_mod) ∷ numbered (i + 1) ps

rebuild_loop-numbered :
    (i : ℕ) (ps : List (Bytes × MatchEntry)) (trie : SubjectTrie)
    → rebuild_loop i ps trie ≡ insert_patterns trie (numbered i ps)
unfolding rebuild_loop insert_patterns numbered
rebuild_loop-numbered i [] trie = refl
rebuild_loop-numbered i ((p, x) ∷ ps) trie =
    rebuild_loop-numbered (i + 1) ps (insert_pattern trie p (i % u32_mod))

-- Whether a pattern of an entry matches.
unfoldable pub any_pattern : MatchEntry → Bytes → List (Bytes × MatchEntry) → Bool
any_pattern e subject [] = false
any_pattern e subject ((p, x) ∷ ps) =
    (subject_matches p subject && same_entry x e) || any_pattern e subject ps

any_of-matching :
    (e : MatchEntry) (subject : Bytes) (es : List MatchEntry) (i : ℕ)
    (ps : List (Bytes × MatchEntry))
    → i + length ps ≤ u32_mod
    → ((k : ℕ) → get_or es (i + k) no_entry ≡ get_or (seconds ps) k no_entry)
    → any_of (λ idx. same_entry (get_or es idx no_entry) e) (matching subject (numbered i ps))
      ≡ any_pattern e subject ps
unfolding any_of matching numbered any_pattern seconds
any_of-matching e subject es i [] room at = refl
any_of-matching e subject es i ((p, x) ∷ ps) room at =
    let ih =
      any_of-matching e subject es (i + 1) ps (omega (arith, room))
        (λ k. ap (λ j. get_or es j no_entry) (omega arith) ∙ at (suc k)) in
    let here : get_or es (i % u32_mod) no_entry ≡ x =
      ap (λ j. get_or es j no_entry) (omega (arith, room)) ∙ at 0 in
    elim (Bool-cases (subject_matches p subject)) [
      | inl hit ↦ rw (hit, here, ih) refl
      | inr missed ↦ rw (missed, ih) refl
    ]

unfoldable pub token_total : List (Bytes × MatchEntry) → ℕ
token_total [] = 0
token_total ((p, x) ∷ ps) = length (tokens p) + token_total ps

token_count-numbered :
    (i : ℕ) (ps : List (Bytes × MatchEntry)) → token_count (numbered i ps) ≡ token_total ps
unfolding token_count numbered token_total
token_count-numbered i [] = refl
token_count-numbered i ((p, x) ∷ ps) = rw (token_count-numbered (i + 1) ps) refl

NoGap-numbered :
    (i : ℕ) (ps : List (Bytes × MatchEntry))
    → All (λ p. NoGap p.0) ps
    → All (λ p. NoGap p.0) (numbered i ps)
unfolding numbered
NoGap-numbered i [] h = tt
NoGap-numbered i ((p, x) ∷ ps) h = (h.0, NoGap-numbered (i + 1) ps h.1)

-- The patterns fit the trie and have no empty token.
abbrev pub Fits : List (Bytes × MatchEntry) → Type 0
Fits ps = (length ps ≤ u32_mod) × (token_total ps < u32_mod) × All (λ p. NoGap p.0) ps

either_way :
    {x y : List MatchEntry} (b : Bool)
    → x ≡ y
    → (e : MatchEntry) → has_entry e (if b then x else y) ≡ has_entry e y
either_way true h e = ap (has_entry e) h
either_way false h e = refl

-- The trie and the entries are those of the patterns.
abbrev pub InStep : MatchTable → Type 0
InStep t =
    (t.pattern_trie ≡ rebuild_loop 0 t.patterns SubjectTrie.new)
    × (t.pattern_entries ≡ seconds t.patterns)

-- Where the trie and the entries are those of the patterns, `resolve_patterns_readonly` adds to the
-- output the entries of the patterns that match, whichever way it looks for duplicates.
pub resolve_patterns_readonly-any_pattern :
    (t : MatchTable) (subject : Bytes) (out : List MatchEntry) (e : MatchEntry)
    → InStep t
    → Fits t.patterns
    → NoGap subject
    → has_entry e (resolve_patterns_readonly t subject out)
      ≡ (has_entry e out || any_pattern e subject t.patterns)
unfolding resolve_patterns_readonly
resolve_patterns_readonly-any_pattern t subject out e (trie, entries) (few, room, ordered) hs =
    let ids = find_matches t.pattern_trie subject in
    let found = map (λ idx. get_or t.pattern_entries idx no_entry) ids in
    either_way (leb dedup_threshold (length out))
      (push_unseen-push_new (push_new [] out) out found
        (λ x. has_entry-push_new x [] out ∙ (unfold has_entry in refl)))
      e
    ∙ has_entry-push_new e out found
    ∙ ap (λ b. has_entry e out || b)
        (any_of-map e t.pattern_entries ids
          ∙ any_of_same (λ idx. same_entry (get_or t.pattern_entries idx no_entry) e) ids
              (matching subject (numbered 0 t.patterns))
              (λ id.
                ap (λ r. tally id (find_matches r subject))
                  (trie ∙ rebuild_loop-numbered 0 t.patterns SubjectTrie.new)
                ∙ find_matches-matching (numbered 0 t.patterns) subject id
                    (omega (arith, token_count-numbered 0 t.patterns, room)) hs
                    (NoGap-numbered 0 t.patterns ordered))
          ∙ any_of-matching e subject t.pattern_entries 0 t.patterns (omega (arith, few)) (λ k.
            ap (λ j. get_or t.pattern_entries j no_entry) (omega arith)
            ∙ ap (λ l. get_or l k no_entry) entries))
