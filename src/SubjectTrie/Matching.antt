-- ===== src/SubjectTrie/Matching.antt =====
-- crates/arbitro-engine/src/common/trie.rs: the trie finds the patterns that match.
use arbitro.Common.{
  All, List, [], ap, arith, if◌then◌else◌, length, none, refl, suc, sym, zero, ℕ, ◌+◌, ◌<◌, ◌==◌,
  ◌∙◌, ◌∷◌, ◌≡◌, ◌≤◌,
}
use arbitro.Common.Word.{u32_mod}
use arbitro.Subject.{Bytes, bytes_eq, gt, star, subject_matches}
use arbitro.Subject.Tokens.{NoGap, tokens}
use arbitro.Subject.Match.{matches_tokens, subject_matches-tokens}
use arbitro.SubjectTrie.{SubjectTrie, find_literal, find_matches, insert_pattern, new, node_at}
use arbitro.SubjectTrie.Links.{child, never_both}
use arbitro.SubjectTrie.Counting.{found_below, tally}
use arbitro.SubjectTrie.Inserting.{IsTrie, insert_pattern-Inserts}
use arbitro.SubjectTrie.Finding.{find_matches-found}

new-child : (i : ℕ) (t : Bytes) → child new.nodes i t ≡ none
unfolding child find_literal bytes_eq
new-child zero t = ground arith
new-child (suc i) t = ground arith

new_plain : (t : Bytes) (i : ℕ) → find_literal t (node_at new.nodes i).literals ≡ none
unfolding find_literal
new_plain t zero = refl
new_plain t (suc i) = refl

pub new-IsTrie : IsTrie new
unfolding find_literal
new-IsTrie = (
  record {
    bounded = λ i t j e. absurd (never_both e (new-child i t));
    single = λ i t k u j e f. absurd (never_both e (new-child i t));
    plain_star = λ i. new_plain star i;
    plain_gt = λ i. new_plain gt i;
  },
  omega arith,
)

new_finds : (id : ℕ) (ts : List Bytes) → found_below new.nodes id 0 ts ≡ 0
unfolding found_below tally
new_finds id [] = refl
new_finds id (t ∷ ts) = rw (new-child 0 star, new-child 0 t) (ground arith)

-- An insertion into a trie that has room for the pattern's nodes: `find_matches` passes the new number
-- once more than before where the pattern's tokens match the subject's, all other numbers as often as
-- before, and the trie stays one. The subject and the pattern may have empty tokens.
pub find_matches-insert_pattern :
    (t : SubjectTrie) (pattern' subject : Bytes) (sub_id id : ℕ)
    → IsTrie t
    → length t.nodes + length (tokens pattern') ≤ u32_mod
    → IsTrie (insert_pattern t pattern' sub_id)
      × (tally id (find_matches (insert_pattern t pattern' sub_id) subject)
          ≡ tally id (find_matches t subject)
            + (if matches_tokens (tokens pattern') (tokens subject)
                then (if sub_id == id then 1 else 0)
                else 0))
find_matches-insert_pattern t pattern' subject sub_id id trie room =
    let (tree, more, _, found) = insert_pattern-Inserts t pattern' sub_id trie room in
    let after = insert_pattern t pattern' sub_id in
    (
      (tree, omega (arith, more, trie.1)),
      find_matches-found after subject id tree
          ∙ found id (tokens subject)
          ∙ ap
              (λ n.
                n
                + (if matches_tokens (tokens pattern') (tokens subject)
                    then (if sub_id == id then 1 else 0)
                    else 0))
              (sym (find_matches-found t subject id trie.0)),
    )

-- The patterns of a list that match, by their numbers.
unfoldable pub matching : Bytes → List (Bytes × ℕ) → List ℕ
matching subject [] = []
matching subject ((p, id) ∷ ps) =
    let rest = matching subject ps in if subject_matches p subject then id ∷ rest else rest

unfoldable pub insert_patterns : SubjectTrie → List (Bytes × ℕ) → SubjectTrie
insert_patterns t [] = t
insert_patterns t ((p, id) ∷ ps) = insert_patterns (insert_pattern t p id) ps

unfoldable pub token_count : List (Bytes × ℕ) → ℕ
token_count [] = 0
token_count ((p, id) ∷ ps) = length (tokens p) + token_count ps

find_matches-insert_patterns :
    (t : SubjectTrie) (subject : Bytes) (ps : List (Bytes × ℕ)) (id : ℕ)
    → IsTrie t
    → length t.nodes + token_count ps ≤ u32_mod
    → NoGap subject
    → All (λ p. NoGap p.0) ps
    → tally id (find_matches (insert_patterns t ps) subject)
      ≡ tally id (find_matches t subject) + tally id (matching subject ps)
unfolding insert_patterns matching token_count tally
find_matches-insert_patterns t subject [] id trie room hs hp = omega arith
find_matches-insert_patterns t subject ((p, k) ∷ ps) id trie room hs hp =
    let (_, _, less, _) = insert_pattern-Inserts t p k trie (omega (arith, room)) in
    let (trie', here) = find_matches-insert_pattern t p subject k id trie (omega (arith, room)) in
    let rest =
      find_matches-insert_patterns (insert_pattern t p k) subject ps id trie'
        (omega (arith, room, less)) hs hp.1 in
    rw (subject_matches-tokens p subject hp.0 hs) (rest ∙ ground (arith, here))

-- A trie that is built from patterns, with their numbers, passes for a subject each number as often
-- as `subject_matches` accepts a pattern with that number, where no token of the subject or of a
-- pattern is empty and the nodes can be numbered with 32 bits.
pub find_matches-matching :
    (ps : List (Bytes × ℕ)) (subject : Bytes) (id : ℕ)
    → token_count ps < u32_mod
    → NoGap subject
    → All (λ p. NoGap p.0) ps
    → tally id (find_matches (insert_patterns new ps) subject) ≡ tally id (matching subject ps)
find_matches-matching ps subject id room hs hp =
    find_matches-insert_patterns new subject ps id new-IsTrie (omega (arith, room)) hs hp
    ∙ ap (λ n. n + tally id (matching subject ps))
        (find_matches-found new subject id new-IsTrie.0 ∙ new_finds id (tokens subject))
    ∙ omega arith
