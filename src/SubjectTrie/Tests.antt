-- ===== src/SubjectTrie/Tests.antt =====
-- The trie at concrete patterns and subjects.
use arbitro.Common.{
  All, List, [], arith, if◌then◌else◌, length, refl, ℕ, ◌+◌, ◌<◌, ◌==◌, ◌∷◌, ◌≡◌, ◌≤◌,
}
use arbitro.Subject.{Bytes, bytes_eq, next_token}
use arbitro.SubjectTrie.{
  budget, find_literal, find_matches, insert_loop, insert_pattern, literal_child, match_loop, new,
  push_gt, push_sub, star_child,
}
use arbitro.SubjectTrie.Counting.{tally}
use arbitro.SubjectTrie.Inserting.{IsTrie}
use arbitro.SubjectTrie.Matching.{
  find_matches-insert_pattern, find_matches-matching, insert_patterns, matching, new-IsTrie,
  token_count,
}
use arbitro.Subject.Tokens.{NoGap, cons_head, tokens}
use arbitro.Subject.Match.{matches_tokens}
use arbitro.Common.Word.{u32_mod}

-- `a.*`, `a.>` and `a.b`, and the subject `a.b`.
abbrev three : List (Bytes × ℕ)
three = (97 ∷ 46 ∷ 42 ∷ [], 1) ∷ (97 ∷ 46 ∷ 62 ∷ [], 2) ∷ (97 ∷ 46 ∷ 98 ∷ [], 3) ∷ []

abbrev a_b : Bytes
a_b = 97 ∷ 46 ∷ 98 ∷ []

three_found : find_matches (insert_patterns new three) a_b ≡ 2 ∷ 1 ∷ 3 ∷ []
unfolding insert_patterns insert_pattern insert_loop star_child literal_child push_gt push_sub
    find_matches match_loop find_literal budget next_token bytes_eq
three_found = refl

a_b-NoGap : NoGap a_b
unfolding tokens cons_head
a_b-NoGap = ((λ e. absurd (cc)), ((λ e. absurd (cc)), tt))

three-NoGap : All (λ p. NoGap p.0) three
unfolding tokens cons_head
three-NoGap = (
  ((λ e. absurd (cc)), ((λ e. absurd (cc)), tt)),
  (
    ((λ e. absurd (cc)), ((λ e. absurd (cc)), tt)),
    (((λ e. absurd (cc)), ((λ e. absurd (cc)), tt)), tt),
  ),
)

three_room : token_count three < u32_mod
unfolding token_count tokens cons_head
three_room = omega arith

find_matches-matching_example :
    tally 3 (find_matches (insert_patterns new three) a_b) ≡ tally 3 (matching a_b three)
find_matches-matching_example = find_matches-matching three a_b 3 three_room a_b-NoGap three-NoGap

one_room : length new.nodes + length (tokens a_b) ≤ u32_mod
unfolding tokens cons_head
one_room = omega arith

find_matches-insert_pattern_example :
    IsTrie (insert_pattern new a_b 7)
    × (tally 7 (find_matches (insert_pattern new a_b 7) a_b)
        ≡ tally 7 (find_matches new a_b)
          + (if matches_tokens (tokens a_b) (tokens a_b) then (if 7 == 7 then 1 else 0) else 0))
find_matches-insert_pattern_example =
    find_matches-insert_pattern new a_b a_b 7 7 new-IsTrie one_room
