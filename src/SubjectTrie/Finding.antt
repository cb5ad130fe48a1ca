-- ===== src/SubjectTrie/Finding.antt =====
-- crates/arbitro-engine/src/common/trie.rs: the loop of `find_matches` ends within its fuel, and
-- passes on what is found below the root.
use arbitro.Common.{
  List, Option, [], ap, arith, if◌then◌else◌, inl, inr, none, refl, some, suc, zero, ℕ, ◌+◌, ◌∙◌,
  ◌∷◌, ◌≡◌, ◌≤◌,
}
use arbitro.Subject.{Bytes, bytes_eq, next_token, star}
use arbitro.Subject.Tokens.{tokens, tokens-next}
use arbitro.Subject.Match.{bytes_eq_refl}
use arbitro.SubjectTrie.{
  SubjectTrie, TrieNode, budget, find_literal, find_matches, match_loop, node_at, push_link,
}
use arbitro.SubjectTrie.Links.{IsTree, child, ne-bytes_eq, same_bytes}
use arbitro.SubjectTrie.Inserting.{tokens_end}
use arbitro.SubjectTrie.Counting.{found_below, tally, tally-append, via}

budget-next : (c : ℕ) (s : Bytes) → budget (next_token (c ∷ s)).1 ≤ budget s
unfolding budget next_token
budget-next c [] = ground arith
budget-next c (d ∷ s) = ground (arith, budget-next d s)

-- What the pairs on the stack still cost, and what is found below them.
unfoldable cost : List (ℕ × Bytes) → ℕ
cost [] = 0
cost ((i, s) ∷ stack) = budget s + cost stack

unfoldable found_on : List TrieNode → ℕ → List (ℕ × Bytes) → ℕ
found_on nodes id [] = 0
found_on nodes id ((i, s) ∷ stack) = found_below nodes id i (tokens s) + found_on nodes id stack

cost-push_link :
    (o : Option ℕ) (s : Bytes) (stack : List (ℕ × Bytes))
    → cost (push_link o s stack) ≤ budget s + cost stack
unfolding cost
cost-push_link none s stack = omega arith
cost-push_link (some i) s stack = omega arith

found_on-push_link :
    (nodes : List TrieNode) (id : ℕ) (o : Option ℕ) (s : Bytes) (stack : List (ℕ × Bytes))
    → found_on nodes id (push_link o s stack)
      ≡ via o (λ j. found_below nodes id j (tokens s)) + found_on nodes id stack
unfolding found_on
found_on-push_link nodes id none s stack = omega arith
found_on-push_link nodes id (some i) s stack = refl

literal_link :
    (nodes : List TrieNode) (i : ℕ) (t : Bytes)
    → IsTree nodes
    → find_literal t (node_at nodes i).literals
      ≡ (if bytes_eq t star then none else child nodes i t)
unfolding child
literal_link nodes i t tree = elim (same_bytes t star) [
  | inl e ↦ rw (e, bytes_eq_refl star) (tree.plain_star i)
  | inr ne ↦ rw (ne-bytes_eq t star ne) refl
]

star_link : (nodes : List TrieNode) (i : ℕ) → (node_at nodes i).wildcard_star ≡ child nodes i star
unfolding child bytes_eq
star_link nodes i = refl

match_loop-found :
    (fuel : ℕ) (nodes : List TrieNode) (id : ℕ) (stack : List (ℕ × Bytes))
    → IsTree nodes
    → cost stack ≤ fuel
    → tally id (match_loop fuel nodes stack) ≡ found_on nodes id stack
unfolding match_loop found_on found_below tally cost budget
match_loop-found zero nodes id [] tree h = refl
match_loop-found (suc fuel) nodes id [] tree h = refl
match_loop-found zero nodes id ((i, []) ∷ stack) tree h = absurd (omega (arith, h))
match_loop-found zero nodes id ((i, c ∷ s) ∷ stack) tree h = absurd (omega (arith, h))
match_loop-found (suc fuel) nodes id ((i, []) ∷ stack) tree h =
    tally-append id (node_at nodes i).subs (match_loop fuel nodes stack)
    ∙ ap (λ n. tally id (node_at nodes i).subs + n)
        (match_loop-found fuel nodes id stack tree (omega (arith, h)))
    ∙ rw tokens_end refl
match_loop-found (suc fuel) nodes id ((i, c ∷ s) ∷ stack) tree h =
    let node = node_at nodes i in
    let (token, rest) = next_token (c ∷ s) in
    let literal = find_literal token node.literals in
    let inner = push_link literal rest stack in
    let ih = match_loop-found fuel nodes id (push_link node.wildcard_star rest inner) tree (
      omega (
        arith,
        h,
        budget-next c s,
        cost-push_link node.wildcard_star rest inner,
        cost-push_link literal rest stack,
      )) in
    tally-append id node.wildcard_gt
      (match_loop fuel nodes (push_link node.wildcard_star rest inner))
    ∙ ap (λ n. tally id node.wildcard_gt + n)
        (ih
          ∙ found_on-push_link nodes id node.wildcard_star rest inner
          ∙ ap (λ n. via node.wildcard_star (λ j. found_below nodes id j (tokens rest)) + n)
              (found_on-push_link nodes id literal rest stack))
    ∙ rw (tokens-next c s, literal_link nodes i token tree, star_link nodes i) (omega arith)

-- In a tree `find_matches` passes each number as often as it is found below the root.
pub find_matches-found :
    (t : SubjectTrie) (subject : Bytes) (id : ℕ)
    → IsTree t.nodes
    → tally id (find_matches t subject) ≡ found_below t.nodes id 0 (tokens subject)
unfolding find_matches cost found_on
find_matches-found t subject id tree =
    match_loop-found (budget subject) t.nodes id ((0, subject) ∷ []) tree (omega arith)
    ∙ omega arith
