-- ===== src/SubjectTrie.antt =====
-- crates/arbitro-engine/src/common/trie.rs: the subject trie. The nodes stand in one list, and links
-- are positions in it. A node that is not there reads as an empty one; in a trie that `insert` has
-- built every link leads to a node.
pub mod Links
pub mod Counting
pub mod Paths
pub mod Pushing
pub mod Written
pub mod Inserting
pub mod Matching
pub mod Valid
mod Tests
pub mod Finding
use arbitro.Common.{
  Bool, List, Option, Result, [], err, false, get_or, if◌then◌else◌, length, none, not, ok, set,
  some, suc, zero, ℕ, ◌%◌, ◌&&◌, ◌*◌, ◌++◌, ◌+◌, ◌==◌, ◌||◌, ◌∷◌,
}
use arbitro.Common.Word.{u32_mod}
use arbitro.Subject.{Bytes, bytes_eq, dot, gt, is_empty, next_token, star}

pub data PatternError : Type 0 where
  empty empty_token tokens_after_gt : PatternError

unfoldable pub validate_loop : ℕ → Bytes → Result {0, 0} PatternError Unit
validate_loop fuel [] = ok tt
validate_loop zero (c ∷ p) = err empty
validate_loop (suc fuel) (c ∷ p) =
    let (token, rest) = next_token (c ∷ p) in
    let later = validate_loop fuel rest in
    if is_empty token
    then err empty_token
    else if bytes_eq token gt && not (is_empty rest)
    then err tokens_after_gt
    else later

unfoldable pub ends_in_dot : Bytes → Bool
ends_in_dot [] = false
ends_in_dot (c ∷ []) = c == dot
ends_in_dot (c ∷ d ∷ p) = ends_in_dot (d ∷ p)

unfoldable pub validate_pattern : Bytes → Result {0, 0} PatternError Unit
validate_pattern [] = err empty
validate_pattern (c ∷ p) =
    if (c == dot) || ends_in_dot (c ∷ p)
    then err empty_token
    else validate_loop (length (c ∷ p)) (c ∷ p)

pub record TrieNode : Type 0 where
  pub literals : List (Bytes × ℕ)
  pub wildcard_star : Option ℕ
  pub wildcard_gt : List ℕ
  pub subs : List ℕ

abbrev pub empty_node : TrieNode
empty_node = record { literals = []; wildcard_star = none; wildcard_gt = []; subs = [] }

pub record SubjectTrie : Type 0 where
  pub nodes : List TrieNode

abbrev pub new : SubjectTrie
new = record { nodes = empty_node ∷ [] }

abbrev pub node_at : List TrieNode → ℕ → TrieNode
node_at nodes i = get_or nodes i empty_node

unfoldable pub find_literal : Bytes → List (Bytes × ℕ) → Option ℕ
find_literal token [] = none
find_literal token ((t, idx) ∷ ls) =
    let rest = find_literal token ls in if bytes_eq t token then some idx else rest

-- A link to a node, made where it is missing: the nodes, and where the loop goes on.
unfoldable pub star_child : List TrieNode → ℕ → List TrieNode × ℕ
star_child nodes curr = elim (node_at nodes curr).wildcard_star [
  | some idx ↦ (nodes, idx)
  | none ↦
      let idx = length nodes in
      (
        set (nodes ++ empty_node ∷ []) curr
            (record (node_at nodes curr) { wildcard_star = some (idx % u32_mod) }),
        idx,
      )
]

unfoldable pub literal_child : List TrieNode → ℕ → Bytes → List TrieNode × ℕ
literal_child nodes curr lit = elim (find_literal lit (node_at nodes curr).literals) [
  | some idx ↦ (nodes, idx)
  | none ↦
      let idx = length nodes in
      let node = node_at nodes curr in
      (
        set (nodes ++ empty_node ∷ []) curr
            (record node { literals = node.literals ++ (lit, idx % u32_mod) ∷ [] }),
        idx,
      )
]

unfoldable pub push_gt : List TrieNode → ℕ → ℕ → List TrieNode
push_gt nodes curr sub_id =
    let node = node_at nodes curr in
    set nodes curr (record node { wildcard_gt = node.wildcard_gt ++ sub_id ∷ [] })

unfoldable pub push_sub : List TrieNode → ℕ → ℕ → List TrieNode
push_sub nodes curr sub_id =
    let node = node_at nodes curr in
    set nodes curr (record node { subs = node.subs ++ sub_id ∷ [] })

-- The loop of `insert`, on fuel: one token in each round.
unfoldable pub insert_loop : ℕ → List TrieNode → ℕ → Bytes → ℕ → List TrieNode
insert_loop fuel nodes curr [] sub_id = push_sub nodes curr sub_id
insert_loop zero nodes curr (c ∷ p) sub_id = nodes
insert_loop (suc fuel) nodes curr (c ∷ p) sub_id =
    let (token, rest) = next_token (c ∷ p) in
    let (grown, next) =
      if bytes_eq token star then star_child nodes curr else literal_child nodes curr token in
    let inserted = insert_loop fuel grown next rest sub_id in
    if bytes_eq token gt then push_gt nodes curr sub_id else inserted

unfoldable pub insert_pattern : SubjectTrie → Bytes → ℕ → SubjectTrie
insert_pattern t pattern' sub_id = record {
  nodes = insert_loop (length pattern') t.nodes 0 pattern' sub_id;
}

-- A link that is there, on top of the stack.
abbrev pub push_link : Option ℕ → Bytes → List (ℕ × Bytes) → List (ℕ × Bytes)
push_link none rest stack = stack
push_link (some idx) rest stack = (idx, rest) ∷ stack

-- The loop of `find_matches` on fuel: the numbers that it passes to the callback, in order.
unfoldable pub match_loop : ℕ → List TrieNode → List (ℕ × Bytes) → List ℕ
match_loop fuel nodes [] = []
match_loop zero nodes (x ∷ stack) = []
match_loop (suc fuel) nodes ((i, []) ∷ stack) =
    (node_at nodes i).subs ++ match_loop fuel nodes stack
match_loop (suc fuel) nodes ((i, c ∷ s) ∷ stack) =
    let node = node_at nodes i in
    let (token, rest) = next_token (c ∷ s) in
    node.wildcard_gt
    ++ match_loop fuel nodes (
        push_link node.wildcard_star rest (push_link (find_literal token node.literals) rest stack))

-- No more rounds than this are needed, since each token has two links at most.
unfoldable pub budget : Bytes → ℕ
budget [] = 1
budget (c ∷ s) = budget s * 2 + 1

unfoldable pub find_matches : SubjectTrie → Bytes → List ℕ
find_matches t subject = match_loop (budget subject) t.nodes ((0, subject) ∷ [])

abbrev pub node_count : SubjectTrie → ℕ
node_count t = length t.nodes

abbrev pub clear : SubjectTrie → SubjectTrie
clear t = new
