-- ===== src/SubjectTrie/Written.antt =====
-- crates/arbitro-engine/src/common/trie.rs: a push at a node keeps a tree a tree, and adds a number
-- where the path to the node matches.
use mathlib.Core.Path.{subst}
use arbitro.SubjectTrie.Pushing.{on_path, plus_none}
use arbitro.Common.{
  List, [], ap, arith, get_or-set_ne, get_or-set_self, if◌then◌else◌, inl, inr, length, length-set,
  refl, same_number, set, some, suc, sym, ℕ, ◌++◌, ◌+◌, ◌<◌, ◌==◌, ◌∙◌, ◌∷◌, ◌≡◌, ◌≢◌, ◌≤◌,
}
use arbitro.Subject.{Bytes, bytes_eq, gt, star}
use arbitro.Subject.Match.{matches_tokens}
use arbitro.SubjectTrie.{TrieNode, empty_node, find_literal, node_at, push_gt, push_sub}
use arbitro.SubjectTrie.Links.{IsTree, child}
use arbitro.SubjectTrie.Counting.{found_below, tally, tally-append}
use arbitro.SubjectTrie.Paths.{below, node_of}

tally_end :
    (id sub_id : ℕ) (xs : List ℕ)
    → tally id (xs ++ sub_id ∷ []) ≡ tally id xs + (if sub_id == id then 1 else 0)
unfolding tally
tally_end id sub_id xs = tally-append id xs (sub_id ∷ []) ∙ omega arith

module _ (nodes : List TrieNode) (f : ℕ) (node : TrieNode) (h : f < length nodes) where
  self : node_at (set nodes f node) f ≡ node
  self = get_or-set_self nodes f node empty_node h

  other : (k : ℕ) → k ≢ f → node_at (set nodes f node) k ≡ node_at nodes k
  other k ne = get_or-set_ne nodes f k node empty_node (λ e. ne (sym e))

  kept {ℓ} :
      {A : Type ℓ} (g : TrieNode → A)
      → g node ≡ g (node_at nodes f)
      → (k : ℕ) → g (node_at (set nodes f node) k) ≡ g (node_at nodes k)
  kept g e k = elim (same_number k f) [
    | inl here ↦
        subst (λ j. g (node_at (set nodes f node) j) ≡ g (node_at nodes j)) (sym here)
          (ap g self ∙ e)
    | inr ne ↦ ap g (other k ne)
  ]

  kept_child :
      node.literals ≡ (node_at nodes f).literals
      → node.wildcard_star ≡ (node_at nodes f).wildcard_star
      → (k : ℕ) (u : Bytes) → child (set nodes f node) k u ≡ child nodes k u
  unfolding child
  kept_child e g k u = rw (kept (λ n. n.literals) e k, kept (λ n. n.wildcard_star) g k) refl

  kept-IsTree :
      node.literals ≡ (node_at nodes f).literals
      → node.wildcard_star ≡ (node_at nodes f).wildcard_star
      → IsTree nodes
      → IsTree (set nodes f node)
  kept-IsTree e g tree = record {
    bounded =
        λ i t j l. rw (length-set nodes f node) (tree.bounded i t j (sym (kept_child e g i t) ∙ l));
    single = λ i t k u j l m.
        tree.single i t k u j (sym (kept_child e g i t) ∙ l) (sym (kept_child e g k u) ∙ m);
    plain_star = λ i. ap (find_literal star) (kept (λ n. n.literals) e i) ∙ tree.plain_star i;
    plain_gt = λ i. ap (find_literal gt) (kept (λ n. n.literals) e i) ∙ tree.plain_gt i;
  }

-- The number is found as often as before, and once more where the pattern matches.
abbrev pub Inserts : List TrieNode → List Bytes → ℕ → ℕ → List TrieNode → Type 0
Inserts nodes pattern' steps sub_id inserted =
    IsTree inserted
    × (length nodes ≤ length inserted)
    × (length inserted ≤ length nodes + steps)
    × ((id : ℕ) (ts : List Bytes)
        → found_below inserted id 0 ts
          ≡ found_below nodes id 0 ts
            + (if matches_tokens pattern' ts then (if sub_id == id then 1 else 0) else 0))

pub push_sub-Inserts :
    (nodes : List TrieNode) (f sub_id : ℕ) (r up : List Bytes)
    → IsTree nodes
    → f < length nodes
    → node_of nodes up ≡ some f
    → below r [] ≡ up
    → Inserts nodes (r ++ []) 0 sub_id (push_sub nodes f sub_id)
unfolding push_sub node_of matches_tokens
push_sub-Inserts nodes f sub_id r up tree h at e =
    let node = record (node_at nodes f) { subs = (node_at nodes f).subs ++ sub_id ∷ [] } in
    (
      kept-IsTree nodes f node h refl refl tree,
      omega (arith, length-set nodes f node),
      omega (arith, length-set nodes f node),
      λ id ts.
          on_path nodes (set nodes f node) f up [] id (if sub_id == id then 1 else 0) tree at
            (kept_child nodes f node h refl refl)
            (λ k ne. ap (λ n. n.subs) (other nodes f node h k ne))
            (λ k ne. kept nodes f node h (λ n. n.wildcard_gt) refl k)
            (ap (λ n. tally id n.subs) (self nodes f node h)
              ∙ tally_end id sub_id (node_at nodes f).subs)
            (λ t ts.
              ap (tally id) (kept nodes f node h (λ n. n.wildcard_gt) refl f)
              ∙ plus_none (tally id (node_at nodes f).wildcard_gt))
            r [] 0 ts refl e,
    )

pub push_gt-Inserts :
    (nodes : List TrieNode) (f sub_id : ℕ) (r up rest : List Bytes)
    → IsTree nodes
    → f < length nodes
    → node_of nodes up ≡ some f
    → below r [] ≡ up
    → Inserts nodes (r ++ gt ∷ rest) (suc (length rest)) sub_id (push_gt nodes f sub_id)
unfolding push_gt node_of matches_tokens bytes_eq
push_gt-Inserts nodes f sub_id r up rest tree h at e =
    let node = record (node_at nodes f) {
      wildcard_gt = (node_at nodes f).wildcard_gt ++ sub_id ∷ [];
    } in
    (
      kept-IsTree nodes f node h refl refl tree,
      omega (arith, length-set nodes f node),
      omega (arith, length-set nodes f node),
      λ id ts.
          on_path nodes (set nodes f node) f up (gt ∷ rest) id (if sub_id == id then 1 else 0) tree
            at (kept_child nodes f node h refl refl)
            (λ k ne. kept nodes f node h (λ n. n.subs) refl k)
            (λ k ne. ap (λ n. n.wildcard_gt) (other nodes f node h k ne))
            (ap (tally id) (kept nodes f node h (λ n. n.subs) refl f)
              ∙ plus_none (tally id (node_at nodes f).subs))
            (λ t ts.
              ap (λ n. tally id n.wildcard_gt) (self nodes f node h)
              ∙ tally_end id sub_id (node_at nodes f).wildcard_gt)
            r [] 0 ts refl e,
    )
