-- ===== src/SubjectTrie/Counting.antt =====
-- crates/arbitro-engine/src/common/trie.rs: how often a number is found below a node, and what a growth
-- and a push change in that.
use arbitro.SubjectTrie.Links.{Grows, child, same_bytes}
use arbitro.Common.{
  Bool, List, Option, [], ap, arith, false, get_or_above, if◌then◌else◌, inl, inr, length, none,
  refl, same_number, some, true, ℕ, ◌++◌, ◌+◌, ◌==◌, ◌∙◌, ◌∷◌, ◌≡◌, ◌≤◌,
}
use arbitro.Subject.{Bytes, bytes_eq, star}
use arbitro.SubjectTrie.{TrieNode, empty_node, find_literal, node_at}

unfoldable pub tally : ℕ → List ℕ → ℕ
tally id [] = 0
tally id (x ∷ xs) = (if x == id then 1 else 0) + tally id xs

pub tally-append : (id : ℕ) (xs ys : List ℕ) → tally id (xs ++ ys) ≡ tally id xs + tally id ys
unfolding tally
tally-append id [] ys = omega arith
tally-append id (x ∷ xs) ys = omega (arith, tally-append id xs ys)

abbrev pub via : Option ℕ → (ℕ → ℕ) → ℕ
via none f = 0
via (some i) f = f i

-- How often a number is found below a node, for the tokens that are left.
unfoldable pub found_below : List TrieNode → ℕ → ℕ → List Bytes → ℕ
found_below nodes id i [] = tally id (node_at nodes i).subs
found_below nodes id i (t ∷ ts) =
    tally id (node_at nodes i).wildcard_gt
    + (via (child nodes i star) (λ j. found_below nodes id j ts)
        + via (if bytes_eq t star then none else child nodes i t) (λ j. found_below nodes id j ts))

-- No number is found below a node that is not there.
found_below_outside :
    (nodes : List TrieNode) (id i : ℕ) (ts : List Bytes)
    → length nodes ≤ i
    → found_below nodes id i ts ≡ 0
unfolding found_below tally child find_literal bytes_eq
found_below_outside nodes id i [] h = rw (get_or_above nodes i empty_node h) refl
found_below_outside nodes id i (t ∷ ts) h = rw (get_or_above nodes i empty_node h) (ground arith)

pub via_same :
    (o p : Option ℕ) (f g : ℕ → ℕ) → o ≡ p → ((i : ℕ) → p ≡ some i → f i ≡ g i) → via o f ≡ via p g
via_same o none f g e h = rw e refl
via_same o (some i) f g e h = rw e (h i refl)

-- A new node is empty, so nothing more is found.
module _ (nodes grown : List TrieNode) (i : ℕ) (t : Bytes) (g : Grows nodes i t grown)
    (fresh : child nodes i t ≡ none) (id : ℕ) where
  link_found :
      (ts : List Bytes)
      → ((k : ℕ) → found_below grown id k ts ≡ found_below nodes id k ts)
      → (k : ℕ) (u : Bytes)
      → via (child grown k u) (λ j. found_below grown id j ts)
        ≡ via (child nodes k u) (λ j. found_below nodes id j ts)
  link_found ts alike k u = elim (same_number k i) [
    | inr ne ↦
        via_same (child grown k u) (child nodes k u) (λ j. found_below grown id j ts)
          (λ j. found_below nodes id j ts) (g.others k u (inl ne)) (λ j e. alike j)
    | inl here ↦ elim (same_bytes u t) [
      | inr ne ↦
          via_same (child grown k u) (child nodes k u) (λ j. found_below grown id j ts)
            (λ j. found_below nodes id j ts) (g.others k u (inr ne)) (λ j e. alike j)
      | inl it ↦
          rw (here, it, g.link, fresh)
            (alike (length nodes) ∙ found_below_outside nodes id (length nodes) ts (omega arith))
    ]
  ]

  literal_found :
      (ts : List Bytes)
      → ((k : ℕ) → found_below grown id k ts ≡ found_below nodes id k ts)
      → (b : Bool) (k : ℕ) (u : Bytes)
      → via (if b then none else child grown k u) (λ j. found_below grown id j ts)
        ≡ via (if b then none else child nodes k u) (λ j. found_below nodes id j ts)
  literal_found ts alike true k u = refl
  literal_found ts alike false k u = link_found ts alike k u

  pub found_below-Grows :
      (k : ℕ) (ts : List Bytes) → found_below grown id k ts ≡ found_below nodes id k ts
  unfolding found_below
  found_below-Grows k [] = ap (tally id) (g.ends k)
  found_below-Grows k (u ∷ ts) =
      let alike = λ (j : ℕ). found_below-Grows j ts in
      rw (g.gts k, link_found ts alike k star, literal_found ts alike (bytes_eq u star) k u) refl
