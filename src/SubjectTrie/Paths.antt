-- ===== src/SubjectTrie/Paths.antt =====
-- crates/arbitro-engine/src/common/trie.rs: the path from the root to a node.
use arbitro.Common.{
  List, Option, Option-cases, [], ap, arith, inl, inr, length, none, refl, some, suc, sym, ℕ, ◌+◌,
  ◌∙◌, ◌∷◌, ◌≡◌,
}
use arbitro.Subject.{Bytes}
use arbitro.SubjectTrie.{TrieNode}
use arbitro.SubjectTrie.Links.{IsTree, child, never_both}

pub head_same : {t u : Bytes} {ts us : List Bytes} → t ∷ ts ≡ u ∷ us → t ≡ u
head_same e = cc

pub tail_same : {t u : Bytes} {ts us : List Bytes} → t ∷ ts ≡ u ∷ us → ts ≡ us
tail_same e = cc

-- The way back from a node to the root.
unfoldable pub node_of : List TrieNode → List Bytes → Option ℕ
node_of nodes [] = some 0
node_of nodes (t ∷ up) = elim (node_of nodes up) [ some i ↦ child nodes i t | none ↦ none ]

-- The path with the tokens r below the path up.
abbrev pub below : List Bytes → List Bytes → List Bytes
below [] up = up
below (t ∷ r) up = below r (t ∷ up)

pub length-below : (r up : List Bytes) → length (below r up) ≡ length r + length up
length-below [] up = omega arith
length-below (t ∷ r) up = omega (arith, length-below r (t ∷ up))

pub below_same :
    (r s up vp : List Bytes) → below r up ≡ below s vp → length up ≡ length vp → (r ≡ s) × (up ≡ vp)
below_same [] [] up vp e h = (refl, e)
below_same [] (t ∷ s) up vp e h = absurd (omega (arith, h, ap length e, length-below s (t ∷ vp)))
below_same (t ∷ r) [] up vp e h = absurd (omega (arith, h, ap length e, length-below r (t ∷ up)))
below_same (t ∷ r) (u ∷ s) up vp e h =
    let (a, b) = below_same r s (t ∷ up) (u ∷ vp) e (ap suc h) in
    (rw (a, head_same b) refl, tail_same b)

pub node_of-parent :
    (nodes : List TrieNode) (t : Bytes) (up : List Bytes) (j : ℕ)
    → node_of nodes (t ∷ up) ≡ some j
    → (i : ℕ) × (node_of nodes up ≡ some i) × (child nodes i t ≡ some j)
unfolding node_of
node_of-parent nodes t up j e = elim (Option-cases (node_of nodes up)) [
  | inl none_up ↦ absurd (never_both e (rw none_up refl))
  | inr (i, at) ↦ (i, at, sym (rw at refl) ∙ e)
]

pub node_of-child :
    (nodes : List TrieNode) (t : Bytes) (up : List Bytes) (i j : ℕ)
    → node_of nodes up ≡ some i
    → child nodes i t ≡ some j
    → node_of nodes (t ∷ up) ≡ some j
unfolding node_of
node_of-child nodes t up i j at e = rw at e

pub node_of-below :
    (nodes : List TrieNode) (r up : List Bytes) (j : ℕ)
    → node_of nodes (below r up) ≡ some j
    → (i : ℕ) × (node_of nodes up ≡ some i)
node_of-below nodes [] up j e = (j, e)
node_of-below nodes (t ∷ r) up j e =
    let (k, at) = node_of-below nodes r (t ∷ up) j e in
    let (i, here, _) = node_of-parent nodes t up k at in (i, here)

pub some_same : {i j : ℕ} {o : Option ℕ} → o ≡ some i → o ≡ some j → i ≡ j
some_same p q = cc

pub one_path :
    (nodes : List TrieNode) (up vp : List Bytes) (i : ℕ)
    → IsTree nodes
    → node_of nodes up ≡ some i
    → node_of nodes vp ≡ some i
    → up ≡ vp
unfolding node_of
one_path nodes [] [] i tree p q = refl
one_path nodes [] (t ∷ vp) i tree p q =
    let (k, _, e) = node_of-parent nodes t vp i q in
    absurd (omega (arith, (tree.bounded k t i e).0, some_same p (refl {a = some 0})))
one_path nodes (t ∷ up) [] i tree p q =
    let (k, _, e) = node_of-parent nodes t up i p in
    absurd (omega (arith, (tree.bounded k t i e).0, some_same q (refl {a = some 0})))
one_path nodes (t ∷ up) (u ∷ vp) i tree p q =
    let (k, a, e) = node_of-parent nodes t up i p in
    let (l, b, f) = node_of-parent nodes u vp i q in
    let (same_parent, same_token) = tree.single k t l u i e f in
    rw (same_token, one_path nodes up vp l tree (a ∙ ap some same_parent) b) refl
