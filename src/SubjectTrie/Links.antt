-- ===== src/SubjectTrie/Links.antt =====
-- crates/arbitro-engine/src/common/trie.rs: the nodes and their links are a tree, and `insert` makes a
-- missing link without a change to the others.
use mathlib.Core.Path.{subst}
use arbitro.Common.{
  Bool, Bool-cases, List, Option, Option-cases, [], ap, arith, false, get_or-pad, get_or-set_ne,
  get_or-set_self, get_or_above, if◌then◌else◌, inl, inr, length, length-append, length-set, none,
  refl, same_number, set, some, sym, true≢false, ℕ, ◌%◌, ◌++◌, ◌+◌, ◌<◌, ◌∙◌, ◌∷◌, ◌≡◌, ◌≢◌, ◌≤◌,
  ◌⊎◌,
}
use arbitro.Common.Word.{u32_mod}
use arbitro.Subject.{Bytes, bytes_eq, gt, star}
use arbitro.Subject.Match.{bytes_eq-eq, bytes_eq_refl}
use arbitro.SubjectTrie.{
  TrieNode, empty_node, find_literal, literal_child, new, node_at, star_child,
}

-- The link of a node under a token.
unfoldable pub child : List TrieNode → ℕ → Bytes → Option ℕ
child nodes i token =
    let node = node_at nodes i in
    if bytes_eq token star then node.wildcard_star else find_literal token node.literals

-- No two links lead to one node, none leads to the root or to no node, and no literal is a wildcard.
pub record IsTree (nodes : List TrieNode) : Type 0 where
  pub bounded :
      (i : ℕ) (t : Bytes) (j : ℕ) → child nodes i t ≡ some j → (0 < j) × (j < length nodes)
  pub single :
      (i : ℕ) (t : Bytes) (k : ℕ) (u : Bytes) (j : ℕ)
      → child nodes i t ≡ some j
      → child nodes k u ≡ some j
      → (i ≡ k) × (t ≡ u)
  pub plain_star : (i : ℕ) → find_literal star (node_at nodes i).literals ≡ none
  pub plain_gt : (i : ℕ) → find_literal gt (node_at nodes i).literals ≡ none

-- One link is new, to a node that is empty.
pub record Grows (nodes : List TrieNode) (i : ℕ) (t : Bytes) (grown : List TrieNode) : Type 0 where
  pub size : length grown ≡ length nodes + 1
  pub link : child grown i t ≡ some (length nodes)
  pub others : (k : ℕ) (u : Bytes) → (k ≢ i) ⊎ (u ≢ t) → child grown k u ≡ child nodes k u
  pub gts : (k : ℕ) → (node_at grown k).wildcard_gt ≡ (node_at nodes k).wildcard_gt
  pub ends : (k : ℕ) → (node_at grown k).subs ≡ (node_at nodes k).subs
  pub stars :
      (k : ℕ)
      → find_literal star (node_at grown k).literals ≡ find_literal star (node_at nodes k).literals
  pub plains :
      (k : ℕ)
      → find_literal gt (node_at grown k).literals ≡ find_literal gt (node_at nodes k).literals

pub bytes_eq-ne : (a b : Bytes) → bytes_eq a b ≡ false → a ≢ b
bytes_eq-ne a b h e = absurd (true≢false (sym (bytes_eq_refl a) ∙ ap (bytes_eq a) e ∙ h))

pub ne-bytes_eq : (a b : Bytes) → a ≢ b → bytes_eq a b ≡ false
ne-bytes_eq a b h = elim (Bool-cases (bytes_eq a b)) [
  | inl e ↦ absurd (h (bytes_eq-eq a b e))
  | inr e ↦ e
]

pub find_literal-end :
    (t u : Bytes) (idx : ℕ) (ls : List (Bytes × ℕ))
    → find_literal u (ls ++ (t, idx) ∷ []) ≡ elim (find_literal u ls) [
      | some j ↦ some j
      | none ↦ if bytes_eq t u then some idx else none
    ]
unfolding find_literal
find_literal-end t u idx [] = refl
find_literal-end t u idx ((v, j) ∷ ls) = ground (arith, find_literal-end t u idx ls)

unless :
    {b : Bool} (idx : ℕ) (o : Option ℕ)
    → b ≡ false
    → elim o [ some j ↦ some j | none ↦ if b then some idx else none ] ≡ o
unless idx (some j) h = refl
unless idx none h = rw h refl

module _ (nodes : List TrieNode) (i : ℕ) (node : TrieNode) where
  abbrev written : List TrieNode
  written = set (nodes ++ empty_node ∷ []) i node

  length-written : length written ≡ length nodes + 1
  length-written =
      length-set (nodes ++ empty_node ∷ []) i node ∙ length-append nodes (empty_node ∷ [])

  written_self : i < length nodes → node_at written i ≡ node
  written_self h =
      get_or-set_self (nodes ++ empty_node ∷ []) i node empty_node
        (omega (arith, h, length-append nodes (empty_node ∷ [])))

  written_other : (k : ℕ) → i ≢ k → node_at written k ≡ node_at nodes k
  written_other k h =
      get_or-set_ne (nodes ++ empty_node ∷ []) i k node empty_node h
      ∙ get_or-pad nodes 1 k empty_node

  -- A field that the write keeps.
  written_field {ℓ} :
      {A : Type ℓ} (f : TrieNode → A)
      → i < length nodes
      → f node ≡ f (node_at nodes i)
      → (k : ℕ) → f (node_at written k) ≡ f (node_at nodes k)
  written_field f h e k = elim (same_number i k) [
    | inl here ↦
        subst (λ j. f (node_at written j) ≡ f (node_at nodes j)) here (ap f (written_self h) ∙ e)
    | inr there ↦ ap f (written_other k there)
  ]

  child-written :
      i < length nodes
      → (t : Bytes) → ((u : Bytes) → u ≢ t → child (node ∷ []) 0 u ≡ child nodes i u)
      → (k : ℕ) (u : Bytes) → (k ≢ i) ⊎ (u ≢ t)
      → child written k u ≡ child nodes k u
  unfolding child
  child-written h t e k u (inl ne) = rw (written_other k (λ e. ne (sym e))) refl
  child-written h t e k u (inr ne) = elim (same_number i k) [
    | inl here ↦
        subst (λ j. child written j u ≡ child nodes j u) here (rw (written_self h) (e u ne))
    | inr there ↦ rw (written_other k there) refl
  ]

pub same_bytes : (a b : Bytes) → (a ≡ b) ⊎ (a ≢ b)
same_bytes a b = elim (Bool-cases (bytes_eq a b)) [
  | inl e ↦ inl (bytes_eq-eq a b e)
  | inr e ↦ inr (bytes_eq-ne a b e)
]

short : (n : ℕ) → n < u32_mod → n % u32_mod ≡ n
short n h = omega arith

star_child-Grows :
    (nodes : List TrieNode) (i : ℕ)
    → i < length nodes
    → length nodes < u32_mod
    → (node_at nodes i).wildcard_star ≡ none
    → Grows nodes i star (star_child nodes i).0 × ((star_child nodes i).1 ≡ length nodes)
unfolding child star_child bytes_eq
star_child-Grows nodes i h room e =
    let node = record (node_at nodes i) { wildcard_star = some (length nodes % u32_mod) } in
    rw (star_child, e)
      (
        record {
          size = length-written nodes i node;
          link =
              ap (λ n. n.wildcard_star) (written_self nodes i node h)
              ∙ ap some (short (length nodes) room);
          others = child-written nodes i node h star (λ u ne. rw (ne-bytes_eq u star ne) refl);
          gts = written_field nodes i node (λ n. n.wildcard_gt) h refl;
          ends = written_field nodes i node (λ n. n.subs) h refl;
          stars = written_field nodes i node (λ n. find_literal star n.literals) h refl;
          plains = written_field nodes i node (λ n. find_literal gt n.literals) h refl;
        },
        refl,
      )

literal_child-Grows :
    (nodes : List TrieNode) (i : ℕ) (t : Bytes)
    → i < length nodes
    → length nodes < u32_mod
    → t ≢ star
    → t ≢ gt
    → find_literal t (node_at nodes i).literals ≡ none
    → Grows nodes i t (literal_child nodes i t).0 × ((literal_child nodes i t).1 ≡ length nodes)
unfolding child literal_child
literal_child-Grows nodes i t h room ns ng e =
    let node = record (node_at nodes i) {
      literals = (node_at nodes i).literals ++ (t, length nodes % u32_mod) ∷ [];
    } in
    let end : (u : Bytes)
        → find_literal u node.literals ≡ elim (find_literal u (node_at nodes i).literals) [
          | some j ↦ some j
          | none ↦ if bytes_eq t u then some (length nodes % u32_mod) else none
        ] =
      λ u. find_literal-end t u (length nodes % u32_mod) (node_at nodes i).literals in
    let miss : (u : Bytes)
        → t ≢ u
        → find_literal u node.literals ≡ find_literal u (node_at nodes i).literals =
      λ u ne.
        end u
        ∙ unless (length nodes % u32_mod) (find_literal u (node_at nodes i).literals)
            (ne-bytes_eq t u ne) in
    rw (literal_child, e)
      (
        record {
          size = length-written nodes i node;
          link = rw (ne-bytes_eq t star ns) (
              ap (λ n. find_literal t n.literals) (written_self nodes i node h)
              ∙ end t
              ∙ rw (e, bytes_eq_refl t, short (length nodes) room) refl);
          others = child-written nodes i node h t (λ u ne.
              ap (λ o. if bytes_eq u star then (node_at nodes i).wildcard_star else o)
                (miss u (λ e. ne (sym e))));
          gts = written_field nodes i node (λ n. n.wildcard_gt) h refl;
          ends = written_field nodes i node (λ n. n.subs) h refl;
          stars = written_field nodes i node (λ n. find_literal star n.literals) h (miss star ns);
          plains = written_field nodes i node (λ n. find_literal gt n.literals) h (miss gt ng);
        },
        refl,
      )

-- One round of `insert` follows a link or makes it.
abbrev pub descend : List TrieNode → ℕ → Bytes → List TrieNode × ℕ
descend nodes i t = if bytes_eq t star then star_child nodes i else literal_child nodes i t

pub descend-Grows :
    (nodes : List TrieNode) (i : ℕ) (t : Bytes)
    → i < length nodes
    → length nodes < u32_mod
    → t ≢ gt
    → ((j : ℕ) × (child nodes i t ≡ some j) × (descend nodes i t ≡ (nodes, j)))
      ⊎ ((child nodes i t ≡ none)
          × Grows nodes i t (descend nodes i t).0
          × ((descend nodes i t).1 ≡ length nodes))
unfolding child star_child literal_child
descend-Grows nodes i t h room ng = elim (same_bytes t star) [
  | inl e ↦
      subst
        (λ u.
          ((j : ℕ) × (child nodes i u ≡ some j) × (descend nodes i u ≡ (nodes, j)))
          ⊎ ((child nodes i u ≡ none)
              × Grows nodes i u (descend nodes i u).0
              × ((descend nodes i u).1 ≡ length nodes)))
        (sym e)
        (rw (bytes_eq_refl star) (elim (Option-cases (node_at nodes i).wildcard_star) [
          | inl e ↦ (let (a, b) = star_child-Grows nodes i h room e in inr (e, a, b))
          | inr (j, e) ↦ inl (j, e, rw (star_child, e) refl)
        ]))
  | inr ns ↦
      rw (ne-bytes_eq t star ns) (elim (Option-cases (find_literal t (node_at nodes i).literals)) [
        | inl e ↦ (let (a, b) = literal_child-Grows nodes i t h room ns ng e in inr (e, a, b))
        | inr (j, e) ↦ inl (j, e, rw (literal_child, e) refl)
      ])
]

no_link : (nodes : List TrieNode) (i : ℕ) (t : Bytes) → length nodes ≤ i → child nodes i t ≡ none
unfolding child find_literal
no_link nodes i t h = rw (get_or_above nodes i empty_node h) (ground arith)

pub never_both {ℓ} : {A : Type ℓ} {a : A} {o : Option A} → o ≡ some a → o ≡ none → ⊥
never_both p q = absurd (cc)

-- The links after a growth.
Grows-child :
    (nodes grown : List TrieNode) (i : ℕ) (t : Bytes) (k : ℕ) (u : Bytes) (j : ℕ)
    → Grows nodes i t grown
    → child grown k u ≡ some j
    → ((k ≡ i) × (u ≡ t) × (j ≡ length nodes)) ⊎ (child nodes k u ≡ some j)
Grows-child nodes grown i t k u j g e = elim (same_number k i) [
  | inr ne ↦ inr (sym (g.others k u (inl ne)) ∙ e)
  | inl here ↦ elim (same_bytes u t) [
    | inr ne ↦ inr (sym (g.others k u (inr ne)) ∙ e)
    | inl it ↦
        let h : child grown i t ≡ some j =
          subst (λ x. child grown x t ≡ some j) here (subst (λ x. child grown k x ≡ some j) it e) in
        inl (here, it, cc)
  ]
]

pub Grows-IsTree :
    (nodes grown : List TrieNode) (i : ℕ) (t : Bytes)
    → i < length nodes
    → IsTree nodes
    → Grows nodes i t grown
    → IsTree grown
Grows-IsTree nodes grown i t h tree g = record {
  bounded = λ k u j e. elim (Grows-child nodes grown i t k u j g e) [
    | inl (_, _, new) ↦ (omega (arith, new, h), omega (arith, new, g.size))
    | inr old ↦ (let (a, b) = tree.bounded k u j old in (a, omega (arith, b, g.size)))
  ];
  single = λ k u l v j e f. elim (Grows-child nodes grown i t k u j g e) [
    | inl (a, b, new) ↦ elim (Grows-child nodes grown i t l v j g f) [
      | inl (c, d, _) ↦ (a ∙ sym c, b ∙ sym d)
      | inr old ↦ absurd (omega (arith, new, (tree.bounded l v j old).1))
    ]
    | inr old ↦ elim (Grows-child nodes grown i t l v j g f) [
      | inl (c, d, new) ↦ absurd (omega (arith, new, (tree.bounded k u j old).1))
      | inr older ↦ tree.single k u l v j old older
    ]
  ];
  plain_star = λ k. g.stars k ∙ tree.plain_star k;
  plain_gt = λ k. g.plains k ∙ tree.plain_gt k;
}
