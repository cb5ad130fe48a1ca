-- ===== src/SubjectTrie/Inserting.antt =====
-- crates/arbitro-engine/src/common/trie.rs: `insert` keeps a tree a tree, and adds its number where the
-- pattern matches.
use arbitro.Common.Word.{u32_mod}
use arbitro.Common.{
  List, [], ap, append_assoc, arith, if◌then◌else◌, inl, inr, length, none, refl, same_number, some,
  suc, sym, zero, ℕ, ◌++◌, ◌+◌, ◌<◌, ◌==◌, ◌∙◌, ◌∷◌, ◌≡◌, ◌≤◌,
}
use arbitro.Subject.{Bytes, bytes_eq, gt, next_token}
use arbitro.Subject.Tokens.{length-next, tokens, tokens-next}
use arbitro.Subject.Match.{bytes_eq_refl, matches_tokens}
use arbitro.SubjectTrie.{SubjectTrie, TrieNode, insert_loop, insert_pattern, push_gt, push_sub}
use arbitro.SubjectTrie.Written.{Inserts, push_gt-Inserts, push_sub-Inserts}
use arbitro.SubjectTrie.Links.{
  Grows, Grows-IsTree, IsTree, child, descend, descend-Grows, ne-bytes_eq, same_bytes, never_both,
}
use arbitro.SubjectTrie.Counting.{found_below-Grows}
use arbitro.SubjectTrie.Paths.{below, node_of, node_of-child, node_of-parent}

-- `insert_loop` as a recursion on tokens.
unfoldable insert_tokens : List TrieNode → ℕ → List Bytes → ℕ → List TrieNode
insert_tokens nodes curr [] sub_id = push_sub nodes curr sub_id
insert_tokens nodes curr (t ∷ ts) sub_id =
    let (grown, next) = descend nodes curr t in
    let inserted = insert_tokens grown next ts sub_id in
    if bytes_eq t gt then push_gt nodes curr sub_id else inserted

pub tokens_end : tokens [] ≡ []
unfolding tokens
tokens_end = refl

insert_loop-tokens :
    (fuel : ℕ) (nodes : List TrieNode) (curr : ℕ) (p : Bytes) (sub_id : ℕ)
    → length p ≤ fuel
    → insert_loop fuel nodes curr p sub_id ≡ insert_tokens nodes curr (tokens p) sub_id
unfolding insert_loop insert_tokens
insert_loop-tokens zero nodes curr [] sub_id h = rw tokens_end refl
insert_loop-tokens (suc fuel) nodes curr [] sub_id h = rw tokens_end refl
insert_loop-tokens zero nodes curr (c ∷ p) sub_id h = absurd (omega (arith, h))
insert_loop-tokens (suc fuel) nodes curr (c ∷ p) sub_id h =
    let (token, rest) = next_token (c ∷ p) in
    let (grown, next) = descend nodes curr token in
    rw
      (
        tokens-next c p,
        insert_loop-tokens fuel grown next rest sub_id (omega (arith, h, length-next c p)),
      )
      refl

node_of-Grows :
    (nodes grown : List TrieNode) (i : ℕ) (t : Bytes) (up : List Bytes) (j : ℕ)
    → Grows nodes i t grown
    → child nodes i t ≡ none
    → node_of nodes up ≡ some j
    → node_of grown up ≡ some j
unfolding node_of
node_of-Grows nodes grown i t [] j g fresh e = e
node_of-Grows nodes grown i t (u ∷ up) j g fresh e =
    let (k, at, link) = node_of-parent nodes u up j e in
    rw (node_of-Grows nodes grown i t up k g fresh at) (elim (same_number k i) [
      | inr ne ↦ g.others k u (inl ne) ∙ link
      | inl here ↦ elim (same_bytes u t) [
        | inr ne ↦ g.others k u (inr ne) ∙ link
        | inl it ↦ absurd (never_both link (rw (here, it) fresh))
      ]
    ])

below-end : (r : List Bytes) (t : Bytes) (up : List Bytes) → below (r ++ t ∷ []) up ≡ t ∷ below r up
below-end [] t up = refl
below-end (u ∷ r) t up = below-end r t (u ∷ up)

Inserts-Grows :
    (nodes grown inserted : List TrieNode) (i : ℕ) (t : Bytes) (pattern' : List Bytes)
    (steps sub_id : ℕ)
    → Grows nodes i t grown
    → child nodes i t ≡ none
    → Inserts grown pattern' steps sub_id inserted
    → Inserts nodes pattern' (suc steps) sub_id inserted
Inserts-Grows nodes grown inserted i t pattern' steps sub_id g fresh (tree, more, less, found) = (
  tree,
  omega (arith, more, g.size),
  omega (arith, less, g.size),
  λ id us.
      found id us
      ∙ ap (λ n. n + (if matches_tokens pattern' us then (if sub_id == id then 1 else 0) else 0))
          (found_below-Grows nodes grown i t g fresh id 0 us),
)

insert_tokens-Inserts :
    (nodes : List TrieNode) (curr sub_id : ℕ) (r up ts : List Bytes)
    → IsTree nodes
    → curr < length nodes
    → node_of nodes up ≡ some curr
    → below r [] ≡ up
    → length nodes + length ts ≤ u32_mod
    → Inserts nodes (r ++ ts) (length ts) sub_id (insert_tokens nodes curr ts sub_id)
unfolding insert_tokens
insert_tokens-Inserts nodes curr sub_id r up [] tree h at e room =
    push_sub-Inserts nodes curr sub_id r up tree h at e
insert_tokens-Inserts nodes curr sub_id r up (t ∷ ts) tree h at e room = elim (same_bytes t gt) [
  | inl it ↦ rw (it, bytes_eq_refl gt) (push_gt-Inserts nodes curr sub_id r up ts tree h at e)
  | inr ng ↦ rw (ne-bytes_eq t gt ng) (
      let path = below-end r t [] ∙ ap (λ l. t ∷ l) e in
      elim (descend-Grows nodes curr t h (omega (arith, room)) ng) [
        | inl (j, link, went) ↦
            let (a, b, c, d) =
              insert_tokens-Inserts nodes j sub_id (r ++ t ∷ []) (t ∷ up) ts tree
                (tree.bounded curr t j link).1 (node_of-child nodes t up curr j at link) path
                (omega (arith, room)) in
            rw (went, sym (append_assoc r (t ∷ []) ts)) (a, b, omega (arith, c), d)
        | inr (fresh, g, next) ↦
            rw (next, sym (append_assoc r (t ∷ []) ts))
              (Inserts-Grows nodes (descend nodes curr t).0
                (insert_tokens (descend nodes curr t).0 (length nodes) ts sub_id) curr t
                ((r ++ t ∷ []) ++ ts) (length ts) sub_id g fresh
                (insert_tokens-Inserts (descend nodes curr t).0 (length nodes) sub_id (r ++ t ∷ [])
                  (t ∷ up) ts (Grows-IsTree nodes (descend nodes curr t).0 curr t h tree g)
                  (omega (arith, g.size))
                  (node_of-child (descend nodes curr t).0 t up curr (length nodes)
                    (node_of-Grows nodes (descend nodes curr t).0 curr t up curr g fresh at) g.link)
                  path (omega (arith, room, g.size))))
      ])
]

-- What `insert` keeps: links that make a tree, with a root.
abbrev pub IsTrie : SubjectTrie → Type 0
IsTrie t = IsTree t.nodes × (0 < length t.nodes)

pub insert_pattern-Inserts :
    (t : SubjectTrie) (pattern' : Bytes) (sub_id : ℕ)
    → IsTrie t
    → length t.nodes + length (tokens pattern') ≤ u32_mod
    → Inserts t.nodes
        (tokens pattern')
        (length (tokens pattern'))
        sub_id
        (insert_pattern t pattern' sub_id).nodes
unfolding insert_pattern node_of
insert_pattern-Inserts t pattern' sub_id (tree, root) room =
    rw (insert_loop-tokens (length pattern') t.nodes 0 pattern' sub_id (omega arith))
      (insert_tokens-Inserts t.nodes 0 sub_id [] [] (tokens pattern') tree root refl refl room)
