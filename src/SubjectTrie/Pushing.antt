-- ===== src/SubjectTrie/Pushing.antt =====
-- crates/arbitro-engine/src/common/trie.rs: what a push at a node changes in what is found above it.
use mathlib.Core.Path.{subst}
use arbitro.Common.{
  Bool, List, Option, [], ap, arith, false, if◌then◌else◌, inl, inr, length, none, refl, some, sym,
  true, ℕ, ◌++◌, ◌+◌, ◌∙◌, ◌∷◌, ◌≡◌, ◌≢◌,
}
use arbitro.Subject.{Bytes, bytes_eq, gt, star}
use arbitro.Subject.Match.{bytes_eq-eq, bytes_eq_refl, matches_tokens}
use arbitro.SubjectTrie.{TrieNode, node_at}
use arbitro.SubjectTrie.Links.{IsTree, child, ne-bytes_eq, same_bytes, never_both}
use arbitro.SubjectTrie.Counting.{found_below, tally, via, via_same}
use arbitro.SubjectTrie.Paths.{
  below, below_same, head_same, length-below, node_of, node_of-below, node_of-child, node_of-parent,
  one_path, some_same,
}

unless_true : (b : Bool) (o : Option ℕ) (j : ℕ) → (if b then none else o) ≡ some j → o ≡ some j
unless_true true o j e = absurd (never_both e refl)
unless_true false o j e = e

two_tokens : (x t : Bytes) → bytes_eq x t ≡ true → bytes_eq t star ≡ bytes_eq x star
two_tokens x t h = ap (λ y. bytes_eq y star) (sym (bytes_eq-eq x t h))

pub plus_none : (n : ℕ) → n ≡ n + 0
plus_none n = omega arith

-- The node at the end of the path `end_up` gets a number more, for the subjects that the tokens `tail`
-- match below it.
module _ (nodes pushed : List TrieNode) (f : ℕ) (end_up tail : List Bytes) (id c : ℕ)
    (tree : IsTree nodes) (at : node_of nodes end_up ≡ some f)
    (links : (k : ℕ) (u : Bytes) → child pushed k u ≡ child nodes k u)
    (subs : (k : ℕ) → k ≢ f → (node_at pushed k).subs ≡ (node_at nodes k).subs)
    (gts : (k : ℕ) → k ≢ f → (node_at pushed k).wildcard_gt ≡ (node_at nodes k).wildcard_gt)
    (sub_here : tally id (node_at pushed f).subs
      ≡ tally id (node_at nodes f).subs + (if matches_tokens tail [] then c else 0))
    (gt_here : (t : Bytes) (ts : List Bytes)
      → tally id (node_at pushed f).wildcard_gt
        ≡ tally id (node_at nodes f).wildcard_gt
          + (if matches_tokens tail (t ∷ ts) then c else 0)) where
  elsewhere : (up : List Bytes) (i : ℕ) → node_of nodes up ≡ some i → up ≢ end_up → i ≢ f
  elsewhere up i h ne e = ne (one_path nodes up end_up i tree h (at ∙ ap some (sym e)))

  -- Off the path nothing changes.
  off_path :
      (up : List Bytes) (i : ℕ) (ts : List Bytes)
      → node_of nodes up ≡ some i
      → ((r : List Bytes) → below r up ≢ end_up)
      → found_below pushed id i ts ≡ found_below nodes id i ts
  unfolding found_below
  off_path up i [] h ne = ap (tally id) (subs i (elsewhere up i h (ne [])))
  off_path up i (t ∷ ts) h ne =
      let link : (u : Bytes) (j : ℕ)
          → child nodes i u ≡ some j
          → found_below pushed id j ts ≡ found_below nodes id j ts =
        λ u j e. off_path (u ∷ up) j ts (node_of-child nodes u up i j h e) (λ r. ne (u ∷ r)) in
      rw
        (
          gts i (elsewhere up i h (ne [])),
          via_same (child pushed i star) (child nodes i star) (λ j. found_below pushed id j ts)
              (λ j. found_below nodes id j ts) (links i star) (link star),
          via_same (if bytes_eq t star then none else child pushed i t)
              (if bytes_eq t star then none else child nodes i t) (λ j. found_below pushed id j ts)
              (λ j. found_below nodes id j ts)
              (ap (λ o. if bytes_eq t star then none else o) (links i t))
              (λ j e. link t j (unless_true (bytes_eq t star) (child nodes i t) j e)),
        )
        refl

  other_link :
      (x : Bytes) (r up : List Bytes) (u : Bytes)
      → below (x ∷ r) up ≡ end_up
      → u ≢ x
      → (s : List Bytes) → below s (u ∷ up) ≢ end_up
  other_link x r up u e ne s f =
      ne (head_same (below_same s r (u ∷ up) (x ∷ up) (f ∙ sym e) refl).1)

  past_end :
      (up : List Bytes) → up ≡ end_up → (s : List Bytes) (u : Bytes) → below s (u ∷ up) ≢ end_up
  past_end up e s u f = absurd (omega (arith, ap length e, ap length f, length-below s (u ∷ up)))

  short_of : (x : Bytes) (r up : List Bytes) → below (x ∷ r) up ≡ end_up → up ≢ end_up
  short_of x r up e f = absurd (omega (arith, ap length e, ap length f, length-below r (x ∷ up)))

  -- What a link adds: the link of the path what is found behind it, the others nothing.
  on_link :
      (x : Bytes) (r up : List Bytes) (i : ℕ) (ts : List Bytes) (extra : ℕ)
      → node_of nodes up ≡ some i
      → below (x ∷ r) up ≡ end_up
      → ((j : ℕ)
          → child nodes i x ≡ some j
          → found_below pushed id j ts ≡ found_below nodes id j ts + extra)
      → (u : Bytes)
      → via (child pushed i u) (λ j. found_below pushed id j ts)
        ≡ via (child nodes i u) (λ j. found_below nodes id j ts)
          + (if bytes_eq x u then extra else 0)
  on_link x r up i ts extra h e ih u = elim (same_bytes x u) [
    | inl it ↦
        let (j, here) = node_of-below nodes r (x ∷ up) f (ap (node_of nodes) e ∙ at) in
        let (k, there, link) = node_of-parent nodes x up j here in
        let found : child nodes i x ≡ some j =
          subst (λ n. child nodes n x ≡ some j) (some_same there h) link in
        subst
          (λ v.
            via (child pushed i v) (λ j. found_below pushed id j ts)
            ≡ via (child nodes i v) (λ j. found_below nodes id j ts)
              + (if bytes_eq x v then extra else 0))
          it (rw (links i x, found, bytes_eq_refl x) (ih j found))
    | inr ne ↦ rw (ne-bytes_eq x u ne) (
        via_same (child pushed i u) (child nodes i u) (λ j. found_below pushed id j ts)
          (λ j. found_below nodes id j ts) (links i u)
          (λ j l.
            off_path (u ∷ up) j ts (node_of-child nodes u up i j h l)
              (other_link x r up u e (λ q. ne (sym q))))
        ∙ plus_none (via (child nodes i u) (λ j. found_below nodes id j ts)))
  ]

  no_gt : (x : Bytes) (r up : List Bytes) → below (x ∷ r) up ≡ end_up → bytes_eq x gt ≡ false
  unfolding child bytes_eq
  no_gt x r up e = ne-bytes_eq x gt (λ q.
      let (j, here) = node_of-below nodes r (x ∷ up) f (ap (node_of nodes) e ∙ at) in
      let (k, there, link) = node_of-parent nodes x up j here in
      never_both (subst (λ y. child nodes k y ≡ some j) q link) (tree.plain_gt k))

  -- On the path the number is found for the subjects that the rest of the path matches.
  pub on_path :
      (r up : List Bytes) (i : ℕ) (ts : List Bytes)
      → node_of nodes up ≡ some i
      → below r up ≡ end_up
      → found_below pushed id i ts
        ≡ found_below nodes id i ts + (if matches_tokens (r ++ tail) ts then c else 0)
  unfolding found_below matches_tokens
  on_path [] up i [] h e =
      subst
        (λ n.
          tally id (node_at pushed n).subs
          ≡ tally id (node_at nodes n).subs + (if matches_tokens tail [] then c else 0))
        (some_same at (ap (node_of nodes) (sym e) ∙ h)) sub_here
  on_path [] up i (t ∷ ts) h e =
      let link : (u : Bytes) (j : ℕ)
          → child nodes i u ≡ some j
          → found_below pushed id j ts ≡ found_below nodes id j ts =
        λ u j l.
          off_path (u ∷ up) j ts (node_of-child nodes u up i j h l) (λ s. past_end up e s u) in
      let here =
        subst
          (λ n.
            tally id (node_at pushed n).wildcard_gt
            ≡ tally id (node_at nodes n).wildcard_gt
              + (if matches_tokens tail (t ∷ ts) then c else 0))
          (some_same at (ap (node_of nodes) (sym e) ∙ h)) (gt_here t ts) in
      omega (
        arith,
        here,
        via_same (child pushed i star) (child nodes i star) (λ j. found_below pushed id j ts)
            (λ j. found_below nodes id j ts) (links i star) (link star),
        via_same (if bytes_eq t star then none else child pushed i t)
            (if bytes_eq t star then none else child nodes i t) (λ j. found_below pushed id j ts)
            (λ j. found_below nodes id j ts)
            (ap (λ o. if bytes_eq t star then none else o) (links i t))
            (λ j e. link t j (unless_true (bytes_eq t star) (child nodes i t) j e)),
      )
  on_path (x ∷ r) up i [] h e =
      ap (tally id) (subs i (elsewhere up i h (short_of x r up e)))
      ∙ plus_none (tally id (node_at nodes i).subs)
  on_path (x ∷ r) up i (t ∷ ts) h e =
      let extra = if matches_tokens (r ++ tail) ts then c else 0 in
      let link =
        on_link x r up i ts extra h e
          (λ j l. on_path r (x ∷ up) j ts (node_of-child nodes x up i j h l) e) in
      ground (
        arith,
        gts i (elsewhere up i h (short_of x r up e)),
        no_gt x r up e,
        link star,
        link t,
        two_tokens x t,
      )
