-- ===== src/MatchTable/Entries.antt =====
-- crates/arbitro-engine/src/catalog/match_table.rs: lists of entries, up to their equality.
use arbitro.Common.{
  Bool-cases, List, [], arith, inl, inr, not, refl, sym, true, ℕ, ◌&&◌, ◌++◌, ◌==◌, ◌||◌, ◌∙◌, ◌∷◌,
  ◌≡◌,
}
use arbitro.MatchTable.{
  MatchEntry, add_entry, has_entry, push_new, push_unseen, same_entry, without,
}

pub same_entry_refl : (a : MatchEntry) → same_entry a a ≡ true
unfolding same_entry
same_entry_refl a = ground arith

-- Equal entries are equal to the same ones.
pub same_entry-same : (a b c : MatchEntry) → same_entry a b ≡ true → same_entry c a ≡ same_entry c b
unfolding same_entry
same_entry-same a b c h = ground (arith, h)

pub has_entry-same :
    (a b : MatchEntry) (xs : List MatchEntry)
    → same_entry a b ≡ true
    → has_entry a xs ≡ has_entry b xs
unfolding has_entry
has_entry-same a b [] h = refl
has_entry-same a b (x ∷ xs) h = rw (same_entry-same a b x h, has_entry-same a b xs h) refl

pub has_entry-append :
    (e : MatchEntry) (xs ys : List MatchEntry)
    → has_entry e (xs ++ ys) ≡ (has_entry e xs || has_entry e ys)
unfolding has_entry
has_entry-append e [] ys = refl
has_entry-append e (x ∷ xs) ys = ground (arith, has_entry-append e xs ys)

pub has_entry-add_entry :
    (e x : MatchEntry) (xs : List MatchEntry)
    → has_entry e (add_entry x xs) ≡ (has_entry e xs || same_entry x e)
unfolding add_entry has_entry
has_entry-add_entry e x xs = elim (Bool-cases (has_entry x xs)) [
  | inl there ↦ rw there (elim (Bool-cases (same_entry x e)) [
    | inl it ↦ rw (it, sym (has_entry-same x e xs it), there) refl
    | inr other ↦ rw other (ground arith)
  ])
  | inr new ↦ rw new (has_entry-append e xs (x ∷ []) ∙ ground arith)
]

pub has_entry-push_new :
    (e : MatchEntry) (out xs : List MatchEntry)
    → has_entry e (push_new out xs) ≡ (has_entry e out || has_entry e xs)
unfolding push_new has_entry
has_entry-push_new e out [] = ground arith
has_entry-push_new e out (x ∷ xs) =
    has_entry-push_new e (add_entry x out) xs ∙ rw (has_entry-add_entry e x out) (ground arith)

-- The two ways to leave out what is there already agree.
pub push_unseen-push_new :
    (seen out xs : List MatchEntry)
    → ((e : MatchEntry) → has_entry e seen ≡ has_entry e out)
    → push_unseen seen out xs ≡ push_new out xs
unfolding push_unseen push_new add_entry
push_unseen-push_new seen out [] h = refl
push_unseen-push_new seen out (x ∷ xs) h = elim (Bool-cases (has_entry x out)) [
  | inl there ↦ rw (push_unseen, h x, there) (push_unseen-push_new seen out xs h)
  | inr new ↦
      rw (push_unseen, h x, new)
        (push_unseen-push_new (seen ++ x ∷ []) (out ++ x ∷ []) xs (λ e.
          has_entry-append e seen (x ∷ []) ∙ rw (h e) (sym (has_entry-append e out (x ∷ [])))))
]

pub has_entry-without :
    (e : MatchEntry) (subscription_id : ℕ) (xs : List MatchEntry)
    → has_entry e (without subscription_id xs)
      ≡ (has_entry e xs && not (e.subscription_id == subscription_id))
unfolding has_entry without same_entry
has_entry-without e subscription_id [] = refl
has_entry-without e subscription_id (x ∷ xs) =
    ground (arith, has_entry-without e subscription_id xs)
