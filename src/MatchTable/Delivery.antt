-- ===== src/MatchTable/Delivery.antt =====
-- crates/arbitro-engine/src/catalog/mod.rs, where `ensure_subscription` registers the filters of a
-- subscription, and crates/arbitro-server/src/shard/drain.rs, where the recipients of an entry are
-- looked up.
use arbitro.Common.{List, [], if◌then◌else◌, lookup, none, put, some, ℕ, ◌++◌, ◌∷◌}
use arbitro.Subject.{Bytes}
use arbitro.MatchTable.{
  MatchEntry, MatchTable, add_catch_all, add_exact, add_pattern, lookup_verified, push_new,
  resolve_patterns_readonly,
}
use arbitro.MatchTable.Binding.{is_pattern}

module _ (wire_hash_32 : Bytes → ℕ) where
  unfoldable pub add_filter : MatchTable → MatchEntry → Bytes → MatchTable
  add_filter t entry filter =
      if is_pattern filter
      then add_pattern t filter entry
      else add_exact t (wire_hash_32 filter) filter entry

  unfoldable pub add_filters : MatchTable → MatchEntry → List Bytes → MatchTable
  add_filters t entry [] = t
  add_filters t entry (filter ∷ filters) = add_filters (add_filter t entry filter) entry filters

  -- The match table's part of `ensure_subscription`.
  unfoldable pub register : MatchTable → MatchEntry → List Bytes → MatchTable
  register t entry [] = add_catch_all t entry
  register t entry (filter ∷ filters) = add_filters t entry (filter ∷ filters)

  -- `StreamCaches::resolve_patterns` on the cache of one stream: the answer, and the cache after it.
  unfoldable pub resolve_cached :
      MatchTable → List (ℕ × List MatchEntry) → Bytes → List MatchEntry × List (ℕ × List MatchEntry)
  resolve_cached t cache subject = elim (lookup (wire_hash_32 subject) cache) [
    | some resolved ↦ (resolved, cache)
    | none ↦
        let resolved = resolve_patterns_readonly t subject [] in
        (resolved, put (wire_hash_32 subject) resolved cache)
  ]

  -- Step 1 of the match of an entry: the recipients, and the cache.
  unfoldable pub recipients :
      MatchTable → List (ℕ × List MatchEntry) → Bytes → List MatchEntry × List (ℕ × List MatchEntry)
  recipients t cache subject =
      let (exact, catch_all) = lookup_verified t (wire_hash_32 subject) subject in
      let matches = exact ++ catch_all in
      elim t.patterns [
        | [] ↦ (matches, cache)
        | p ∷ ps ↦
            let (resolved, kept) = resolve_cached t cache subject in
            (push_new matches resolved, kept)
      ]
