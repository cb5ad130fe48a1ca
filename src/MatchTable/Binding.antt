-- ===== src/MatchTable/Binding.antt =====
-- crates/arbitro-engine/src/catalog/match_table.rs: limits of subjects, and what a bind writes into the
-- entries.
use arbitro.Common.{
  Bool, List, Option, [], erase, false, get_or, if◌then◌else◌, lookup, map, min, none, put, set,
  some, true, ℕ, ◌&&◌, ◌++◌, ◌-◌, ◌==◌, ◌||◌, ◌∷◌,
}
use arbitro.Common.Word.{u32_mod}
use arbitro.Subject.{Bytes, bytes_eq}
use arbitro.SubjectTrie.{find_matches}
use arbitro.MatchTable.{
  Buckets, MatchEntry, MatchTable, add_entry, drop_entry, new_table, rebuild_limit_trie,
}

unfoldable pub has_byte : ℕ → Bytes → Bool
has_byte b [] = false
has_byte b (c ∷ p) = (c == b) || has_byte b p

-- The test for a wildcard.
unfoldable pub is_pattern : Bytes → Bool
is_pattern p = has_byte b'*' p || has_byte b'>' p

unfoldable pub other_limits : Bytes → List (Bytes × ℕ) → List (Bytes × ℕ)
other_limits p [] = []
other_limits p ((q, limit) ∷ limits) =
    let rest = other_limits p limits in if bytes_eq q p then rest else (q, limit) ∷ rest

unfoldable pub min_of : Option ℕ → List ℕ → Option ℕ
min_of least [] = least
min_of least (x ∷ xs) = min_of (some (min (elim least [ some l ↦ l | none ↦ u32_mod - 1 ]) x)) xs

module _ (wire_hash_32 : Bytes → ℕ) where
  unfoldable pub add_max_subject_inflight : MatchTable → Bytes → ℕ → MatchTable
  add_max_subject_inflight t pattern' max_inflight =
      if is_pattern pattern'
      then rebuild_limit_trie
          (record t { limit_patterns = t.limit_patterns ++ (pattern', max_inflight) ∷ [] })
      else record t {
        max_subject_inflights = put (wire_hash_32 pattern') max_inflight t.max_subject_inflights;
      }

  unfoldable pub remove_max_subject_inflight : MatchTable → Bytes → MatchTable
  remove_max_subject_inflight t pattern' =
      if is_pattern pattern'
      then rebuild_limit_trie (record t { limit_patterns = other_limits pattern' t.limit_patterns })
      else record t {
        max_subject_inflights = erase (wire_hash_32 pattern') t.max_subject_inflights;
      }

unfoldable pub max_subject_inflight : MatchTable → ℕ → Option ℕ
max_subject_inflight t subject_hash = lookup subject_hash t.max_subject_inflights

unfoldable pub resolve_subject_limit_readonly : MatchTable → ℕ → Bytes → Option ℕ
resolve_subject_limit_readonly t subject_hash subject =
    elim (lookup subject_hash t.max_subject_inflights) [
      | some limit ↦ some limit
      | none ↦ elim t.limit_patterns [
        | [] ↦ none
        | p ∷ ps ↦
            min_of none
              (map (λ idx. get_or t.limit_values idx 0) (find_matches t.limit_trie subject))
      ]
    ]

unfoldable pub has_subject_limits : MatchTable → Bool
has_subject_limits t = elim t.max_subject_inflights [
  | m ∷ ms ↦ true
  | [] ↦ elim t.limit_patterns [ [] ↦ false | p ∷ ps ↦ true ]
]

unfoldable pub rebind : ℕ → ℕ → MatchEntry → MatchEntry
rebind subscription_id connection_id e =
    if e.subscription_id == subscription_id then record e { connection_id = connection_id } else e

-- A write to every entry of a map.
unfoldable pub on_buckets : (MatchEntry → MatchEntry) → Buckets → Buckets
on_buckets f [] = []
on_buckets f ((hash, entries) ∷ buckets) = (hash, map f entries) ∷ on_buckets f buckets

unfoldable pub on_patterns :
    (MatchEntry → MatchEntry) → List (Bytes × MatchEntry) → List (Bytes × MatchEntry)
on_patterns f [] = []
on_patterns f ((p, x) ∷ ps) = (p, f x) ∷ on_patterns f ps

-- The first entry of a subscription, and its connection.
unfoldable pub connection_of : ℕ → List MatchEntry → Option ℕ
connection_of subscription_id [] = none
connection_of subscription_id (x ∷ xs) =
    let rest = connection_of subscription_id xs in
    if x.subscription_id == subscription_id then some x.connection_id else rest

unfoldable pub connection_in : ℕ → Buckets → Option ℕ
connection_in subscription_id [] = none
connection_in subscription_id ((hash, entries) ∷ buckets) =
    let rest = connection_in subscription_id buckets in
    elim (connection_of subscription_id entries) [ some c ↦ some c | none ↦ rest ]

-- The set with the changed entries in place of the old ones.
unfoldable pub update_set : ℕ → ℕ → List MatchEntry → List MatchEntry → List MatchEntry
update_set subscription_id old_connection_id [] set = set
update_set subscription_id old_connection_id (e ∷ entries) set =
    let old = record e { connection_id = old_connection_id } in
    update_set subscription_id old_connection_id entries
      (if e.subscription_id == subscription_id then add_entry e (drop_entry old set) else set)

unfoldable pub update_sets : ℕ → ℕ → Buckets → Buckets → Buckets
update_sets subscription_id old_connection_id [] sets = sets
update_sets subscription_id old_connection_id ((hash, entries) ∷ buckets) sets =
    update_sets subscription_id old_connection_id buckets (elim (lookup hash sets) [
      | some set ↦ put hash (update_set subscription_id old_connection_id entries set) sets
      | none ↦ sets
    ])

unfoldable pub update_dedup_for_subscription : MatchTable → ℕ → ℕ → MatchTable
update_dedup_for_subscription t subscription_id old_connection_id = record t {
  catch_all_dedup = update_set subscription_id old_connection_id t.catch_all t.catch_all_dedup;
  exact_dedup = update_sets subscription_id old_connection_id t.exact t.exact_dedup;
}

-- A write to every entry of the table.
abbrev pub on_entries : (MatchEntry → MatchEntry) → MatchTable → MatchTable
on_entries f t = record t {
  exact = on_buckets f t.exact;
  catch_all = map f t.catch_all;
  patterns = on_patterns f t.patterns;
  pattern_entries = map f t.pattern_entries;
}

-- In the catch-all entries first, then in the map, whose order matters only where a subscription has
-- entries with different connections.
unfoldable pub first_connection : MatchTable → ℕ → Option ℕ
first_connection t subscription_id = elim (connection_of subscription_id t.catch_all) [
  | some c ↦ some c
  | none ↦ connection_in subscription_id t.exact
]

unfoldable pub bind_subscription : MatchTable → ℕ → ℕ → MatchTable
bind_subscription t subscription_id connection_id =
    let bound = on_entries (rebind subscription_id connection_id) t in
    elim (first_connection t subscription_id) [
      | some old ↦
          if old == connection_id
          then bound
          else update_dedup_for_subscription bound subscription_id old
      | none ↦ bound
    ]

unfoldable pub unbind_subscription : MatchTable → ℕ → MatchTable
unbind_subscription t subscription_id = bind_subscription t subscription_id 0

unfoldable pub stamp : ℕ → ℕ → ℕ → ℕ → MatchEntry → MatchEntry
stamp consumer_id connection_id subscription_id binding_idx e =
    if (e.consumer_id == consumer_id)
      && (e.connection_id == connection_id)
      && (e.subscription_id == subscription_id)
    then record e { binding_idx = binding_idx }
    else e

unfoldable pub set_binding_idx_for : MatchTable → ℕ → ℕ → ℕ → ℕ → MatchTable
set_binding_idx_for t consumer_id connection_id subscription_id binding_idx =
    on_entries (stamp consumer_id connection_id subscription_id binding_idx) t

-- `clear` leaves the subjects of the buckets.
unfoldable pub clear_table : MatchTable → MatchTable
clear_table t = record new_table { exact_subjects = t.exact_subjects }
