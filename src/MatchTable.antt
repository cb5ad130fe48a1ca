-- ===== src/MatchTable.antt =====
-- crates/arbitro-engine/src/catalog/match_table.rs: from a subject to the consumers that get its
-- messages. A hash set of entries is a list in which no two entries are equal.
pub mod Binding
pub mod Delivery
pub mod Entries
pub mod Maps
pub mod Resolving
pub mod Stored
pub mod Registering
pub mod Naming
pub mod Routing
pub mod Removing
mod Tests
use arbitro.Common.{
  Bool, List, [], false, get_or, if◌then◌else◌, leb, length, lookup, map, none, put, set, some,
  true, ℕ, ◌%◌, ◌&&◌, ◌++◌, ◌+◌, ◌-◌, ◌==◌, ◌||◌, ◌∷◌,
}
use arbitro.Common.Word.{u32_mod}
use arbitro.Subject.{Bytes, bytes_eq}
use arbitro.SubjectTrie.{SubjectTrie, find_matches, insert_pattern, new}
use arbitro.SubjectTrie

abbrev pub binding_idx_unbound : ℕ
binding_idx_unbound = u32_mod - 1

pub record MatchEntry : Type 0 where
  pub consumer_id : ℕ
  pub queue_id : ℕ
  pub subscription_id : ℕ
  pub connection_id : ℕ
  pub binding_idx : ℕ

-- The equality of entries, which leaves out `binding_idx`.
unfoldable pub same_entry : MatchEntry → MatchEntry → Bool
same_entry a b =
    (a.consumer_id == b.consumer_id)
    && (a.queue_id == b.queue_id)
    && (a.subscription_id == b.subscription_id)
    && (a.connection_id == b.connection_id)

unfoldable pub has_entry : MatchEntry → List MatchEntry → Bool
has_entry entry [] = false
has_entry entry (x ∷ xs) = same_entry x entry || has_entry entry xs

-- `retain` keeps the entries of other subscriptions.
unfoldable pub without : ℕ → List MatchEntry → List MatchEntry
without subscription_id [] = []
without subscription_id (x ∷ xs) =
    let rest = without subscription_id xs in
    if x.subscription_id == subscription_id then rest else x ∷ rest

-- `HashSet::remove`.
unfoldable pub drop_entry : MatchEntry → List MatchEntry → List MatchEntry
drop_entry entry [] = []
drop_entry entry (x ∷ xs) =
    let rest = drop_entry entry xs in if same_entry x entry then rest else x ∷ rest

-- An entry at the end, if no equal one is there; `HashSet::insert`, and the guarded `push`.
unfoldable pub add_entry : MatchEntry → List MatchEntry → List MatchEntry
add_entry entry xs = if has_entry entry xs then xs else xs ++ entry ∷ []

abbrev pub Buckets : Type 0
Buckets = List (ℕ × List MatchEntry)

unfoldable pub bucket : ℕ → Buckets → List MatchEntry
bucket hash buckets = elim (lookup hash buckets) [ some entries ↦ entries | none ↦ [] ]

-- `retain` on the map: the entries of a subscription go, and the buckets that this empties.
unfoldable pub retain_buckets : ℕ → Buckets → Buckets
retain_buckets subscription_id [] = []
retain_buckets subscription_id ((hash, entries) ∷ buckets) =
    let kept = without subscription_id entries in
    let rest = retain_buckets subscription_id buckets in
    elim kept [ [] ↦ rest | x ∷ xs ↦ (hash, x ∷ xs) ∷ rest ]

unfoldable pub is_key : ℕ → Buckets → Bool
is_key hash [] = false
is_key hash ((h, entries) ∷ buckets) = (h == hash) || is_key hash buckets

unfoldable pub retain_subjects : Buckets → List (ℕ × Bytes) → List (ℕ × Bytes)
retain_subjects buckets [] = []
retain_subjects buckets ((hash, subject) ∷ subjects) =
    let rest = retain_subjects buckets subjects in
    if is_key hash buckets then (hash, subject) ∷ rest else rest

pub record MatchTable : Type 0 where
  pub exact : Buckets
  pub exact_subjects : List (ℕ × Bytes)
  pub exact_dedup : Buckets
  pub catch_all : List MatchEntry
  pub catch_all_dedup : List MatchEntry
  pub patterns : List (Bytes × MatchEntry)
  pub pattern_trie : SubjectTrie
  pub pattern_entries : List MatchEntry
  pub limit_patterns : List (Bytes × ℕ)
  pub limit_trie : SubjectTrie
  pub limit_values : List ℕ
  pub max_subject_inflights : List (ℕ × ℕ)

abbrev pub new_table : MatchTable
new_table = record {
  exact = [];
  exact_subjects = [];
  exact_dedup = [];
  catch_all = [];
  catch_all_dedup = [];
  patterns = [];
  pattern_trie = SubjectTrie.new;
  pattern_entries = [];
  limit_patterns = [];
  limit_trie = SubjectTrie.new;
  limit_values = [];
  max_subject_inflights = [];
}

unfoldable pub add_catch_all : MatchTable → MatchEntry → MatchTable
add_catch_all t entry = if has_entry entry t.catch_all_dedup then t else record t {
  catch_all_dedup = t.catch_all_dedup ++ entry ∷ [];
  catch_all = t.catch_all ++ entry ∷ [];
}

-- `or_insert_with`: the subject that came first stays.
unfoldable pub keep_subject : ℕ → Bytes → List (ℕ × Bytes) → List (ℕ × Bytes)
keep_subject hash subject subjects = elim (lookup hash subjects) [
  | some stored ↦ subjects
  | none ↦ put hash subject subjects
]

unfoldable pub add_exact : MatchTable → ℕ → Bytes → MatchEntry → MatchTable
add_exact t subject_hash subject entry =
    let set = bucket subject_hash t.exact_dedup in
    let entries = bucket subject_hash t.exact in
    record t {
      exact_dedup = put subject_hash (add_entry entry set) t.exact_dedup;
      exact =
          if has_entry entry set then t.exact else put subject_hash (entries ++ entry ∷ []) t.exact;
      exact_subjects = keep_subject subject_hash subject t.exact_subjects;
    }

unfoldable pub add_pattern : MatchTable → Bytes → MatchEntry → MatchTable
add_pattern t pattern' entry =
    let idx = length t.pattern_entries % u32_mod in
    record t {
      pattern_entries = t.pattern_entries ++ entry ∷ [];
      pattern_trie = insert_pattern t.pattern_trie pattern' idx;
      patterns = t.patterns ++ (pattern', entry) ∷ [];
    }

-- The loop of a rebuild, from the pattern with the number i on.
unfoldable pub rebuild_loop {ℓ} : {A : Type ℓ} → ℕ → List (Bytes × A) → SubjectTrie → SubjectTrie
rebuild_loop i [] trie = trie
rebuild_loop i ((p, x) ∷ ps) trie = rebuild_loop (i + 1) ps (insert_pattern trie p (i % u32_mod))

unfoldable pub seconds {ℓ} : {A : Type ℓ} → List (Bytes × A) → List A
seconds [] = []
seconds ((p, x) ∷ ps) = x ∷ seconds ps

abbrev pub rebuild_pattern_trie : MatchTable → MatchTable
rebuild_pattern_trie t = record t {
  pattern_trie = rebuild_loop 0 t.patterns SubjectTrie.new;
  pattern_entries = seconds t.patterns;
}

abbrev pub rebuild_limit_trie : MatchTable → MatchTable
rebuild_limit_trie t = record t {
  limit_trie = rebuild_loop 0 t.limit_patterns SubjectTrie.new;
  limit_values = seconds t.limit_patterns;
}

unfoldable pub patterns_without : ℕ → List (Bytes × MatchEntry) → List (Bytes × MatchEntry)
patterns_without subscription_id [] = []
patterns_without subscription_id ((p, x) ∷ ps) =
    let rest = patterns_without subscription_id ps in
    if x.subscription_id == subscription_id then rest else (p, x) ∷ rest

unfoldable pub has_subscription : ℕ → List (Bytes × MatchEntry) → Bool
has_subscription subscription_id [] = false
has_subscription subscription_id ((p, x) ∷ ps) =
    (x.subscription_id == subscription_id) || has_subscription subscription_id ps

unfoldable pub remove_subscription : MatchTable → ℕ → MatchTable
remove_subscription t subscription_id =
    let exact = retain_buckets subscription_id t.exact in
    let had_patterns = has_subscription subscription_id t.patterns in
    let kept = record t {
      catch_all = without subscription_id t.catch_all;
      catch_all_dedup = without subscription_id t.catch_all_dedup;
      exact = exact;
      exact_dedup = retain_buckets subscription_id t.exact_dedup;
      exact_subjects = retain_subjects exact t.exact_subjects;
      patterns = patterns_without subscription_id t.patterns;
    } in
    if had_patterns then rebuild_pattern_trie kept else kept

-- The two parts of a `MatchResult`; `iter` goes through one after the other.
unfoldable pub lookup_hash : MatchTable → ℕ → List MatchEntry × List MatchEntry
lookup_hash t subject_hash = (bucket subject_hash t.exact, t.catch_all)

unfoldable pub lookup_verified : MatchTable → ℕ → Bytes → List MatchEntry × List MatchEntry
lookup_verified t subject_hash subject = elim (lookup subject_hash t.exact_subjects) [
  | some stored ↦ (if bytes_eq stored subject then bucket subject_hash t.exact else [], t.catch_all)
  | none ↦ ([], t.catch_all)
]

abbrev pub no_entry : MatchEntry
no_entry = record {
  consumer_id = 0;
  queue_id = 0;
  subscription_id = 0;
  connection_id = 0;
  binding_idx = binding_idx_unbound;
}

-- The callback with the linear scan: an entry that is not in the output yet is added.
unfoldable pub push_new : List MatchEntry → List MatchEntry → List MatchEntry
push_new out [] = out
push_new out (entry ∷ entries) = push_new (add_entry entry out) entries

-- The callback with the set of what was seen.
unfoldable pub push_unseen : List MatchEntry → List MatchEntry → List MatchEntry → List MatchEntry
push_unseen seen out [] = out
push_unseen seen out (entry ∷ entries) = elim (has_entry entry seen) [
  | true ↦ push_unseen seen out entries
  | false ↦ push_unseen (seen ++ entry ∷ []) (out ++ entry ∷ []) entries
]

abbrev pub dedup_threshold : ℕ
dedup_threshold = 4

-- An index past the entries would be a panic; `get_or` reads `no_entry` there.
unfoldable pub resolve_patterns_readonly : MatchTable → Bytes → List MatchEntry → List MatchEntry
resolve_patterns_readonly t subject out =
    let entries =
      map (λ idx. get_or t.pattern_entries idx no_entry) (find_matches t.pattern_trie subject) in
    if leb dedup_threshold (length out)
    then push_unseen (push_new [] out) out entries
    else push_new out entries
