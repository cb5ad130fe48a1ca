-- ===== src/AckLog/Compacting.antt =====
-- crates/arbitro-client-tokio/src/ackstore/compact.rs: the log is written again from its live state.
use arbitro.AckLog.Rewriting.{
  all_records, compacted, compacted_records, insert_sorted, keys, last_seq, log_of-all_records,
  slot_records, snapshot_records, sort_unstable,
}
use arbitro.Common.{
  All, Bool, Bool-cases, List, Option, [], ap, arith, false, if◌then◌else◌, inl, inr, lookup, none,
  not, refl, some, sym, true, ℕ, ◌&&◌, ◌++◌, ◌==◌, ◌||◌, ◌∙◌, ◌∷◌, ◌≡◌, ◌⊎◌,
}
use arbitro.Subject.{Bytes}
use arbitro.AckLog.{Replay, file_magic, is_old, live_of, no_replay, scan_bytes}
use arbitro.AckLog.Decoding.{InRange, LogRecord, snapped}
use arbitro.AckLog.Scanning.{scan_bytes-log_of}
use arbitro.AckLog.Replaying.{listed, replayed-story, story, told}

listed-insert_sorted :
    (j n : ℕ) (xs : List ℕ) → listed j (insert_sorted n xs) ≡ (n == j) || listed j xs
unfolding listed insert_sorted
listed-insert_sorted j n [] = refl
listed-insert_sorted j n (x ∷ xs) = ground (arith, listed-insert_sorted j n xs)

listed-sort_unstable : (j : ℕ) (xs : List ℕ) → listed j (sort_unstable xs) ≡ listed j xs
unfolding listed sort_unstable
listed-sort_unstable j [] = refl
listed-sort_unstable j (x ∷ xs) =
    listed-insert_sorted j x (sort_unstable xs) ∙ rw (listed-sort_unstable j xs) refl

-- A number that is there, with another time.
unfoldable pub at_time : ℕ → Option ℕ → Option ℕ
at_time now none = none
at_time now (some ts) = some now

unfoldable pub is_some {ℓ} : {V : Type ℓ} → Option V → Bool
is_some none = false
is_some (some v) = true

listed-keys {ℓ} : {V : Type ℓ} (j : ℕ) (m : List (ℕ × V)) → listed j (keys m) ≡ is_some (lookup j m)
unfolding listed keys lookup is_some
listed-keys j [] = refl
listed-keys j ((k, v) ∷ m) = ground (arith, listed-keys j m)

at_time_lem : (now : ℕ) (o : Option ℕ) → (if is_some o then some now else none) ≡ at_time now o
unfolding at_time is_some
at_time_lem now none = refl
at_time_lem now (some ts) = refl

-- What the numbers of one slot become.
abbrev kept : ℕ → ℕ → ℕ → Replay → Option ℕ
kept now slot seq r = at_time now (lookup seq (live_of slot r))

story-append :
    (cutoff slot seq : ℕ) (before : Option ℕ) (xs ys : List LogRecord)
    → story cutoff slot seq before (xs ++ ys)
      ≡ story cutoff slot seq (story cutoff slot seq before xs) ys
unfolding story
story-append cutoff slot seq before [] ys = refl
story-append cutoff slot seq before (x ∷ xs) ys =
    story-append cutoff slot seq (told cutoff slot seq before x) xs ys

settled {ℓ} :
    {A : Type ℓ} (t u : Bool) (x y : Option A)
    → (if not t then x else if u && true then y else none)
      ≡ (if t then (if u then y else none) else x)
settled t u x y = ground arith

always {ℓ} :
    {A : Type ℓ} (l m : Bool) (k b : A)
    → (if l && m then k else if m then k else b) ≡ (if m then k else b)
always true true k b = refl
always true false k b = refl
always false m k b = refl

joined {ℓ} :
    {A : Type ℓ} (t l n m : Bool) (k b : A)
    → (t ≡ true → n ≡ m)
    → (if l && m then k else if t && n then k else b) ≡ (if (t || l) && m then k else b)
joined true l n m k b h = rw (h refl) (always l m k b)
joined false l n m k b h = refl

either {ℓ} :
    {A : Type ℓ} (t : Bool) (x y z : A)
    → (x ≡ z) ⊎ (x ≡ y)
    → ((if t then y else x) ≡ z) ⊎ ((if t then y else x) ≡ y)
either true x y z h = inr refl
either false x y z h = h

module _ (cutoff now : ℕ) (young : is_old cutoff now ≡ false) where
  told-snapped :
      (slot seq id low high : ℕ) (before : Option ℕ) (seqs : List ℕ)
      → told cutoff slot seq before (snapped id now low high seqs)
        ≡ (if id == slot then (if listed seq seqs then some now else none) else before)
  unfolding told
  told-snapped slot seq id low high before seqs =
      rw young (settled (id == slot) (listed seq seqs) _ _)

  snapshot_records-story :
      (slot seq id : ℕ) (before : Option ℕ) (seqs : List ℕ)
      → (id ≡ slot → (before ≡ none) ⊎ (before ≡ (if listed seq seqs then some now else none)))
      → story cutoff slot seq before (snapshot_records now id seqs)
        ≡ (if id == slot then (if listed seq seqs then some now else none) else before)
  unfolding story snapshot_records listed
  snapshot_records-story slot seq id before [] h = elim (Bool-cases (id == slot)) [
    | inl e ↦ rw e (elim (h (ground (arith, e))) [ inl n ↦ n | inr n ↦ n ])
    | inr e ↦ rw e refl
  ]
  snapshot_records-story slot seq id before (s ∷ seqs) h =
      told-snapped slot seq id s (last_seq s seqs) before (s ∷ seqs)

  kept_lem :
      (id seq : ℕ) (r : Replay)
      → (if listed seq (sort_unstable (keys (live_of id r))) then some now else none)
        ≡ kept now id seq r
  kept_lem id seq r =
      rw (listed-sort_unstable seq (keys (live_of id r)), listed-keys seq (live_of id r))
        (at_time_lem now (lookup seq (live_of id r)))

  slot_records-story :
      (slot seq id : ℕ) (before : Option ℕ) (r : Replay) (name : Option (Bytes × Bytes))
      → (before ≡ none) ⊎ (before ≡ kept now slot seq r)
      → story cutoff slot seq before (slot_records now r id name)
        ≡ (if (id == slot) && is_some name then kept now slot seq r else before)
  unfolding story slot_records is_some told
  slot_records-story slot seq id before r none h = elim (Bool-cases (id == slot)) [
    | inl e ↦ rw e refl
    | inr e ↦ rw e refl
  ]
  slot_records-story slot seq id before r (some name) h =
      snapshot_records-story slot seq id before (sort_unstable (keys (live_of id r))) (λ e. elim h [
        | inl n ↦ inl n
        | inr n ↦ inr (n ∙ ap (λ i. kept now i seq r) (sym e) ∙ sym (kept_lem id seq r))
      ])
      ∙ elim (Bool-cases (id == slot)) [
        | inl e ↦ rw e (kept_lem id seq r ∙ ap (λ i. kept now i seq r) (ground (arith, e)))
        | inr e ↦ rw e refl
      ]

  all_records-story :
      (slot seq : ℕ) (r : Replay) (ids : List ℕ) (before : Option ℕ)
      → (before ≡ none) ⊎ (before ≡ kept now slot seq r)
      → story cutoff slot seq before (all_records now r ids)
        ≡ (if listed slot ids && is_some (lookup slot r.names) then kept now slot seq r else before)
  unfolding story all_records listed
  all_records-story slot seq r [] before h = refl
  all_records-story slot seq r (id ∷ ids) before h =
      let name = lookup id r.names in
      let hit = (id == slot) && is_some name in
      let next = if hit then kept now slot seq r else before in
      story-append cutoff slot seq before (slot_records now r id name) (all_records now r ids)
      ∙ ap (λ b. story cutoff slot seq b (all_records now r ids))
          (slot_records-story slot seq id before r name h)
      ∙ all_records-story slot seq r ids next (either hit before (kept now slot seq r) none h)
      ∙ joined (id == slot) (listed slot ids) (is_some name) (is_some (lookup slot r.names)) _ _
          (λ e. ap (λ i. is_some (lookup i r.names)) (ground (arith, e)))

no_replay-empty : (slot seq : ℕ) → lookup seq (live_of slot no_replay) ≡ none
unfolding live_of lookup
no_replay-empty slot seq = refl

twice {ℓ} : {A : Type ℓ} (t : Bool) (x y : A) → (if t && t then x else y) ≡ (if t then x else y)
twice true x y = refl
twice false x y = refl

-- A compaction keeps, for each slot that has a name, the numbers that wait, and gives each of them
-- its own time: where its records fit a frame each and its time is not too old, the new file is read
-- to the numbers of the old state with the time of the compaction, and no number of another slot.
pub scan_bytes-compacted :
    (from_utf8_lossy : Bytes → Bytes) (ttl_cutoff now : ℕ) (r : Replay) (slot seq : ℕ)
    → is_old ttl_cutoff now ≡ false
    → All InRange (compacted_records now r)
    → lookup seq (live_of slot (scan_bytes from_utf8_lossy ttl_cutoff (compacted now r)).0)
      ≡ (if is_some (lookup slot r.names) then at_time now (lookup seq (live_of slot r)) else none)
unfolding compacted compacted_records
scan_bytes-compacted from_utf8_lossy ttl_cutoff now r slot seq young fit =
    let ids = sort_unstable (keys r.names) in
    ap
      (λ bytes.
        lookup seq (live_of slot (scan_bytes from_utf8_lossy ttl_cutoff (file_magic ++ bytes)).0))
      (sym (log_of-all_records now r ids))
    ∙ ap (λ result. lookup seq (live_of slot result.0))
        (scan_bytes-log_of from_utf8_lossy ttl_cutoff (all_records now r ids) fit)
    ∙ replayed-story from_utf8_lossy ttl_cutoff (all_records now r ids) no_replay slot seq fit
    ∙ all_records-story ttl_cutoff now young slot seq r ids _ (inl (no_replay-empty slot seq))
    ∙ rw
        (
          listed-sort_unstable slot (keys r.names),
          listed-keys slot r.names,
          no_replay-empty slot seq,
        )
        (twice (is_some (lookup slot r.names)) _ _)
