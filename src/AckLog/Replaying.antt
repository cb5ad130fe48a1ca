-- ===== src/AckLog/Replaying.antt =====
-- crates/arbitro-client-tokio/src/ackstore/wal.rs (apply_replay): what a log says of one number.
use arbitro.AckLog.Scanning.{replayed}
use arbitro.Subject.{Bytes}
use mathlib.Core.Path.{subst}
use arbitro.Common.{
  All, Bool, Bool-cases, List, Option, [], ap, arith, erase, false, if◌then◌else◌, inl, inr, lookup,
  lookup-erase, lookup-put, ltb, none, not, put, refl, some, sym, true, ℕ, ◌&&◌, ◌==◌, ◌||◌, ◌∙◌,
  ◌∷◌, ◌≡◌, ◌⊎◌,
}
use arbitro.AckLog.Decoding.{InRange, LogRecord, forgotten, meaning, numbered, registered, snapped}
use arbitro.AckLog.{
  Replay, above, apply_replay, is_old, is_seq_op, live_of, op_confirm, op_confirm_up_to, op_expire,
  op_record, put_all, with_live,
}

lookup-above :
    (cursor seq : ℕ) (live : List (ℕ × ℕ))
    → lookup seq (above cursor live) ≡ (if ltb cursor seq then lookup seq live else none)
unfolding above lookup
lookup-above cursor seq [] = ground arith
lookup-above cursor seq ((i, ts) ∷ live) = ground (arith, lookup-above cursor seq live)

-- Whether a number is in a list.
unfoldable pub listed : ℕ → List ℕ → Bool
listed seq [] = false
listed seq (x ∷ seqs) = (x == seq) || listed seq seqs

lookup-put_all :
    (ts seq : ℕ) (seqs : List ℕ) (live : List (ℕ × ℕ))
    → lookup seq (put_all ts seqs live) ≡ (if listed seq seqs then some ts else lookup seq live)
unfolding put_all listed
lookup-put_all ts seq [] live = refl
lookup-put_all ts seq (x ∷ seqs) live =
    ground (arith, lookup-put_all ts seq seqs (put x ts live), lookup-put x seq ts live)

-- What one record says of a number of a slot, given what was said before: the time of its record
-- where it waits for its confirmation.
unfoldable pub told : ℕ → ℕ → ℕ → Option ℕ → LogRecord → Option ℕ
told ttl_cutoff slot seq before (numbered op slot_id ts_ms n) =
    if not (slot_id == slot)
    then before
    else if op == op_record
    then (if (n == seq) && not (is_old ttl_cutoff ts_ms) then some ts_ms else before)
    else if op == op_confirm_up_to
    then (if ltb n seq then before else none)
    else if n == seq
    then none
    else before
told ttl_cutoff slot seq before (forgotten slot_id ts_ms) = if slot_id == slot then none else before
told ttl_cutoff slot seq before (registered slot_id ts_ms stream consumer) = before
told ttl_cutoff slot seq before (snapped slot_id ts_ms min_seq max_seq seqs) =
    if not (slot_id == slot)
    then before
    else if listed seq seqs && not (is_old ttl_cutoff ts_ms)
    then some ts_ms
    else none

unfoldable pub story : ℕ → ℕ → ℕ → Option ℕ → List LogRecord → Option ℕ
story ttl_cutoff slot seq before [] = before
story ttl_cutoff slot seq before (r ∷ records) =
    story ttl_cutoff slot seq (told ttl_cutoff slot seq before r) records

live_of-put :
    (k slot : ℕ) (live : List (ℕ × ℕ)) (r : Replay)
    → live_of slot (with_live k live r) ≡ (if k == slot then live else live_of slot r)
unfolding live_of
live_of-put k slot live r = elim (Bool-cases (k == slot)) [
  | inl e ↦ rw (live_of, lookup-put k slot live r.slots, e) refl
  | inr e ↦ rw (live_of, lookup-put k slot live r.slots, e) refl
]

kinds :
    (op : ℕ)
    → is_seq_op op ≡ true
    → (op ≡ op_record) ⊎ (op ≡ op_confirm) ⊎ (op ≡ op_expire) ⊎ (op ≡ op_confirm_up_to)
unfolding is_seq_op
kinds op h = ground (arith, h)

lookup-live_of :
    (k slot seq : ℕ) (live : List (ℕ × ℕ)) (r : Replay) (now : Option ℕ)
    → (k ≡ slot → lookup seq live ≡ now)
    → lookup seq (live_of slot (with_live k live r))
      ≡ (if not (k == slot) then lookup seq (live_of slot r) else now)
lookup-live_of k slot seq live r now here = elim (Bool-cases (k == slot)) [
  | inl e ↦ rw (live_of-put k slot live r, e) (here (ground (arith, e)))
  | inr e ↦ rw (live_of-put k slot live r, e) refl
]

unmoved {ℓ} :
    {A : Type ℓ} (x y : A) (t u : Bool) → y ≡ (if not t then y else if u && false then x else y)
unmoved x y t u = ground arith

both {ℓ} : {A : Type ℓ} (t : Bool) (x y : A) → (if t then x else y) ≡ (if t && true then x else y)
both t x y = ground arith

if_same {ℓ} : {A : Type ℓ} (t : Bool) (x : A) → (if not t then x else x) ≡ x
if_same t x = ground arith

neither : (t : Bool) (ts seq : ℕ) → lookup seq [] ≡ (if t && false then some ts else none)
unfolding lookup
neither t ts seq = ground arith

module _ (from_utf8_lossy : Bytes → Bytes) (ttl_cutoff : ℕ) where
  -- One record, of one of the kinds with a number.
  abbrev Replays : Replay → LogRecord → Type 0
  Replays r x =
      (slot seq : ℕ)
      → lookup seq (live_of slot (apply_replay from_utf8_lossy ttl_cutoff r (meaning x)))
        ≡ told ttl_cutoff slot seq (lookup seq (live_of slot r)) x

  one_record : (r : Replay) (k ts n : ℕ) → Replays r (numbered op_record k ts n)
  unfolding apply_replay meaning told
  one_record r k ts n slot seq = elim (Bool-cases (is_old ttl_cutoff ts)) [
    | inl old ↦ rw old (unmoved _ _ (k == slot) (n == seq))
    | inr young ↦ rw young (
        lookup-live_of k slot seq (put n ts (live_of k r)) r _
          (λ e. rw (e, lookup-put n seq ts (live_of slot r)) (both (n == seq) _ _)))
  ]

  one_confirm : (r : Replay) (k ts n : ℕ) → Replays r (numbered op_confirm k ts n)
  unfolding apply_replay meaning told
  one_confirm r k ts n slot seq =
      lookup-live_of k slot seq (erase n (live_of k r)) r _
        (λ e. rw (e, lookup-erase n seq (live_of slot r)) refl)

  one_expire : (r : Replay) (k ts n : ℕ) → Replays r (numbered op_expire k ts n)
  unfolding apply_replay meaning told
  one_expire r k ts n slot seq =
      lookup-live_of k slot seq (erase n (live_of k r)) r _
        (λ e. rw (e, lookup-erase n seq (live_of slot r)) refl)

  one_confirm_up_to : (r : Replay) (k ts n : ℕ) → Replays r (numbered op_confirm_up_to k ts n)
  unfolding apply_replay meaning told
  one_confirm_up_to r k ts n slot seq =
      lookup-live_of k slot seq (above n (live_of k r)) r _
        (λ e. rw (e, lookup-above n seq (live_of slot r)) refl)

  one_tombstone : (r : Replay) (k ts : ℕ) → Replays r (forgotten k ts)
  unfolding apply_replay meaning told live_of lookup
  one_tombstone r k ts slot seq = elim (Bool-cases (k == slot)) [
    | inl e ↦ rw (live_of, lookup-erase k slot r.slots, e) refl
    | inr e ↦ rw (live_of, lookup-erase k slot r.slots, e) refl
  ]

  one_register :
      (r : Replay) (k ts : ℕ) (stream consumer : Bytes)
      → Replays r (registered k ts stream consumer)
  unfolding apply_replay meaning told put live_of
  one_register r k ts stream consumer slot seq =
      lookup-live_of k slot seq (live_of k r) r _ (λ e. rw e refl) ∙ if_same (k == slot) _

  one_snapshot :
      (r : Replay) (k ts low high : ℕ) (seqs : List ℕ) → Replays r (snapped k ts low high seqs)
  unfolding apply_replay meaning told lookup
  one_snapshot r k ts low high seqs slot seq = elim (Bool-cases (is_old ttl_cutoff ts)) [
    | inl old ↦ rw old (lookup-live_of k slot seq [] r _ (λ e. neither (listed seq seqs) ts seq))
    | inr young ↦ rw young (
        lookup-live_of k slot seq (put_all ts seqs []) r _
          (λ e. lookup-put_all ts seq seqs [] ∙ both (listed seq seqs) _ _))
  ]

  one_numbered :
      (op : ℕ) (r : Replay) (k ts n : ℕ) → is_seq_op op ≡ true → Replays r (numbered op k ts n)
  one_numbered op r k ts n h = elim (kinds op h) [
    | inl e ↦ subst (λ o. Replays r (numbered o k ts n)) (sym e) (one_record r k ts n)
    | inr (inl e) ↦ subst (λ o. Replays r (numbered o k ts n)) (sym e) (one_confirm r k ts n)
    | inr (inr (inl e)) ↦ subst (λ o. Replays r (numbered o k ts n)) (sym e) (one_expire r k ts n)
    | inr (inr (inr e)) ↦
        subst (λ o. Replays r (numbered o k ts n)) (sym e) (one_confirm_up_to r k ts n)
  ]

  apply_replay-told : (r : Replay) (x : LogRecord) → InRange x → Replays r x
  apply_replay-told r (numbered op k ts n) h = one_numbered op r k ts n h.0
  apply_replay-told r (forgotten k ts) h = one_tombstone r k ts
  apply_replay-told r (registered k ts stream consumer) h = one_register r k ts stream consumer
  apply_replay-told r (snapped k ts low high seqs) h = one_snapshot r k ts low high seqs

  -- For records whose fields fit their bytes, a replay that goes on from some state makes of each
  -- number of each slot what the records say of it one after the other: it waits, with the time of
  -- its record, from a record that is not too old to its confirmation or expiry, a cursor at or above
  -- it, the end of its slot or a snapshot without it or too old; a snapshot that has it and is not
  -- too old makes it wait with the snapshot's time.
  pub replayed-story :
      (records : List LogRecord) (r : Replay) (slot seq : ℕ)
      → All InRange records
      → lookup seq (live_of slot (replayed from_utf8_lossy ttl_cutoff r records))
        ≡ story ttl_cutoff slot seq (lookup seq (live_of slot r)) records
  unfolding replayed story
  replayed-story [] r slot seq all = refl
  replayed-story (x ∷ records) r slot seq (h, all) =
      replayed-story records (apply_replay from_utf8_lossy ttl_cutoff r (meaning x)) slot seq all
      ∙ ap (λ before. story ttl_cutoff slot seq before records) (apply_replay-told r x h slot seq)
