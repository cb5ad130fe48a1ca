-- ===== src/Wire/Acknowledging.antt =====
-- crates/arbitro-proto/src/v2/ingress/ack_frame.rs and nack_frame.rs: acknowledgements are read back, and
-- a count that lies is refused.
use arbitro.Subject.{Bytes}
use arbitro.Common.{
  All, Bool-cases, List, [], ap, arith, drop, false, inl, inr, length, ltb, ltb→lt, none, refl,
  some, suc, sym, true, zero, ℕ, ◌%◌, ◌*◌, ◌+◌, ◌<◌, ◌^◌, ◌↔◌, ◌∙◌, ◌∷◌, ◌≡◌, ◌≤◌, ◌⊎◌,
}
use arbitro.Action.{Action, as_u16, batch_ack, batch_nack}
use arbitro.Wire.{Ranged, new_header, total_len, u16_bytes, u32_bytes, u64_bytes}
use arbitro.Wire.Acks.{
  AckFrame, BatchEntry, BatchFrame, ack_bytes, ack_of, batch_entry_size, batch_frame_of,
  encode_acks, encode_slot, encode_slots, entries_of, try_entries,
}

-- Every field in the range of its type.
abbrev pub InRange : AckFrame → Type 0
InRange f = Ranged f.header × (f.consumer_id < 2 ^ 32) × (f.key < 2 ^ 32) × (f.ack_seq < 2 ^ 64)

-- A single acknowledgement whose fields are in range is read back.
pub ack_of-ack_bytes : (f : AckFrame) → InRange f → ack_of (ack_bytes f) ≡ f
unfolding ack_bytes
ack_of-ack_bytes f r =
    rw
      (
        u16_bytes f.header.action r.0.0,
        u32_bytes f.header.msg_len r.0.3,
        u64_bytes f.header.seq r.0.4,
        u32_bytes f.consumer_id r.1,
        u32_bytes f.key r.2,
        u64_bytes f.ack_seq r.3,
      )
      refl

abbrev pub Sized : BatchEntry → Type 0
Sized e = (e.seq < 2 ^ 64) × (e.key < 2 ^ 32) × (e.delay_ms < 2 ^ 32)

entries_of-encode_slots :
    (es : List BatchEntry) → All Sized es → entries_of (length es) (encode_slots es) ≡ es
unfolding entries_of encode_slots encode_slot
entries_of-encode_slots [] h = refl
entries_of-encode_slots (e ∷ es) h =
    rw
      (
        u64_bytes e.seq h.0.0,
        u32_bytes e.key h.0.1,
        u32_bytes e.delay_ms h.0.2,
        entries_of-encode_slots es h.1,
      )
      refl

length-encode_slots : (es : List BatchEntry) → length (encode_slots es) ≡ length es * 16
unfolding encode_slots encode_slot
length-encode_slots [] = omega arith
length-encode_slots (e ∷ es) = omega (arith, length-encode_slots es)

small : (n m : ℕ) → n < m → n % m ≡ n
small n m h = grind arith

-- The frame that is sent.
abbrev sent : Action → ℕ → ℕ → List BatchEntry → BatchFrame
sent action seq consumer_id es = record {
  header = new_header (as_u16 action) (8 + length es * 16) seq;
  consumer_id = consumer_id;
  count = length es;
  tail = encode_slots es;
}

batch_frame_of-encode_acks :
    (action : Action) (seq consumer_id : ℕ) (es : List BatchEntry)
    → seq < 2 ^ 64
    → consumer_id < 2 ^ 32
    → 8 + length es * 16 < 2 ^ 32
    → as_u16 action < 2 ^ 16
    → batch_frame_of (encode_acks action seq consumer_id es) ≡ sent action seq consumer_id es
unfolding encode_acks
batch_frame_of-encode_acks action seq consumer_id es a b c d =
    rw
      (
        small (8 + length es * 16) (2 ^ 32) c,
        small (length es) (2 ^ 32) (omega (arith, c)),
        u16_bytes (as_u16 action) d,
        u32_bytes (8 + length es * 16) c,
        u64_bytes seq a,
        u32_bytes consumer_id b,
        u32_bytes (length es) (omega (arith, c)),
      )
      refl

length-entries_of : (n : ℕ) (tail : Bytes) → length (entries_of n tail) ≡ n
unfolding entries_of
length-entries_of zero tail = refl
length-entries_of (suc n) tail = ap suc (length-entries_of n (drop batch_entry_size tail))

no_entries : (es : List BatchEntry) → none ≡ some es → ⊥
no_entries es h = ground (arith, h)

same_entries : (es fs : List BatchEntry) → some es ≡ some fs → fs ≡ es
same_entries es fs h = sym (ap (λ o. elim o [ none ↦ es | some x ↦ x ]) h)

fits :
    (f : BatchFrame)
    → ltb (length f.tail) (f.count * 16) ≡ false
    → try_entries f ≡ some (entries_of f.count f.tail)
unfolding try_entries
fits f h = rw h refl

lies : (f : BatchFrame) → ltb (length f.tail) (f.count * 16) ≡ true → try_entries f ≡ none
unfolding try_entries
lies f h = rw h refl

within : (a b : ℕ) → ltb a b ≡ false → b ≤ a
within a b h = ground (arith, h)

not_over : (a b : ℕ) → a ≤ b → ltb b a ≡ false
not_over a b h = ground (arith, h)

-- What `try_entries` makes of any frame: it refuses a count that the tail cannot hold, and otherwise
-- gives as many entries as announced.
pub try_entries-count :
    (f : BatchFrame)
    → ((try_entries f ≡ none) ↔ (length f.tail < f.count * 16))
      × ((es : List BatchEntry) → try_entries f ≡ some es → length es ≡ f.count)
try_entries-count f = elim (Bool-cases (ltb (length f.tail) (f.count * 16))) [
  | inl lying ↦
      let lt = ltb→lt (length f.tail) (f.count * 16) lying in
      ((λ e. lt, λ h. lies f lying), λ es e. absurd (no_entries es (sym (lies f lying) ∙ e)))
  | inr whole ↦
      let some_there = fits f whole in
      (
        (
          λ e. absurd (no_entries (entries_of f.count f.tail) (sym e ∙ some_there)),
          λ h. absurd (omega (arith, h, within (length f.tail) (f.count * 16) whole)),
        ),
        λ es e.
            ap length (same_entries (entries_of f.count f.tail) es (sym some_there ∙ e))
            ∙ length-entries_of f.count f.tail,
      )
]

code_bound :
    (action : Action) → (action ≡ batch_ack) ⊎ (action ≡ batch_nack) → as_u16 action < 2 ^ 16
unfolding as_u16
code_bound action (inl e) = rw e (omega arith)
code_bound action (inr e) = rw e (omega arith)

length-encode_acks :
    (action : Action) (seq consumer_id : ℕ) (es : List BatchEntry)
    → 16 + (8 + length es * 16) ≡ length (encode_acks action seq consumer_id es)
unfolding encode_acks
length-encode_acks action seq consumer_id es = omega (arith, length-encode_slots es)

-- A batch of acknowledgements, of either kind, whose fields are in range: the frame says its length,
-- and `try_entries` gives the entries back in order.
pub try_entries-encode_acks :
    (action : Action) (seq consumer_id : ℕ) (es : List BatchEntry)
    → (action ≡ batch_ack) ⊎ (action ≡ batch_nack)
    → seq < 2 ^ 64
    → consumer_id < 2 ^ 32
    → 8 + length es * 16 < 2 ^ 32
    → All Sized es
    → (try_entries (batch_frame_of (encode_acks action seq consumer_id es)) ≡ some es)
      × (total_len (batch_frame_of (encode_acks action seq consumer_id es)).header
          ≡ length (encode_acks action seq consumer_id es))
try_entries-encode_acks action seq consumer_id es kind a b c sized =
    let same =
      batch_frame_of-encode_acks action seq consumer_id es a b c (code_bound action kind) in
    (
      ap try_entries same
          ∙ fits (sent action seq consumer_id es) (
              not_over (length es * 16) (length (encode_slots es))
                (omega (arith, length-encode_slots es)))
          ∙ ap some (entries_of-encode_slots es sized),
      ap (λ f. total_len f.header) same ∙ length-encode_acks action seq consumer_id es,
    )
