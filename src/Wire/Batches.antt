-- ===== src/Wire/Batches.antt =====
-- crates/arbitro-proto/src/v2/ingress/batch_pub_frame.rs: what the iterator sees of the entries, its own
-- encoder's or hostile ones.
use arbitro.Common.{
  All, List, [], ap, append_assoc, arith, drop, drop_all, drop_past, false, length, length-append,
  ltb, map, none, refl, some, suc, sym, take, take_all, take_whole, ℕ, ◌%◌, ◌++◌, ◌+◌, ◌-◌, ◌<◌,
  ◌==◌, ◌^◌, ◌∙◌, ◌∷◌, ◌≡◌, ◌≤◌,
}
use arbitro.Subject.{Bytes}
use arbitro.Action.{as_u16, publish_batch}
use arbitro.Wire.{le_bytes, total_len, u16_bytes, u32_bytes, u64_bytes}
use arbitro.Wire.BatchPub.{
  BatchPubEntryView, BatchPubFrame, BatchPubIter, Publish, batch_of, collect, encode_batch,
  encode_entries, encode_entry, entry_msg_id, entry_payload, entry_subject, entry_total, iter,
  msg_id_len, next, payload_len, subject_len,
}

-- The entry as its three parts, read from the view.
abbrev pub publish_of : BatchPubEntryView → Publish
publish_of v = record {
  subject = entry_subject v;
  msg_id = entry_msg_id v;
  payload = entry_payload v;
}

abbrev pub Measured : Publish → Type 0
Measured p = (length p.subject < 2 ^ 16) × (length p.msg_id < 2 ^ 16) × (length p.payload < 2 ^ 32)

small : (n m : ℕ) → n < m → n % m ≡ n
small n m h = grind arith

-- The lengths at the front of an encoded entry, whatever follows it.
lengths :
    (p : Publish) (rest : Bytes)
    → Measured p
    → (subject_len (encode_entry p ++ rest) ≡ length p.subject)
      × (msg_id_len (encode_entry p ++ rest) ≡ length p.msg_id)
      × (payload_len (encode_entry p ++ rest) ≡ length p.payload)
unfolding encode_entry
lengths p rest m = (
  rw (small (length p.subject) (2 ^ 16) m.0) (u16_bytes (length p.subject) m.0),
  rw (small (length p.msg_id) (2 ^ 16) m.1) (u16_bytes (length p.msg_id) m.1),
  rw (small (length p.payload) (2 ^ 32) m.2) (u32_bytes (length p.payload) m.2),
)

length-encode_entry :
    (p : Publish)
    → length (encode_entry p) ≡ 8 + (length p.subject + length p.msg_id + length p.payload)
unfolding encode_entry
length-encode_entry p =
    omega (arith, length-append p.subject (p.msg_id ++ p.payload), length-append p.msg_id p.payload)

body : Publish → Bytes
body p = p.subject ++ (p.msg_id ++ p.payload)

-- A view with the right lengths gives the parts.
parts :
    (p : Publish) (front : Bytes)
    → length front ≡ 8
    → subject_len (front ++ body p) ≡ length p.subject
    → msg_id_len (front ++ body p) ≡ length p.msg_id
    → payload_len (front ++ body p) ≡ length p.payload
    → publish_of (record { buf = front ++ body p }) ≡ p
unfolding entry_subject entry_msg_id entry_payload body
parts p front h a b c =
    rw
      (
        a,
        b,
        c,
        drop_all front (body p) 8 (sym h),
        drop_past front (body p) (length p.subject) (8 + length p.subject) (omega (arith, h)),
        drop_past front (body p) (length p.subject + length p.msg_id)
            (8 + length p.subject + length p.msg_id) (omega (arith, h)),
        take_all p.subject (p.msg_id ++ p.payload) (length p.subject) refl,
        drop_all p.subject (p.msg_id ++ p.payload) (length p.subject) refl,
        drop_past p.subject (p.msg_id ++ p.payload) (length p.msg_id)
            (length p.subject + length p.msg_id) refl,
        take_all p.msg_id p.payload (length p.msg_id) refl,
        drop_all p.msg_id p.payload (length p.msg_id) refl,
        take_whole p.payload (length p.payload) refl,
      )
      refl

-- The view of an encoded entry gives its parts.
view_of-encode_entry : (p : Publish) → Measured p → publish_of (record { buf = encode_entry p }) ≡ p
unfolding encode_entry body
view_of-encode_entry p m =
    let front =
      le_bytes 2 (length p.subject % 2 ^ 16)
      ++ (le_bytes 2 (length p.msg_id % 2 ^ 16) ++ le_bytes 4 (length p.payload % 2 ^ 32)) in
    parts p front refl
      (rw (small (length p.subject) (2 ^ 16) m.0) (u16_bytes (length p.subject) m.0))
      (rw (small (length p.msg_id) (2 ^ 16) m.1) (u16_bytes (length p.msg_id) m.1))
      (rw (small (length p.payload) (2 ^ 32) m.2) (u32_bytes (length p.payload) m.2))

pub not_over : (a b : ℕ) → a ≤ b → ltb b a ≡ false
not_over a b h = ground (arith, h)

not_zero : (n : ℕ) → 1 ≤ n → (n == 0) ≡ false
not_zero n h = ground (arith, h)

-- The step where every check passes.
next-some :
    (it : BatchPubIter) (rest : Bytes)
    → drop it.offset it.buf ≡ rest
    → 1 ≤ it.remaining
    → it.offset ≤ length it.buf
    → 8 ≤ length rest
    → entry_total rest ≤ length rest
    → next it ≡ (
      some (record { buf = take (entry_total rest) rest }),
      record it { offset = it.offset + entry_total rest; remaining = it.remaining - 1 },
    )
unfolding next
next-some it rest e a b c d =
    rw
      (
        e,
        not_zero it.remaining a,
        not_over it.offset (length it.buf) b,
        not_over 8 (length rest) c,
        not_over (entry_total rest) (length rest) d,
      )
      refl

entry_total-encode_entry :
    (p : Publish) (rest : Bytes)
    → Measured p
    → entry_total (encode_entry p ++ rest) ≡ length (encode_entry p)
entry_total-encode_entry p rest m =
    let (a, b, c) = lengths p rest m in omega (arith, a, b, c, length-encode_entry p)

less_one : (n : ℕ) → suc n - 1 ≡ n
less_one n = omega arith

-- One step of the iterator in front of an encoded entry.
next-encode_entry :
    (p : Publish) (seen rest : Bytes) (n offset : ℕ)
    → Measured p
    → offset ≡ length seen
    → next (record { buf = seen ++ (encode_entry p ++ rest); offset = offset; remaining = suc n })
      ≡ (
        some (record { buf = encode_entry p }),
        record {
          buf = seen ++ (encode_entry p ++ rest);
          offset = offset + length (encode_entry p);
          remaining = n;
        },
      )
next-encode_entry p seen rest n offset m h =
    let bytes = encode_entry p ++ rest in
    let total = entry_total-encode_entry p rest m in
    let step =
      next-some (record { buf = seen ++ bytes; offset = offset; remaining = suc n }) bytes
        (drop_all seen bytes offset h) (omega arith) (omega (arith, h, length-append seen bytes))
        (omega (arith, length-encode_entry p, length-append (encode_entry p) rest))
        (omega (arith, total, length-append (encode_entry p) rest)) in
    step
    ∙ rw (total, take_all (encode_entry p) rest (length (encode_entry p)) refl, less_one n) refl

next_at :
    (p : Publish) (buf seen rest : Bytes) (n offset : ℕ)
    → Measured p
    → buf ≡ seen ++ (encode_entry p ++ rest)
    → offset ≡ length seen
    → next (record { buf = buf; offset = offset; remaining = suc n }) ≡ (
      some (record { buf = encode_entry p }),
      record { buf = buf; offset = offset + length (encode_entry p); remaining = n },
    )
next_at p buf seen rest n offset m e h = rw e (next-encode_entry p seen rest n offset m h)

collect_at :
    (ps : List Publish) (buf seen : Bytes) (offset : ℕ)
    → buf ≡ seen ++ encode_entries ps
    → offset ≡ length seen
    → All Measured ps
    → map publish_of
        (collect (length ps) (record { buf = buf; offset = offset; remaining = length ps }))
      ≡ ps
unfolding collect encode_entries
collect_at [] buf seen offset e h m = refl
collect_at (p ∷ ps) buf seen offset e h m =
    ap (λ r. map publish_of (elim r.0 [ none ↦ [] | some v ↦ v ∷ collect (length ps) r.1 ]))
      (next_at p buf seen (encode_entries ps) (length ps) offset m.0 e h)
    ∙ rw (view_of-encode_entry p m.0) (
        ap (λ l. p ∷ l)
          (collect_at ps buf (seen ++ encode_entry p) (offset + length (encode_entry p))
            (e ∙ sym (append_assoc seen (encode_entry p) (encode_entries ps)))
            (omega (arith, h, length-append seen (encode_entry p))) m.1))

-- The entries of a batch that fit their fields are read back, all of them and in order.
pub collect-encode_entries :
    (ps : List Publish)
    → All Measured ps
    → map publish_of (collect (length ps) (iter (encode_entries ps) (length ps))) ≡ ps
collect-encode_entries ps m = collect_at ps (encode_entries ps) [] 0 refl refl m

-- The arguments of `encode_batch` fit their fields.
abbrev pub Fits : ℕ → ℕ → List Publish → Type 0
Fits seq stream_id ps =
    (seq < 2 ^ 64)
    × (stream_id < 2 ^ 32)
    × (length ps < 2 ^ 32)
    × (8 + length (encode_entries ps) < 2 ^ 32)
    × All Measured ps

batch_of-encode_batch :
    (seq stream_id flags entry_flags : ℕ) (ps : List Publish)
    → Fits seq stream_id ps
    → batch_of (encode_batch seq stream_id flags entry_flags ps) ≡ record {
      header = record {
        action = as_u16 publish_batch;
        flags = flags;
        entry_flags = entry_flags;
        msg_len = 8 + length (encode_entries ps);
        seq = seq;
      };
      stream_id = stream_id;
      count = length ps;
      tail = encode_entries ps;
    }
unfolding encode_batch as_u16
batch_of-encode_batch seq stream_id flags entry_flags ps fits = rw (
  small (8 + length (encode_entries ps)) (2 ^ 32) fits.3,
  small (length ps) (2 ^ 32) fits.2,
  u32_bytes (8 + length (encode_entries ps)) fits.3,
  u64_bytes seq fits.0,
  u32_bytes stream_id fits.1,
  u32_bytes (length ps) fits.2,
)

-- A batch whose arguments fit their fields is read back from its frame: the header with its action,
-- number, both flags and the length of the frame, the stream, and by the iterator all entries in
-- order.
pub batch_of-collect :
    (seq stream_id flags entry_flags : ℕ) (ps : List Publish)
    → Fits seq stream_id ps
    → (f : BatchPubFrame) × (batch_of (encode_batch seq stream_id flags entry_flags ps) ≡ f)
      × (f.header.action ≡ as_u16 publish_batch)
      × (f.header.seq ≡ seq)
      × (f.header.flags ≡ flags)
      × (f.header.entry_flags ≡ entry_flags)
      × (total_len f.header ≡ 24 + length f.tail)
      × (f.stream_id ≡ stream_id)
      × (map publish_of (collect f.count (iter f.tail f.count)) ≡ ps)
batch_of-collect seq stream_id flags entry_flags ps fits = (
  record {
    header = record {
      action = as_u16 publish_batch;
      flags = flags;
      entry_flags = entry_flags;
      msg_len = 8 + length (encode_entries ps);
      seq = seq;
    };
    stream_id = stream_id;
    count = length ps;
    tail = encode_entries ps;
  },
  batch_of-encode_batch seq stream_id flags entry_flags ps fits,
  refl,
  refl,
  refl,
  refl,
  omega arith,
  refl,
  collect-encode_entries ps fits.4,
)
