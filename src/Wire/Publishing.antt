-- ===== src/Wire/Publishing.antt =====
-- crates/arbitro-proto/src/v2/ingress/pub_frame.rs: what `parse` makes of a frame, its own or a hostile
-- one.
use arbitro.ErrorCode.{ErrorCode, buffer_too_short}
use arbitro.Common.{
  Bool, Result, ap, arith, drop, drop-drop, drop_all, drop_past, err, false, if◌then◌else◌, length,
  length-append, length-drop, length-take, ltb, none, ok, refl, some, sym, take, take_all,
  take-drop, true, ℕ, ◌%◌, ◌++◌, ◌+◌, ◌<◌, ◌^◌, ◌↔◌, ◌∙◌, ◌≡◌, ◌≤◌,
}
use arbitro.Subject.{Bytes}
use arbitro.Action.{as_u16, publish}
use arbitro.Wire.{header_size, total_len, u16_bytes, u32_bytes, u64_bytes}
use arbitro.Wire.Pub.{
  PubFrame, encode, msg_id, parse, payload_len, pub_body_fixed, pub_of, pub_payload, pub_subject,
  ref_from_bytes, validate,
}

-- The arguments of `encode` fit their fields.
abbrev pub Fits : ℕ → ℕ → ℕ → ℕ → Bytes → Bytes → Bytes → Type 0
Fits seq stream_id flags entry_flags subject id payload =
    (seq < 2 ^ 64)
    × (stream_id < 2 ^ 32)
    × (flags < 2 ^ 8)
    × (entry_flags < 2 ^ 8)
    × (length subject < 2 ^ 16)
    × (length id < 2 ^ 16)
    × (length subject + length id + length payload + 8 < 2 ^ 32)

abbrev sent : ℕ → ℕ → ℕ → ℕ → Bytes → Bytes → Bytes → PubFrame
sent seq stream_id flags entry_flags subject id payload = record {
  header = record {
    action = as_u16 publish;
    flags = flags;
    entry_flags = entry_flags;
    msg_len = 8 + length subject + length id + length payload;
    seq = seq;
  };
  stream_id = stream_id;
  subject_len = length subject;
  msg_id_len = length id;
  tail = subject ++ (id ++ payload);
}

small : (n m : ℕ) → n < m → n % m ≡ n
small n m h = grind arith

pub_of-encode :
    (seq stream_id flags entry_flags : ℕ) (subject id payload : Bytes)
    → Fits seq stream_id flags entry_flags subject id payload
    → pub_of (encode seq stream_id flags entry_flags subject id payload)
      ≡ sent seq stream_id flags entry_flags subject id payload
unfolding encode as_u16
pub_of-encode seq stream_id flags entry_flags subject id payload fits = rw (
  small (8 + length subject + length id + length payload) (2 ^ 32) (omega (arith, fits.6)),
  small (length subject) (2 ^ 16) fits.4,
  small (length id) (2 ^ 16) fits.5,
  u32_bytes (8 + length subject + length id + length payload) (omega (arith, fits.6)),
  u64_bytes seq fits.0,
  u32_bytes stream_id fits.1,
  u16_bytes (length subject) fits.4,
  u16_bytes (length id) fits.5,
)

ref_from_bytes-some : (buf : Bytes) → 24 ≤ length buf → ref_from_bytes buf ≡ some (pub_of buf)
unfolding ref_from_bytes
ref_from_bytes-some buf h = ground (arith, h)

ref_from_bytes-encode :
    (seq stream_id flags entry_flags : ℕ) (subject id payload : Bytes)
    → Fits seq stream_id flags entry_flags subject id payload
    → ref_from_bytes (encode seq stream_id flags entry_flags subject id payload)
      ≡ some (sent seq stream_id flags entry_flags subject id payload)
unfolding encode
ref_from_bytes-encode seq stream_id flags entry_flags subject id payload fits =
    ref_from_bytes-some (encode seq stream_id flags entry_flags subject id payload) (omega arith)
    ∙ ap some (pub_of-encode seq stream_id flags entry_flags subject id payload fits)

-- What `validate` has found in order.
abbrev IsValid : PubFrame → Type 0
IsValid f =
    (f.subject_len + f.msg_id_len ≤ length f.tail)
    × (pub_body_fixed + (f.subject_len + f.msg_id_len) ≤ f.header.msg_len)

validate_ok : (f : PubFrame) → IsValid f → validate f ≡ ok tt
unfolding validate
validate_ok f h = ground (arith, h.0, h.1)

sent-IsValid :
    (seq stream_id flags entry_flags : ℕ) (subject id payload : Bytes)
    → IsValid (sent seq stream_id flags entry_flags subject id payload)
sent-IsValid seq stream_id flags entry_flags subject id payload =
    (omega (arith, length-append subject (id ++ payload), length-append id payload), omega arith)

validate-IsValid : (f : PubFrame) (u : Unit) → validate f ≡ ok u → IsValid f
unfolding validate
validate-IsValid f u h = (ground (arith, h), ground (arith, h))

refused : (e : ErrorCode) (f : PubFrame) → err e ≡ ok f → ⊥
refused e f h = ground (arith, h)

checked :
    (g f : PubFrame) (r : Result {0, 0} ErrorCode Unit)
    → validate g ≡ r
    → elim r [ ok u ↦ ok g | err e ↦ err e ] ≡ ok f
    → (f ≡ g) × IsValid g
checked g f (ok u) v h = (sym (ap (λ r. elim r [ ok x ↦ x | err e ↦ g ]) h), validate-IsValid g u v)
checked g f (err e) v h = absurd (refused e f h)

long_enough :
    (g f : PubFrame) (short : Bool)
    → elim (if short then none else some g) [
      | none ↦ err buffer_too_short
      | some x ↦ elim (validate x) [ ok u ↦ ok x | err e ↦ err e ]
    ]
      ≡ ok f
    → (short ≡ false) × (f ≡ g) × IsValid g
long_enough g f true h = absurd (refused buffer_too_short f h)
long_enough g f false h = let c = checked g f (validate g) refl h in (refl, c.0, c.1)

parse-IsValid :
    (buf : Bytes) (f : PubFrame)
    → parse buf ≡ ok f
    → (f ≡ pub_of buf) × (24 ≤ length buf) × IsValid f
unfolding parse ref_from_bytes
parse-IsValid buf f h =
    let c = long_enough (pub_of buf) f (ltb (length buf) (header_size + pub_body_fixed)) h in
    (c.1, ground (arith, c.0), rw c.1 c.2)

join : (n m : ℕ) (xs : Bytes) → take n xs ++ (take m (drop n xs) ++ drop (n + m) xs) ≡ xs
join n m xs =
    ap (λ l. take n xs ++ l)
      (ap (λ l. take m (drop n xs) ++ l) (sym (drop-drop m n (n + m) xs refl))
        ∙ take-drop m (drop n xs))
    ∙ take-drop n xs

-- A frame that parses has its three slices in range, they are the whole tail, and the count of
-- payload bytes in the header is that of the payload exactly where the header says how long the
-- buffer is.
pub parse-InRange :
    (buf : Bytes) (f : PubFrame)
    → parse buf ≡ ok f
    → (f.subject_len + f.msg_id_len ≤ length f.tail)
      × (pub_subject f ++ (msg_id f ++ pub_payload f) ≡ f.tail)
      × (length (pub_subject f) ≡ f.subject_len)
      × (length (msg_id f) ≡ f.msg_id_len)
      × ((payload_len f ≡ length (pub_payload f)) ↔ (total_len f.header ≡ length buf))
unfolding pub_subject msg_id pub_payload payload_len
parse-InRange buf f h =
    let (same, long, valid) = parse-IsValid buf f h in
    let tail_len = ap (λ x. length x) (ap (λ g. g.tail) same) ∙ length-drop 24 buf in
    let payload_bytes = length-drop (f.subject_len + f.msg_id_len) f.tail in
    (
      valid.0,
      join f.subject_len f.msg_id_len f.tail,
      length-take f.subject_len f.tail (omega (arith, valid.0)),
      length-take f.msg_id_len (drop f.subject_len f.tail)
          (omega (arith, valid.0, length-drop f.subject_len f.tail)),
      (
        λ e. omega (arith, e, payload_bytes, tail_len, long, valid.0, valid.1),
        λ e. omega (arith, e, payload_bytes, tail_len, long, valid.0, valid.1),
      ),
    )

parse_of :
    (buf : Bytes) (f : PubFrame)
    → ref_from_bytes buf ≡ some f
    → validate f ≡ ok tt
    → parse buf ≡ ok f
unfolding parse
parse_of buf f r v =
    ap
      (λ o. elim o [
        | none ↦ err buffer_too_short
        | some g ↦ elim (validate g) [ ok u ↦ ok g | err e ↦ err e ]
      ])
      r
    ∙ ap (λ x. elim x [ ok u ↦ ok f | err e ↦ err e ]) v

-- A publish whose arguments fit their fields is parsed back: the header, the stream, the subject, the
-- identifier and the payload are the ones that were encoded, and the count of payload bytes in the
-- header is the payload's length.
pub parse-encode :
    (seq stream_id flags entry_flags : ℕ) (subject id payload : Bytes)
    → Fits seq stream_id flags entry_flags subject id payload
    → (f : PubFrame) × (parse (encode seq stream_id flags entry_flags subject id payload) ≡ ok f)
      × (f.header.action ≡ as_u16 publish)
      × (f.header.seq ≡ seq)
      × (f.header.flags ≡ flags)
      × (f.header.entry_flags ≡ entry_flags)
      × (f.stream_id ≡ stream_id)
      × (pub_subject f ≡ subject)
      × (msg_id f ≡ id)
      × (pub_payload f ≡ payload)
      × (payload_len f ≡ length payload)
unfolding pub_subject msg_id pub_payload payload_len
parse-encode seq stream_id flags entry_flags subject id payload fits =
    let f = sent seq stream_id flags entry_flags subject id payload in
    (
      f,
      parse_of (encode seq stream_id flags entry_flags subject id payload) f
          (ref_from_bytes-encode seq stream_id flags entry_flags subject id payload fits)
          (validate_ok f (sent-IsValid seq stream_id flags entry_flags subject id payload)),
      refl,
      refl,
      refl,
      refl,
      refl,
      take_all subject (id ++ payload) (length subject) refl,
      ap (λ l. take (length id) l) (drop_all subject (id ++ payload) (length subject) refl)
          ∙ take_all id payload (length id) refl,
      drop_past subject (id ++ payload) (length id) (length subject + length id) refl
          ∙ drop_all id payload (length id) refl,
      omega arith,
    )
