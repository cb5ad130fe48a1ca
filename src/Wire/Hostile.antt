-- ===== src/Wire/Hostile.antt =====
-- crates/arbitro-proto/src/v2/ingress/batch_pub_frame.rs: the iterator over a batch whose lengths may
-- lie.
use arbitro.Common.{
  All, Bool-cases, List, Option, [], ap, append_assoc, arith, drop, drop-drop, drop-take, false,
  inl, inr, length, length-drop, length-take, ltb, none, refl, some, suc, sym, take, take-take,
  take-drop, true, zero, ℕ, ◌++◌, ◌+◌, ◌-◌, ◌==◌, ◌∙◌, ◌∷◌, ◌≡◌, ◌≤◌,
}
use arbitro.Subject.{Bytes}
use arbitro.Wire.{field, of_le_bytes}
use arbitro.Wire.BatchPub.{
  BatchPubEntryView, BatchPubIter, batch_pub_entry_header_size, collect, entry_total, next,
  wire_len,
}
use arbitro.Wire.Batches.{not_over}

-- Whole entries: the lengths at the front of each view are those of its parts, so the slices that
-- are taken from it are in range.
abbrev pub Whole : BatchPubEntryView → Type 0
Whole v = wire_len v ≡ length v.buf

unfoldable pub bytes_of : List BatchPubEntryView → Bytes
bytes_of [] = []
bytes_of (v ∷ vs) = v.buf ++ bytes_of vs

field-take :
    (offset size total : ℕ) (xs : Bytes)
    → offset + size ≤ total
    → field offset size (take total xs) ≡ field offset size xs
field-take offset size total xs h = ap of_le_bytes (
    ap (λ l. take size l) (drop-take offset (total - offset) total xs (omega (arith, h)))
    ∙ take-take size (total - offset) (drop offset xs) (omega (arith, h)))

Whole-take :
    (xs : Bytes) → entry_total xs ≤ length xs → Whole (record { buf = take (entry_total xs) xs })
Whole-take xs h =
    let a = field-take 0 2 (entry_total xs) xs (omega arith) in
    let b = field-take 2 2 (entry_total xs) xs (omega arith) in
    let c = field-take 4 4 (entry_total xs) xs (omega arith) in
    omega (arith, a, b, c, length-take (entry_total xs) xs h)

abbrev Stepped : BatchPubIter → Option BatchPubEntryView × BatchPubIter → Type 0
Stepped it (none, after) = Unit
Stepped it (some v, after) =
    Whole v
    × (drop it.offset it.buf ≡ v.buf ++ drop after.offset after.buf)
    × (after.offset ≤ length after.buf)
    × (after.remaining + 1 ≡ it.remaining)

within : (a b : ℕ) → ltb a b ≡ false → b ≤ a
within a b h = ground (arith, h)

nonzero : (n : ℕ) → (n == 0) ≡ false → n - 1 + 1 ≡ n
nonzero n h = ground (arith, h)

stepped :
    (it : BatchPubIter)
    → entry_total (drop it.offset it.buf) ≤ length (drop it.offset it.buf)
    → (it.remaining == 0) ≡ false
    → Stepped it (
      some (record { buf = take (entry_total (drop it.offset it.buf)) (drop it.offset it.buf) }),
      record it {
        offset = it.offset + entry_total (drop it.offset it.buf);
        remaining = it.remaining - 1;
      },
    )
stepped it h more =
    let rest = drop it.offset it.buf in
    let total = entry_total rest in
    (
      Whole-take rest h,
      sym (take-drop total rest)
          ∙ ap (λ l. take total rest ++ l)
              (drop-drop total it.offset (it.offset + total) it.buf refl),
      omega (arith, h, length-drop it.offset it.buf),
      nonzero it.remaining more,
    )

next-Stepped : (it : BatchPubIter) → it.offset ≤ length it.buf → Stepped it (next it)
unfolding next
next-Stepped it h =
    let rest = drop it.offset it.buf in
    elim (Bool-cases (it.remaining == 0)) [
      | inl done ↦ rw done tt
      | inr more ↦ elim (Bool-cases (ltb (length rest) batch_pub_entry_header_size)) [
        | inl short ↦ rw (more, not_over it.offset (length it.buf) h, short) tt
        | inr headed ↦ elim (Bool-cases (ltb (length rest) (entry_total rest))) [
          | inl lying ↦ rw (more, not_over it.offset (length it.buf) h, headed, lying) tt
          | inr whole ↦
              rw (more, not_over it.offset (length it.buf) h, headed, whole)
                (stepped it (within (length rest) (entry_total rest) whole) more)
        ]
      ]
    ]

abbrev pub Collected : BatchPubIter → List BatchPubEntryView → Type 0
Collected it vs =
    All Whole vs
    × (length vs ≤ it.remaining)
    × ((left : Bytes) × (drop it.offset it.buf ≡ bytes_of vs ++ left))

collect_step :
    (fuel : ℕ) (it : BatchPubIter) (r : Option BatchPubEntryView × BatchPubIter)
    → Stepped it r
    → ((after : BatchPubIter)
        → after.offset ≤ length after.buf
        → Collected after (collect fuel after))
    → Collected it (elim r.0 [ none ↦ [] | some v ↦ v ∷ collect fuel r.1 ])
unfolding bytes_of
collect_step fuel it (none, after) h ih = (tt, omega arith, (drop it.offset it.buf, refl))
collect_step fuel it (some v, after) h ih =
    let (whole, few, left) = ih after h.2 in
    (
      (h.0, whole),
      omega (arith, few, h.3),
      (
        left.0,
        h.1
            ∙ ap (λ l. v.buf ++ l) left.1
            ∙ sym (append_assoc v.buf (bytes_of (collect fuel after)) left.0),
      ),
    )

-- Whatever the bytes and the announced count: the views that the iterator gives are whole entries, at
-- most as many as announced, and they are the front of the buffer, one after the other.
pub collect-Collected :
    (fuel : ℕ) (it : BatchPubIter) → it.offset ≤ length it.buf → Collected it (collect fuel it)
unfolding collect bytes_of
collect-Collected zero it h = (tt, omega arith, (drop it.offset it.buf, refl))
collect-Collected (suc fuel) it h =
    collect_step fuel it (next it) (next-Stepped it h) (λ after k. collect-Collected fuel after k)

collect_same :
    (fuel : ℕ) (it : BatchPubIter) (r : Option BatchPubEntryView × BatchPubIter)
    → Stepped it r
    → ((after : BatchPubIter)
        → after.offset ≤ length after.buf
        → after.remaining ≤ fuel
        → collect (suc fuel) after ≡ collect fuel after)
    → it.remaining ≤ suc fuel
    → elim r.0 [ none ↦ [] | some v ↦ v ∷ collect (suc fuel) r.1 ]
      ≡ elim r.0 [ none ↦ [] | some v ↦ v ∷ collect fuel r.1 ]
collect_same fuel it (none, after) h ih le = refl
collect_same fuel it (some v, after) h ih le =
    ap (λ l. v ∷ l) (ih after h.2 (omega (arith, h.3, le)))

zero_remains : (n : ℕ) → n ≤ 0 → (n == 0) ≡ true
zero_remains n h = ground (arith, h)

ends_at_zero : (it : BatchPubIter) → it.remaining ≤ 0 → (next it).0 ≡ none
unfolding next
ends_at_zero it h = rw (zero_remains it.remaining h) refl

-- The loop over the iterator ends after as many steps as the frame announces at most: with that much
-- fuel nothing more is seen on more fuel.
pub collect_enough :
    (fuel : ℕ) (it : BatchPubIter)
    → it.offset ≤ length it.buf
    → it.remaining ≤ fuel
    → collect (suc fuel) it ≡ collect fuel it
unfolding collect
collect_enough zero it h le = ap (λ o. elim o [ none ↦ [] | some v ↦ v ∷ [] ]) (ends_at_zero it le)
collect_enough (suc fuel) it h le =
    collect_same fuel it (next it) (next-Stepped it h) (λ after k m. collect_enough fuel after k m)
      le
