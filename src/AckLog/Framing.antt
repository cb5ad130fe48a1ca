-- ===== src/AckLog/Framing.antt =====
-- crates/arbitro-client-tokio/src/ackstore/wal.rs (scan_bytes): one frame, whole or torn.
use arbitro.Common.{
  Option, ap, append_assoc, arith, drop_all, if◌then◌else◌, length, length-append, length-take_le,
  ltb, none, not, refl, some, suc, take, take_all, zero, ℕ, ◌++◌, ◌+◌, ◌<◌, ◌==◌, ◌^◌, ◌||◌, ◌≡◌,
  ◌≤◌,
}
use arbitro.Subject.{Bytes}
use arbitro.Wire.{field, le_bytes, u32_bytes}
use arbitro.AckLog.Decoding.{small32}
use arbitro.AckLog.{Decoded, crc32c, decode_payload, frame, max_payload, next_frame}

accepted {ℓ} :
    {A : Type ℓ} (n plen crc want : ℕ) (x y : Option A)
    → 4 + plen + 4 ≤ n
    → 0 < plen
    → plen ≤ max_payload
    → crc ≡ want
    → x ≡ y
    → (if ltb n 4
        then none
        else if (plen == 0) || ltb max_payload plen
        then none
        else if ltb n (4 + plen + 4)
        then none
        else if not (crc == want)
        then none
        else x)
      ≡ y
accepted n plen crc want x y size some_bytes small same result = ground arith

refused {ℓ} :
    {A : Type ℓ} (n plen : ℕ) (x : Option A)
    → n < 4 + plen + 4
    → (if ltb n 4
        then none
        else if (plen == 0) || ltb max_payload plen
        then none
        else if ltb n (4 + plen + 4)
        then none
        else x)
      ≡ none
refused n plen x size = ground arith

crc32c-small : (payload : Bytes) → crc32c payload < 2 ^ 32
unfolding crc32c
crc32c-small payload = omega arith

announced :
    (payload rest : Bytes)
    → length payload ≤ max_payload
    → field 0 4 (frame payload ++ rest) ≡ length payload
unfolding frame
announced payload rest small =
    rw (small32 (length payload) (omega (arith, small)))
      (u32_bytes (length payload) (omega (arith, small)))

pub next_frame-frame :
    (payload rest : Bytes) (d : Decoded)
    → 0 < length payload
    → length payload ≤ max_payload
    → decode_payload payload ≡ some d
    → next_frame (frame payload ++ rest) ≡ some (d, 4 + length payload + 4)
unfolding next_frame frame
next_frame-frame payload rest d some_bytes small good =
    rw
      (
        append_assoc payload (le_bytes 4 (crc32c payload)) rest,
        small32 (length payload) (omega (arith, small)),
        u32_bytes (length payload) (omega (arith, small)),
        take_all payload (le_bytes 4 (crc32c payload) ++ rest) (length payload) refl,
        drop_all payload (le_bytes 4 (crc32c payload) ++ rest) (length payload) refl,
        u32_bytes (crc32c payload) (crc32c-small payload),
        good,
      )
      (accepted _ (length payload) (crc32c payload) (crc32c payload) _ _
        (omega (arith, length-append payload (le_bytes 4 (crc32c payload) ++ rest))) some_bytes
        small refl (ap (λ n. some (d, 4 + n + 4)) (announced payload rest small)))

pub next_frame-take :
    (payload : Bytes) (k : ℕ)
    → length payload ≤ max_payload
    → k < 4 + length payload + 4
    → next_frame (take k (frame payload)) ≡ none
unfolding next_frame frame
next_frame-take payload zero small h = refl
next_frame-take payload (suc zero) small h = refl
next_frame-take payload (suc (suc zero)) small h = refl
next_frame-take payload (suc (suc (suc zero))) small h = refl
next_frame-take payload (suc (suc (suc (suc k)))) small h =
    rw
      (
        small32 (length payload) (omega (arith, small)),
        u32_bytes (length payload) (omega (arith, small)),
      )
      (refused _ (length payload) _
        (omega (arith, h, length-take_le k (payload ++ le_bytes 4 (crc32c payload)))))
