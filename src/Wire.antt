-- ===== src/Wire.antt =====
-- crates/arbitro-proto/src/v2/header.rs: numbers in little-endian bytes and the header of a frame. The
-- structs of the frames are `repr(C)` without padding, so a frame is its fields one after the other.
mod Tests
pub mod Pub
pub mod Publishing
pub mod BatchPub
pub mod Batches
pub mod Hostile
pub mod Acks
pub mod Acknowledging
use arbitro.Common.{
  [], arith, drop, get_or, refl, suc, take, zero, ℕ, ◌%◌, ◌*◌, ◌++◌, ◌+◌, ◌/◌, ◌<◌, ◌^◌, ◌∷◌, ◌≡◌,
}
use arbitro.Subject.{Bytes}

-- A number in n bytes, the lowest first, and back.
abbrev pub le_bytes : ℕ → ℕ → Bytes
le_bytes zero x = []
le_bytes (suc n) x = x % 256 ∷ le_bytes n (x / 256)

abbrev pub of_le_bytes : Bytes → ℕ
of_le_bytes [] = 0
of_le_bytes (b ∷ bs) = b + 256 * of_le_bytes bs

-- The field of a size that starts at an offset.
abbrev pub field : ℕ → ℕ → Bytes → ℕ
field offset size bytes = of_le_bytes (take size (drop offset bytes))

pub record Header : Type 0 where
  pub action : ℕ
  pub flags : ℕ
  pub entry_flags : ℕ
  pub msg_len : ℕ
  pub seq : ℕ

abbrev pub header_size : ℕ
header_size = 16

abbrev pub new_header : ℕ → ℕ → ℕ → Header
new_header action msg_len seq = record {
  action = action;
  flags = 0;
  entry_flags = 0;
  msg_len = msg_len;
  seq = seq;
}

abbrev pub with_flags : Header → ℕ → Header
with_flags h flags = record h { flags = flags }

abbrev pub with_entry_flags : Header → ℕ → Header
with_entry_flags h entry_flags = record h { entry_flags = entry_flags }

abbrev pub total_len : Header → ℕ
total_len h = header_size + h.msg_len

-- The layout of the struct.
abbrev pub header_bytes : Header → Bytes
header_bytes h =
    le_bytes 2 h.action ++ (h.flags ∷ h.entry_flags ∷ (le_bytes 4 h.msg_len ++ le_bytes 8 h.seq))

abbrev pub header_of : Bytes → Header
header_of bytes = record {
  action = field 0 2 bytes;
  flags = get_or bytes 2 0;
  entry_flags = get_or bytes 3 0;
  msg_len = field 4 4 bytes;
  seq = field 8 8 bytes;
}

-- Every field of a header is in the range of its type.
abbrev pub Ranged : Header → Type 0
Ranged h =
    (h.action < 2 ^ 16)
    × (h.flags < 2 ^ 8)
    × (h.entry_flags < 2 ^ 8)
    × (h.msg_len < 2 ^ 32)
    × (h.seq < 2 ^ 64)

abbrev power : ℕ → ℕ
power zero = 1
power (suc n) = 256 * power n

of_le_bytes-le_bytes : (n x : ℕ) → x < power n → of_le_bytes (le_bytes n x) ≡ x
of_le_bytes-le_bytes zero x h = omega arith
of_le_bytes-le_bytes (suc n) x h =
    omega (arith, of_le_bytes-le_bytes n (x / 256) (omega (arith, h)))

-- The three widths that the frames use.
pub u16_bytes : (x : ℕ) → x < 2 ^ 16 → of_le_bytes (le_bytes 2 x) ≡ x
u16_bytes x h = of_le_bytes-le_bytes 2 x h

pub u32_bytes : (x : ℕ) → x < 2 ^ 32 → of_le_bytes (le_bytes 4 x) ≡ x
u32_bytes x h = of_le_bytes-le_bytes 4 x h

pub u64_bytes : (x : ℕ) → x < 2 ^ 64 → of_le_bytes (le_bytes 8 x) ≡ x
u64_bytes x h = of_le_bytes-le_bytes 8 x h

pub header_of-header_bytes :
    (h : Header) (rest : Bytes) → Ranged h → header_of (header_bytes h ++ rest) ≡ h
header_of-header_bytes h rest r =
    rw (u16_bytes h.action r.0, u32_bytes h.msg_len r.3, u64_bytes h.seq r.4) refl
