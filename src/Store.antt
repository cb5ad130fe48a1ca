-- ===== src/Store.antt =====
-- crates/arbitro-store/src/store.rs: what a message store takes and gives, whatever keeps the bytes.
use arbitro.Common.{Bool, ℕ, ◌%◌, ◌+◌, ◌-◌, ◌==◌}
use arbitro.Subject.{Bytes, subject_matches}

-- `StoreError`; an `ErrorKind` is a number.
pub data StoreError : Type 0 where
  full not_found entry_too_large invalid_subject_length : StoreError
  io : ℕ → StoreError

-- How a call can end without an answer: with an error as a value, or by a failed check of the
-- language (a slice of the wrong length).
pub data Fault : Type 0 where
  refused : StoreError → Fault
  panicked : Fault

pub record Entry : Type 0 where
  pub seq : ℕ
  pub stream_id : ℕ
  pub timestamp : ℕ
  pub subject : Bytes
  pub payload : Bytes
  pub flags : ℕ

pub record EntryRef : Type 0 where
  pub stream_id : ℕ
  pub subject : Bytes
  pub payload : Bytes
  pub flags : ℕ
  pub deliver_at_ms : ℕ

pub record StoreInfo : Type 0 where
  pub messages : ℕ
  pub bytes : ℕ
  pub first_seq : ℕ
  pub last_seq : ℕ

-- `flags & TOMBSTONE != 0` and `flags | TOMBSTONE`: the flag is bit 0.
abbrev pub is_tombstone : ℕ → Bool
is_tombstone flags = flags % 2 == 1

abbrev pub with_tombstone : ℕ → ℕ
with_tombstone flags = flags + 1 - flags % 2

unfoldable pub entry_matches : Entry → Bytes → Bool
entry_matches entry pattern = subject_matches pattern entry.subject
