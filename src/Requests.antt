-- ===== src/Requests.antt =====
-- crates/arbitro-client-tokio/src/state/pending.rs: the requests of a client that wait for a reply.
pub mod Answers
mod Tests
use arbitro.Common.{
  List, Result, [], erase, err, if◌then◌else◌, leb, length, lookup, none, ok, put, some, ℕ, ◌+◌,
  ◌∷◌,
}
use arbitro.Subject.{Bytes}
use arbitro.ErrorCode.{ErrorCode, error_from_u16}

-- The errors that the table makes.
pub data ClientError : Type 0 where
  broker : ErrorCode → ClientError
  broker_unknown : ℕ → ClientError
  disconnected channel_closed : ClientError

unfoldable pub from_wire_code : ℕ → ClientError
from_wire_code code = elim (error_from_u16 code) [ some c ↦ broker c | none ↦ broker_unknown code ]

abbrev pub default_max_inflight : ℕ
default_max_inflight = 100000

-- The channels are numbered as they are made; what is sent on them is kept, the last one first.
pub record Pending : Type 0 where
  pub map : List (ℕ × ℕ)
  pub channels : ℕ
  pub sent : List (ℕ × Result ClientError Bytes)

abbrev pub new_table : Pending
new_table = record { map = []; channels = 0; sent = [] }

-- The receiver that is given back is the channel that was made.
unfoldable pub register : ℕ → Pending → Pending
register seq p =
    let tx = p.channels in
    if leb default_max_inflight (length p.map)
    then record p { channels = tx + 1; sent = (tx, err channel_closed) ∷ p.sent }
    else record p { channels = tx + 1; map = put seq tx p.map }

unfoldable pub complete : ℕ → Result ClientError Bytes → Pending → Pending
complete seq result p = elim (lookup seq p.map) [
  | some tx ↦ record p { map = erase seq p.map; sent = (tx, result) ∷ p.sent }
  | none ↦ p
]

unfoldable pub complete_ok : ℕ → Bytes → Pending → Pending
complete_ok seq payload p = complete seq (ok payload) p

unfoldable pub complete_err : ℕ → ℕ → Pending → Pending
complete_err seq code p = complete seq (err (from_wire_code code)) p

unfoldable pub cancel : ℕ → Pending → Pending
cancel seq p = record p { map = erase seq p.map }

unfoldable pub send_all :
    List (ℕ × ℕ) → List (ℕ × Result ClientError Bytes) → List (ℕ × Result ClientError Bytes)
send_all [] sent = sent
send_all ((seq, tx) ∷ drained) sent = send_all drained ((tx, err disconnected) ∷ sent)

unfoldable pub drain_disconnected : Pending → Pending
drain_disconnected p = record p { map = []; sent = send_all p.map p.sent }

pub data Call : Type 0 where
  register_call : ℕ → Call
  complete_ok_call : ℕ → Bytes → Call
  complete_err_call : ℕ → ℕ → Call
  cancel_call : ℕ → Call
  drain_call : Call

unfoldable pub perform : Pending → Call → Pending
perform p (register_call seq) = register seq p
perform p (complete_ok_call seq payload) = complete_ok seq payload p
perform p (complete_err_call seq code) = complete_err seq code p
perform p (cancel_call seq) = cancel seq p
perform p drain_call = drain_disconnected p

unfoldable pub run : Pending → List Call → Pending
run p [] = p
run p (c ∷ calls) = run (perform p c) calls
