-- ===== src/Action.antt =====
-- crates/arbitro-proto/src/action.rs: the code of each kind of frame.
pub mod Codes
mod Tests
use arbitro.Common.{Bool, List, Option, [], false, lookup, true, ℕ, ◌∷◌}

pub data Action : Type 0 where
  publish publish_batch publish_with_reply hello auth deliver ack nack rep_ok rep_error rep_batch :
      Action
  batch_ack fanout_batch batch_nack ack_term subscribe unsubscribe subscribe_batch : Action
  rep_subscribe_batch create_stream delete_stream get_stream list_streams purge_stream : Action
  drain_subject delete_message create_consumer delete_consumer get_consumer list_consumers : Action
  consumer_stats pause_consumer resume_consumer ping pong disconnect publish_delayed create_cron :
      Action
  delete_cron list_crons cron_fire cron_ack ack_state_req ack_state_rep ack_batch ack_batch_resp :
      Action

-- The arms of the match in `from_u16`.
abbrev arms : List (ℕ × Action)
arms =
    (1, hello)
    ∷ (2, auth)
    ∷ (257, publish)
    ∷ (259, publish_batch)
    ∷ (260, publish_with_reply)
    ∷ (512, deliver)
    ∷ (513, ack)
    ∷ (514, nack)
    ∷ (515, rep_ok)
    ∷ (516, rep_error)
    ∷ (517, rep_batch)
    ∷ (518, batch_ack)
    ∷ (519, fanout_batch)
    ∷ (522, batch_nack)
    ∷ (523, ack_term)
    ∷ (769, subscribe)
    ∷ (770, unsubscribe)
    ∷ (771, subscribe_batch)
    ∷ (772, rep_subscribe_batch)
    ∷ (1025, create_stream)
    ∷ (1026, delete_stream)
    ∷ (1027, get_stream)
    ∷ (1028, list_streams)
    ∷ (1029, purge_stream)
    ∷ (1030, drain_subject)
    ∷ (1031, delete_message)
    ∷ (1281, create_consumer)
    ∷ (1282, delete_consumer)
    ∷ (1283, get_consumer)
    ∷ (1284, list_consumers)
    ∷ (1285, consumer_stats)
    ∷ (1286, pause_consumer)
    ∷ (1287, resume_consumer)
    ∷ (1537, ping)
    ∷ (1538, pong)
    ∷ (1541, disconnect)
    ∷ (2049, publish_delayed)
    ∷ (1793, create_cron)
    ∷ (1794, delete_cron)
    ∷ (1795, list_crons)
    ∷ (1796, cron_fire)
    ∷ (1797, cron_ack)
    ∷ (2561, ack_state_req)
    ∷ (2562, ack_state_rep)
    ∷ (2563, ack_batch)
    ∷ (2564, ack_batch_resp)
    ∷ []

-- `none` for an unknown code.
pub from_u16 : ℕ → Option Action
from_u16 v = lookup v arms

unfoldable pub as_u16 : Action → ℕ
as_u16 publish = 257
as_u16 publish_batch = 259
as_u16 publish_with_reply = 260
as_u16 hello = 1
as_u16 auth = 2
as_u16 deliver = 512
as_u16 ack = 513
as_u16 nack = 514
as_u16 rep_ok = 515
as_u16 rep_error = 516
as_u16 rep_batch = 517
as_u16 batch_ack = 518
as_u16 fanout_batch = 519
as_u16 batch_nack = 522
as_u16 ack_term = 523
as_u16 subscribe = 769
as_u16 unsubscribe = 770
as_u16 subscribe_batch = 771
as_u16 rep_subscribe_batch = 772
as_u16 create_stream = 1025
as_u16 delete_stream = 1026
as_u16 get_stream = 1027
as_u16 list_streams = 1028
as_u16 purge_stream = 1029
as_u16 drain_subject = 1030
as_u16 delete_message = 1031
as_u16 create_consumer = 1281
as_u16 delete_consumer = 1282
as_u16 get_consumer = 1283
as_u16 list_consumers = 1284
as_u16 consumer_stats = 1285
as_u16 pause_consumer = 1286
as_u16 resume_consumer = 1287
as_u16 ping = 1537
as_u16 pong = 1538
as_u16 disconnect = 1541
as_u16 publish_delayed = 2049
as_u16 create_cron = 1793
as_u16 delete_cron = 1794
as_u16 list_crons = 1795
as_u16 cron_fire = 1796
as_u16 cron_ack = 1797
as_u16 ack_state_req = 2561
as_u16 ack_state_rep = 2562
as_u16 ack_batch = 2563
as_u16 ack_batch_resp = 2564

-- Publish family, acknowledgements and rejections.
pub is_hot : Action → Bool
is_hot publish = true
is_hot publish_batch = true
is_hot publish_with_reply = true
is_hot ack = true
is_hot nack = true
is_hot batch_ack = true
is_hot batch_nack = true
is_hot a = false

-- Frames that carry a subject.
pub has_subject : Action → Bool
has_subject publish = true
has_subject publish_batch = true
has_subject publish_with_reply = true
has_subject publish_delayed = true
has_subject subscribe = true
has_subject a = false

-- The publish family.
pub is_publish : Action → Bool
is_publish publish = true
is_publish publish_batch = true
is_publish publish_with_reply = true
is_publish publish_delayed = true
is_publish a = false
