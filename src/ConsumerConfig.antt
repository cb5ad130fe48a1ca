-- ===== src/ConsumerConfig.antt =====
-- crates/arbitro-proto/src/config/consumer.rs: the configuration of a consumer, from its builder or
-- from the fields of a frame. The hash of the stream's name, of a library, is a parameter.
pub mod Checks
mod Tests
use arbitro.Common.{
  Bool, List, Option, Result, [], err, false, if◌then◌else◌, none, not, ok, some, true, ℕ, ◌&&◌,
  ◌++◌, ◌==◌, ◌∷◌,
}
use arbitro.Subject.{Bytes, is_empty}
use arbitro.ErrorCode.{ErrorCode, invalid_consumer_config}

pub data AckPolicy : Type 0 where
  ack_none ack_explicit : AckPolicy

pub data DeliverPolicy : Type 0 where
  deliver_all deliver_new by_start_seq : DeliverPolicy

pub data DeliverMode : Type 0 where
  fanout queue_mode : DeliverMode

pub record MaxSubjectInflight : Type 0 where
  pub pattern_of : Bytes
  pub limit : ℕ

pub record ConsumerConfig : Type 0 where
  pub name : Bytes
  pub consumer_id : ℕ
  pub stream_id : ℕ
  pub group : Bytes
  pub filters : List Bytes
  pub max_subject_inflights : List MaxSubjectInflight
  pub max_inflight : ℕ
  pub ack_policy : AckPolicy
  pub deliver_policy : DeliverPolicy
  pub deliver_mode : DeliverMode
  pub ack_wait_ms : ℕ
  pub start_seq : ℕ

pub record ConsumerConfigBuilder : Type 0 where
  pub b_name : Bytes
  pub b_stream_name : Bytes
  pub b_stream_id : ℕ
  pub b_group : Option Bytes
  pub b_filters : List Bytes
  pub b_max_subject_inflights : List MaxSubjectInflight
  pub b_max_inflight : ℕ
  pub b_ack_policy : Option AckPolicy
  pub b_deliver_policy : DeliverPolicy
  pub b_deliver_mode : DeliverMode
  pub b_ack_wait_ms : ℕ
  pub b_start_seq : ℕ

pub data ConsumerConfigError : Type 0 where
  missing_ack_policy inflight_without_ack subject_inflight_without_ack : ConsumerConfigError
  ack_wait_without_ack start_seq_required : ConsumerConfigError

pub ack_policy_from_u8 : ℕ → Option AckPolicy
ack_policy_from_u8 v = if v == 0 then some ack_none else if v == 1 then some ack_explicit else none

pub deliver_policy_from_u8 : ℕ → Option DeliverPolicy
deliver_policy_from_u8 v =
    if v == 0
    then some deliver_all
    else if v == 1
    then some deliver_new
    else if v == 2
    then some by_start_seq
    else none

pub deliver_mode_from_u8 : ℕ → Option DeliverMode
deliver_mode_from_u8 v = if v == 0 then some fanout else if v == 1 then some queue_mode else none

-- `ConsumerConfig::new`, with the hash of the library.
pub new_builder : (Bytes → ℕ) → Bytes → Bytes → ConsumerConfigBuilder
new_builder wire_hash_32 name stream_name = record {
  b_name = name;
  b_stream_name = stream_name;
  b_stream_id = wire_hash_32 stream_name;
  b_group = none;
  b_filters = [];
  b_max_subject_inflights = [];
  b_max_inflight = 0;
  b_ack_policy = none;
  b_deliver_policy = deliver_all;
  b_deliver_mode = fanout;
  b_ack_wait_ms = 0;
  b_start_seq = 0;
}

-- One of the builder's setters, with its argument.
pub data Setting : Type 0 where
  group_to : Bytes → Setting
  filter_by : Bytes → Setting
  max_subject_inflight_to : Bytes → ℕ → Setting
  max_inflight_to ack_wait_ms_to start_seq_to : ℕ → Setting
  ack_policy_to : AckPolicy → Setting
  deliver_policy_to : DeliverPolicy → Setting
  deliver_mode_to : DeliverMode → Setting

pub set_one : ConsumerConfigBuilder → Setting → ConsumerConfigBuilder
set_one b (group_to name) = record b { b_group = some name }
set_one b (filter_by pattern') = record b { b_filters = b.b_filters ++ pattern' ∷ [] }
set_one b (max_subject_inflight_to pattern' limit) = record b {
  b_max_subject_inflights =
      b.b_max_subject_inflights ++ record { pattern_of = pattern'; limit = limit } ∷ [];
}
set_one b (max_inflight_to v) = record b { b_max_inflight = v }
set_one b (ack_wait_ms_to v) = record b { b_ack_wait_ms = v }
set_one b (start_seq_to v) = record b { b_start_seq = v }
set_one b (ack_policy_to v) = record b { b_ack_policy = some v }
set_one b (deliver_policy_to v) = record b { b_deliver_policy = v }
set_one b (deliver_mode_to v) = record b { b_deliver_mode = v }

pub is_ack_none : AckPolicy → Bool
is_ack_none ack_none = true
is_ack_none ack_explicit = false

pub is_by_start_seq : DeliverPolicy → Bool
is_by_start_seq by_start_seq = true
is_by_start_seq p = false

group_or : Option Bytes → Bytes → Bytes
group_or none stream_name = stream_name
group_or (some g) stream_name = g

is_unlimited : List MaxSubjectInflight → Bool
is_unlimited [] = true
is_unlimited (l ∷ ls) = false

-- `build` once the policy is known.
build_with : ConsumerConfigBuilder → AckPolicy → Result ConsumerConfigError ConsumerConfig
unfolding is_ack_none is_by_start_seq group_or is_unlimited
build_with b ack_policy =
    if is_ack_none ack_policy && not (b.b_max_inflight == 0)
    then err inflight_without_ack
    else if is_ack_none ack_policy && not (is_unlimited b.b_max_subject_inflights)
    then err subject_inflight_without_ack
    else if is_ack_none ack_policy && not (b.b_ack_wait_ms == 0)
    then err ack_wait_without_ack
    else if is_by_start_seq b.b_deliver_policy && b.b_start_seq == 0
    then err start_seq_required
    else ok (record {
      name = b.b_name;
      consumer_id = 0;
      stream_id = b.b_stream_id;
      group = group_or b.b_group b.b_stream_name;
      filters = b.b_filters;
      max_subject_inflights = b.b_max_subject_inflights;
      max_inflight = b.b_max_inflight;
      ack_policy = ack_policy;
      deliver_policy = b.b_deliver_policy;
      deliver_mode = b.b_deliver_mode;
      ack_wait_ms = b.b_ack_wait_ms;
      start_seq = b.b_start_seq;
    })

build_from : ConsumerConfigBuilder → Option AckPolicy → Result ConsumerConfigError ConsumerConfig
unfolding build_with
build_from b none = err missing_ack_policy
build_from b (some p) = build_with b p

pub build : ConsumerConfigBuilder → Result ConsumerConfigError ConsumerConfig
unfolding build_from
build b = build_from b b.b_ack_policy

-- The fields of a frame that `from_wire` takes over as they are.
pub record WireFields : Type 0 where
  pub w_stream_id : ℕ
  pub w_name : Bytes
  pub w_group : Bytes
  pub w_subject : Bytes
  pub w_max_inflight : ℕ
  pub w_ack_wait_ms : ℕ
  pub w_start_seq : ℕ
  pub w_max_subject_inflights : List MaxSubjectInflight

wired :
    WireFields
    → Option AckPolicy
    → Option DeliverPolicy
    → Option DeliverMode
    → Result ErrorCode ConsumerConfig
wired w (some p) (some d) (some m) = ok (record {
  name = w.w_name;
  consumer_id = 0;
  stream_id = w.w_stream_id;
  group = w.w_group;
  filters = if is_empty w.w_subject then [] else w.w_subject ∷ [];
  max_subject_inflights = w.w_max_subject_inflights;
  max_inflight = w.w_max_inflight;
  ack_policy = p;
  deliver_policy = d;
  deliver_mode = m;
  ack_wait_ms = w.w_ack_wait_ms;
  start_seq = w.w_start_seq;
})
wired w p d m = err invalid_consumer_config

pub from_wire : WireFields → ℕ → ℕ → ℕ → Result ErrorCode ConsumerConfig
unfolding wired ack_policy_from_u8 deliver_policy_from_u8 deliver_mode_from_u8
from_wire w ack_policy deliver_policy deliver_mode =
    wired w (ack_policy_from_u8 ack_policy) (deliver_policy_from_u8 deliver_policy)
      (deliver_mode_from_u8 deliver_mode)
