-- ===== src/ConsumerConfig/Tests.antt =====
-- Configurations at concrete settings.
use arbitro.Common.{List, [], length, ok, refl, ◌∷◌, ◌≡◌}
use arbitro.ConsumerConfig.{
  ConsumerConfig, ConsumerConfigBuilder, Setting, WireFields, ack_explicit, ack_policy_from_u8,
  ack_policy_to, build, build_from, build_with, by_start_seq, deliver_mode_from_u8,
  deliver_policy_from_u8, deliver_policy_to, fanout, from_wire, group_or, is_ack_none,
  is_by_start_seq, is_unlimited, max_inflight_to, new_builder, set_one, start_seq_to, wired,
}
use arbitro.ConsumerConfig.Checks.{IsSound, build-IsSound, set_all}

abbrev settings : List Setting
settings =
    max_inflight_to 5
    ∷ ack_policy_to ack_explicit
    ∷ deliver_policy_to by_start_seq
    ∷ start_seq_to 9
    ∷ []

-- The hash of the stream's name is its length here.
abbrev builder : ConsumerConfigBuilder
builder = new_builder length (b'c' ∷ []) (b's' ∷ [])

abbrev built : ConsumerConfig
built = record {
  name = b'c' ∷ [];
  consumer_id = 0;
  stream_id = 1;
  group = b's' ∷ [];
  filters = [];
  max_subject_inflights = [];
  max_inflight = 5;
  ack_policy = ack_explicit;
  deliver_policy = by_start_seq;
  deliver_mode = fanout;
  ack_wait_ms = 0;
  start_seq = 9;
}

build-settings : build (set_all builder settings) ≡ ok built
unfolding build build_from build_with is_ack_none is_by_start_seq is_unlimited group_or new_builder
    set_one set_all
build-settings = refl

build-IsSound_example : IsSound built
build-IsSound_example = build-IsSound length (b'c' ∷ []) (b's' ∷ []) settings built build-settings

abbrev wire_fields : WireFields
wire_fields = record {
  w_stream_id = 1;
  w_name = b'c' ∷ [];
  w_group = b's' ∷ [];
  w_subject = [];
  w_max_inflight = 5;
  w_ack_wait_ms = 0;
  w_start_seq = 9;
  w_max_subject_inflights = [];
}

from_wire-fields : from_wire wire_fields 1 2 0 ≡ ok built
unfolding from_wire wired ack_policy_from_u8 deliver_policy_from_u8 deliver_mode_from_u8
from_wire-fields = refl
