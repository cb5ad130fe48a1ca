-- ===== src/ConsumerConfig/Checks.antt =====
-- What a built configuration satisfies, and what it takes from a frame.
use arbitro.Subject.{Bytes}
use arbitro.Common.{
  List, Option, [], ap, arith, false, none, ok, refl, some, true, ℕ, ◌<◌, ◌∷◌, ◌≡◌, ◌⊎◌,
}
use arbitro.ConsumerConfig.{
  AckPolicy, ConsumerConfig, ConsumerConfigBuilder, DeliverMode, DeliverPolicy, MaxSubjectInflight,
  Setting, WireFields, ack_explicit, ack_none, ack_policy_from_u8, build, build_from, build_with,
  by_start_seq, deliver_all, deliver_mode_from_u8, deliver_new, deliver_policy_from_u8, fanout,
  from_wire, is_ack_none, is_by_start_seq, is_unlimited, new_builder, queue_mode, set_one, wired,
}

unfoldable pub set_all : ConsumerConfigBuilder → List Setting → ConsumerConfigBuilder
set_all b [] = b
set_all b (s ∷ ss) = set_all (set_one b s) ss

-- Limits and deadlines are for consumers that acknowledge, and a start position is a number above 0.
pub record IsSound (c : ConsumerConfig) : Type 0 where
  pub silent :
      (is_ack_none c.ack_policy ≡ false)
      ⊎ ((c.max_inflight ≡ 0) × (c.max_subject_inflights ≡ []) × (c.ack_wait_ms ≡ 0))
  pub started : (is_by_start_seq c.deliver_policy ≡ false) ⊎ (0 < c.start_seq)

is_unlimited-nil : (ls : List MaxSubjectInflight) → is_unlimited ls ≡ true → ls ≡ []
unfolding is_unlimited
is_unlimited-nil [] e = refl
is_unlimited-nil (l ∷ ls) e = absurd (cc e)

build_with-IsSound :
    (b : ConsumerConfigBuilder) (p : AckPolicy) (c : ConsumerConfig)
    → build_with b p ≡ ok c
    → IsSound c
unfolding build_with
build_with-IsSound b p c e = record {
  silent = ground (arith, e, is_unlimited-nil b.b_max_subject_inflights);
  started = ground (arith, e);
}

build_from-ok :
    (b : ConsumerConfigBuilder) (o : Option AckPolicy) (c : ConsumerConfig)
    → build_from b o ≡ ok c
    → IsSound c
unfolding build_from
build_from-ok b none c e = absurd (cc e)
build_from-ok b (some p) c e = build_with-IsSound b p c e

-- Whatever the settings of a builder, in whatever order: a configuration that is built has a limit
-- or a deadline only if its consumer acknowledges, and a start position above 0 if it delivers from
-- one.
pub build-IsSound :
    (wire_hash_32 : Bytes → ℕ) (name stream_name : Bytes) (ss : List Setting) (c : ConsumerConfig)
    → build (set_all (new_builder wire_hash_32 name stream_name) ss) ≡ ok c
    → IsSound c
unfolding build
build-IsSound h name stream_name ss c e =
    let b = set_all (new_builder h name stream_name) ss in build_from-ok b b.b_ack_policy c e

pub ack_policy_code : AckPolicy → ℕ
ack_policy_code ack_none = 0
ack_policy_code ack_explicit = 1

pub deliver_policy_code : DeliverPolicy → ℕ
deliver_policy_code deliver_all = 0
deliver_policy_code deliver_new = 1
deliver_policy_code by_start_seq = 2

pub deliver_mode_code : DeliverMode → ℕ
deliver_mode_code fanout = 0
deliver_mode_code queue_mode = 1

ack_policy_from_u8-some :
    (v : ℕ) (p : AckPolicy) → ack_policy_from_u8 v ≡ some p → ack_policy_code p ≡ v
unfolding ack_policy_from_u8 ack_policy_code
ack_policy_from_u8-some v ack_none e = ground (arith, e)
ack_policy_from_u8-some v ack_explicit e = ground (arith, e)

deliver_policy_from_u8-some :
    (v : ℕ) (p : DeliverPolicy) → deliver_policy_from_u8 v ≡ some p → deliver_policy_code p ≡ v
unfolding deliver_policy_from_u8 deliver_policy_code
deliver_policy_from_u8-some v deliver_all e = ground (arith, e)
deliver_policy_from_u8-some v deliver_new e = ground (arith, e)
deliver_policy_from_u8-some v by_start_seq e = ground (arith, e)

deliver_mode_from_u8-some :
    (v : ℕ) (p : DeliverMode) → deliver_mode_from_u8 v ≡ some p → deliver_mode_code p ≡ v
unfolding deliver_mode_from_u8 deliver_mode_code
deliver_mode_from_u8-some v fanout e = ground (arith, e)
deliver_mode_from_u8-some v queue_mode e = ground (arith, e)

-- The configuration has the policies of these codes, and the name and stream of the frame.
pub record IsTaken (w : WireFields) (ap dp dm : ℕ) (c : ConsumerConfig) : Type 0 where
  pub acks : ack_policy_code c.ack_policy ≡ ap
  pub delivers : deliver_policy_code c.deliver_policy ≡ dp
  pub mode : deliver_mode_code c.deliver_mode ≡ dm
  pub same_name : c.name ≡ w.w_name
  pub same_stream : c.stream_id ≡ w.w_stream_id

wired-IsTaken :
    (w : WireFields) (ap dp dm : ℕ) (a : Option AckPolicy) (d : Option DeliverPolicy)
    (m : Option DeliverMode) (c : ConsumerConfig)
    → ack_policy_from_u8 ap ≡ a
    → deliver_policy_from_u8 dp ≡ d
    → deliver_mode_from_u8 dm ≡ m
    → wired w a d m ≡ ok c
    → IsTaken w ap dp dm c
unfolding wired
wired-IsTaken w ap dp dm none d m c ea ed em e = absurd (cc e)
wired-IsTaken w ap dp dm (some a) none m c ea ed em e = absurd (cc e)
wired-IsTaken w ap dp dm (some a) (some d) none c ea ed em e = absurd (cc e)
wired-IsTaken w ap dp dm (some a) (some d) (some m) c ea ed em e = record {
  acks = ground (arith, e, ack_policy_from_u8-some ap a ea);
  delivers = ground (arith, e, deliver_policy_from_u8-some dp d ed);
  mode = ground (arith, e, deliver_mode_from_u8-some dm m em);
  same_name = ground (arith, e);
  same_stream = ground (arith, e);
}

-- A frame with a policy or a mode of unknown code is refused: an accepted configuration has exactly
-- the policies and the mode of the codes in the frame, and its name and stream.
pub from_wire-IsTaken :
    (w : WireFields) (ap dp dm : ℕ) (c : ConsumerConfig)
    → from_wire w ap dp dm ≡ ok c
    → IsTaken w ap dp dm c
unfolding from_wire
from_wire-IsTaken w ap dp dm c e =
    wired-IsTaken w ap dp dm (ack_policy_from_u8 ap) (deliver_policy_from_u8 dp)
      (deliver_mode_from_u8 dm) c refl refl refl e
