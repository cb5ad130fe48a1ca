-- ===== src/Rules.antt =====
-- crates/arbitro-server/src/transport/rules: which streams, consumers and subscriptions may exist,
-- by their filters. `claimed` and `siblings` are the filters that exist.
pub mod Streams
pub mod Readers
mod Tests
use arbitro.Common.{
  Bool, List, Result, [], err, false, if◌then◌else◌, not, ok, true, ℕ, ◌&&◌, ◌==◌, ◌||◌, ◌∷◌,
}
use arbitro.Subject.{Bytes, bytes_eq, gt, is_empty, subject_covers, subjects_overlap}
use arbitro.ErrorCode.{
  ErrorCode, invalid_consumer_filter, invalid_stream_filter, invalid_subscription_filter,
  stream_filter_conflict,
}

pub data Violation : Type 0 where
  stream_filter_missing stream_filter_global stream_filter_duplicate : Violation
  stream_filter_overlap stream_filter_mismatch consumer_outside_stream : Violation
  consumer_nested_under_sibling subscription_outside_consumer : Violation
  subscription_id_missing : Violation

pub wire_code : Violation → ErrorCode
wire_code stream_filter_missing = invalid_stream_filter
wire_code stream_filter_global = invalid_stream_filter
wire_code stream_filter_duplicate = stream_filter_conflict
wire_code stream_filter_overlap = stream_filter_conflict
wire_code stream_filter_mismatch = stream_filter_conflict
wire_code consumer_outside_stream = invalid_consumer_filter
wire_code consumer_nested_under_sibling = invalid_consumer_filter
wire_code subscription_outside_consumer = invalid_subscription_filter
wire_code subscription_id_missing = invalid_subscription_filter

pub is_global : Bytes → Bool
is_global filter = is_empty filter || bytes_eq filter gt

abbrev pub Verdict : Type 0
Verdict = Result Violation (Unit {0})

-- The `?` of a check without a value.
pub and_then {ℓ} :
    {A : Type ℓ} → Result Violation (Unit {0}) → Result Violation A → Result Violation A
and_then (err v) next = err v
and_then (ok u) next = next

-- Streams

pub filter_is_declared : Bytes → Verdict
filter_is_declared filter = if is_empty filter then err stream_filter_missing else ok tt

pub filter_is_not_global : Bytes → Verdict
filter_is_not_global filter = if bytes_eq filter gt then err stream_filter_global else ok tt

pub has_filter : Bytes → List Bytes → Bool
has_filter filter [] = false
has_filter filter (g ∷ gs) = bytes_eq g filter || has_filter filter gs

pub filter_is_not_duplicate : Bytes → List Bytes → Verdict
unfolding has_filter is_global
filter_is_not_duplicate filter claimed =
    if is_global filter
    then ok tt
    else if has_filter filter claimed
    then err stream_filter_duplicate
    else ok tt

pub overlaps_any : Bytes → List Bytes → Bool
unfolding is_global
overlaps_any filter [] = false
overlaps_any filter (g ∷ gs) =
    (not (is_global g) && subjects_overlap g filter) || overlaps_any filter gs

pub filter_does_not_overlap : Bytes → List Bytes → Verdict
unfolding overlaps_any is_global
filter_does_not_overlap filter claimed =
    if is_global filter
    then ok tt
    else if overlaps_any filter claimed
    then err stream_filter_overlap
    else ok tt

pub recreate_keeps_its_filter : Bytes → Bytes → Verdict
recreate_keeps_its_filter filter existing =
    if is_empty filter || bytes_eq filter existing then ok tt else err stream_filter_mismatch

pub on_create_stream : Bytes → List Bytes → Verdict
unfolding and_then filter_is_declared filter_is_not_global filter_is_not_duplicate
    filter_does_not_overlap
on_create_stream filter claimed = and_then (filter_is_declared filter) (
    and_then (filter_is_not_global filter)
      (and_then (filter_is_not_duplicate filter claimed) (filter_does_not_overlap filter claimed)))

-- Consumers

pub inherits_the_stream_filter : Bytes → Bytes → Bytes
inherits_the_stream_filter filter stream_filter = if is_empty filter then stream_filter else filter

pub stays_inside_its_stream : Bytes → Bytes → Verdict
unfolding is_global
stays_inside_its_stream filter stream_filter =
    if is_global stream_filter || is_empty filter
    then ok tt
    else if not (subject_covers stream_filter filter)
    then err consumer_outside_stream
    else ok tt

pub nested_under_any : Bytes → List Bytes → Bool
unfolding is_global
nested_under_any filter [] = false
nested_under_any filter (g ∷ gs) =
    let rest = nested_under_any filter gs in
    if is_global g || bytes_eq g filter
    then rest
    else if subject_covers g filter || subject_covers filter g
    then true
    else rest

pub not_nested_under_a_sibling : Bytes → List Bytes → Verdict
unfolding nested_under_any is_global
not_nested_under_a_sibling filter siblings =
    if is_global filter
    then ok tt
    else if nested_under_any filter siblings
    then err consumer_nested_under_sibling
    else ok tt

pub on_create_consumer : Bytes → Bytes → List Bytes → Result Violation Bytes
unfolding and_then inherits_the_stream_filter stays_inside_its_stream not_nested_under_a_sibling
on_create_consumer filter stream_filter siblings =
    let resolved = inherits_the_stream_filter filter stream_filter in
    and_then (stays_inside_its_stream filter stream_filter)
      (and_then (not_nested_under_a_sibling resolved siblings) (ok resolved))

-- Subscriptions

pub inherits_the_consumer_filter : List Bytes → Bytes → List Bytes
inherits_the_consumer_filter [] consumer_filter =
    if is_empty consumer_filter then [] else consumer_filter ∷ []
inherits_the_consumer_filter (f ∷ fs) consumer_filter = f ∷ fs

pub covers_all : Bytes → List Bytes → Bool
covers_all consumer_filter [] = true
covers_all consumer_filter (f ∷ fs) =
    subject_covers consumer_filter f && covers_all consumer_filter fs

pub stays_inside_its_consumer : List Bytes → Bytes → Verdict
unfolding covers_all is_global
stays_inside_its_consumer filters consumer_filter =
    if is_global consumer_filter
    then ok tt
    else if covers_all consumer_filter filters
    then ok tt
    else err subscription_outside_consumer

pub has_its_own_id : ℕ → Verdict
has_its_own_id subscription_id = if subscription_id == 0 then err subscription_id_missing else ok tt

pub on_create_subscription : ℕ → List Bytes → Bytes → Result Violation (List Bytes)
unfolding and_then has_its_own_id stays_inside_its_consumer inherits_the_consumer_filter
on_create_subscription subscription_id filters consumer_filter =
    and_then (has_its_own_id subscription_id) (
      and_then (stays_inside_its_consumer filters consumer_filter)
        (ok (inherits_the_consumer_filter filters consumer_filter)))
