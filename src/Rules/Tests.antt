-- ===== src/Rules/Tests.antt =====
-- Streams, consumers and subscriptions at concrete filters.
use arbitro.Common.{[], false, ok, refl, ◌∷◌, ◌≡◌}
use arbitro.Subject.{Bytes, answer, bytes_eq, covers_arm, next_token, subject_covers, walk}
use arbitro.Subject.Tokens.{NoGap, tokens}
use arbitro.Rules.{
  and_then, covers_all, has_its_own_id, inherits_the_consumer_filter, inherits_the_stream_filter,
  is_global, nested_under_any, not_nested_under_a_sibling, on_create_consumer,
  on_create_subscription, stays_inside_its_consumer, stays_inside_its_stream,
}
use arbitro.Rules.Streams.{Disjoint, claims, claims-Disjoint}

-- `a.>`
abbrev wide : Bytes
wide = b'a' ∷ b'.' ∷ b'>' ∷ []

-- `a.*`
abbrev middle : Bytes
middle = b'a' ∷ b'.' ∷ b'*' ∷ []

-- `a.b`
abbrev narrow : Bytes
narrow = b'a' ∷ b'.' ∷ b'b' ∷ []

wide-NoGap : NoGap wide
unfolding tokens
wide-NoGap = ((λ e. cc), ((λ e. cc), tt))

middle-NoGap : NoGap middle
unfolding tokens
middle-NoGap = ((λ e. cc), ((λ e. cc), tt))

narrow-NoGap : NoGap narrow
unfolding tokens
narrow-NoGap = ((λ e. cc), ((λ e. cc), tt))

-- The second of these is refused.
claims-Disjoint_example : Disjoint (claims [] (wide ∷ narrow ∷ []))
claims-Disjoint_example = claims-Disjoint (wide ∷ narrow ∷ []) (wide-NoGap, (narrow-NoGap, tt))

middle-bounded : is_global middle ≡ false
unfolding is_global bytes_eq
middle-bounded = refl

wide-bounded : is_global wide ≡ false
unfolding is_global bytes_eq
wide-bounded = refl

middle-created : on_create_consumer middle wide [] ≡ ok middle
unfolding on_create_consumer and_then inherits_the_stream_filter stays_inside_its_stream
    not_nested_under_a_sibling nested_under_any is_global bytes_eq subject_covers walk covers_arm
    answer next_token
middle-created = refl

narrow-created : on_create_subscription 1 (narrow ∷ []) middle ≡ ok (narrow ∷ [])
unfolding on_create_subscription and_then has_its_own_id stays_inside_its_consumer covers_all
    inherits_the_consumer_filter is_global bytes_eq subject_covers walk covers_arm answer next_token
narrow-created = refl
