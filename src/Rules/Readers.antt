-- ===== src/Rules/Readers.antt =====
-- Consumers against their stream, and subscriptions against their consumer.
use mathlib.Core.Path.{subst}
use arbitro.Common.{
  All, All-map, Bool-cases, List, [], ap, arith, false, inl, inr, ok, sym, true, ℕ, ◌∙◌, ◌∷◌, ◌≡◌,
  ◌⊎◌,
}
use arbitro.Subject.{Bytes, is_empty, subject_covers, subject_matches}
use arbitro.Subject.Tokens.{NoGap}
use arbitro.Subject.Cover.{subject_covers_iff}
use arbitro.Rules.{
  and_then, covers_all, has_its_own_id, inherits_the_consumer_filter, inherits_the_stream_filter,
  is_global, not_nested_under_a_sibling, on_create_consumer, on_create_subscription,
  stays_inside_its_consumer, stays_inside_its_stream,
}

-- Whatever the first pattern matches, the second matches.
abbrev pub Inside : Bytes → Bytes → Type 0
Inside narrow wide =
    (s : Bytes) → NoGap s → subject_matches narrow s ≡ true → subject_matches wide s ≡ true

on_create_consumer-cases :
    (f g r : Bytes) (siblings : List Bytes)
    → on_create_consumer f g siblings ≡ ok r
    → is_global g ≡ false
    → (r ≡ g) ⊎ ((r ≡ f) × (subject_covers g f ≡ true))
unfolding on_create_consumer inherits_the_stream_filter stays_inside_its_stream
    not_nested_under_a_sibling and_then
on_create_consumer-cases f g r siblings e n = ground (arith, e, n)

consumer-Inside :
    (f g r : Bytes) (siblings : List Bytes)
    → NoGap f
    → NoGap g
    → is_global g ≡ false
    → on_create_consumer f g siblings ≡ ok r
    → Inside r g
consumer-Inside f g r siblings nf ng n e = elim (on_create_consumer-cases f g r siblings e n) [
  | inl p ↦ λ s ns m. ap (λ t. subject_matches t s) (sym p) ∙ m
  | inr (p, c) ↦
      λ s ns m. (subject_covers_iff g f ng nf).0 c s ns (ap (λ t. subject_matches t s) (sym p) ∙ m)
]

covers_all-Inside :
    (g : Bytes) (fs : List Bytes)
    → NoGap g
    → All NoGap fs
    → covers_all g fs ≡ true
    → All (λ f. Inside f g) fs
unfolding covers_all
covers_all-Inside g [] ng nf e = tt
covers_all-Inside g (f ∷ fs) ng nf e = (
  (subject_covers_iff g f ng nf.0).0 (ground (arith, e)),
  covers_all-Inside g fs ng nf.1 (ground (arith, e)),
)

on_create_subscription-cases :
    (id : ℕ) (fs : List Bytes) (g : Bytes) (rs : List Bytes)
    → on_create_subscription id fs g ≡ ok rs
    → is_global g ≡ false
    → (rs ≡ inherits_the_consumer_filter fs g) × (covers_all g fs ≡ true)
unfolding on_create_subscription has_its_own_id stays_inside_its_consumer and_then
on_create_subscription-cases id fs g rs e n = ground (arith, e, n)

inherits-Inside :
    (fs : List Bytes) (g : Bytes)
    → is_global g ≡ false
    → All (λ f. Inside f g) fs
    → All (λ f. Inside f g) (inherits_the_consumer_filter fs g)
unfolding inherits_the_consumer_filter is_global
inherits-Inside [] g n h = elim (Bool-cases (is_empty g)) [
  | inl e ↦ rw (e) tt
  | inr e ↦ rw (e) ((λ s ns m. m), tt)
]
inherits-Inside (f ∷ fs) g n h = h

-- Whatever a subscription's filters match lies in the slice of the stream: with filters without empty
-- tokens, if a consumer was admitted on a stream, and a subscription on that consumer, neither of
-- which has a filter that matches everything, then each filter of the subscription matches only what
-- the consumer's filter matches, and that filter only what the stream's matches.
pub reader_chain :
    (stream_filter filter resolved : Bytes) (siblings : List Bytes) (id : ℕ) (fs rs : List Bytes)
    → NoGap stream_filter
    → NoGap filter
    → NoGap resolved
    → All NoGap fs
    → is_global stream_filter ≡ false
    → is_global resolved ≡ false
    → on_create_consumer filter stream_filter siblings ≡ ok resolved
    → on_create_subscription id fs resolved ≡ ok rs
    → Inside resolved stream_filter
      × All (λ f. Inside f resolved) rs
      × All (λ f. Inside f stream_filter) rs
reader_chain g f r siblings id fs rs ng nf nr nfs ig ir ec es = (
  inside,
  below,
  All-map (λ t. Inside t r) (λ t. Inside t g) (λ t h s ns m. inside s ns (h s ns m)) rs below,
)
  where
    inside : Inside r g
    inside = consumer-Inside f g r siblings nf ng ig ec

    below : All (λ t. Inside t r) rs
    below =
        let (p, c) = on_create_subscription-cases id fs r rs es ir in
        subst (All (λ t. Inside t r)) (sym p)
          (inherits-Inside fs r ir (covers_all-Inside r fs nr nfs c))
