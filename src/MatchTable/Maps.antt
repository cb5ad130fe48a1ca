-- ===== src/MatchTable/Maps.antt =====
-- crates/arbitro-engine/src/catalog/match_table.rs: the buckets of the map, and those that `remove_subscription` leaves.
use mathlib.Core.Path.{subst}
use arbitro.Common.{
  ==_refl, Bool, Bool-cases, Distinct, List, Option, [], ap, arith, false, if◌then◌else◌, inl, inr,
  lookup, lookup-put, none, put, refl, same_number, some, sym, true, ℕ, ◌==◌, ◌∙◌, ◌∷◌, ◌≡◌,
}
use arbitro.MatchTable.{Buckets, MatchEntry, bucket, is_key, retain_buckets, without}

chosen :
    (b : Bool) (v : List MatchEntry) (o : Option (List MatchEntry))
    → elim (if b then some v else o) [ some entries ↦ entries | none ↦ [] ]
      ≡ (if b then v else elim o [ some entries ↦ entries | none ↦ [] ])
chosen true v o = refl
chosen false v o = refl

pub bucket-put :
    (h k : ℕ) (v : List MatchEntry) (buckets : Buckets)
    → bucket k (put h v buckets) ≡ (if h == k then v else bucket k buckets)
unfolding bucket
bucket-put h k v buckets =
    rw (bucket, lookup-put h k v buckets) (chosen (h == k) v (lookup k buckets))

pub is_key-bucket : (h : ℕ) (buckets : Buckets) → is_key h buckets ≡ false → bucket h buckets ≡ []
unfolding is_key bucket lookup
is_key-bucket h [] e = refl
is_key-bucket h ((k, v) ∷ buckets) e = ground (arith, e, is_key-bucket h buckets)

bucket_missing : (h : ℕ) (buckets : Buckets) → lookup h buckets ≡ none → bucket h buckets ≡ []
unfolding bucket
bucket_missing h buckets e = rw (bucket, e) refl

some_not_none : {v : List MatchEntry} → some v ≡ none → ⊥
some_not_none e = absurd (cc)

pushed_in :
    (f : List MatchEntry → List MatchEntry) (b : Bool) (x y : List MatchEntry)
    → (if b then f x else f y) ≡ f (if b then x else y)
pushed_in f true x y = refl
pushed_in f false x y = refl

bucket_first :
    (h k : ℕ) (v : List MatchEntry) (buckets : Buckets)
    → bucket h ((k, v) ∷ buckets) ≡ (if k == h then v else bucket h buckets)
unfolding bucket lookup
bucket_first h k v buckets = chosen (k == h) v (lookup h buckets)

abbrev keep : ℕ → List MatchEntry → Buckets → Buckets
keep k kept rest = elim kept [ [] ↦ rest | x ∷ xs ↦ (k, x ∷ xs) ∷ rest ]

bucket-keep :
    (h k : ℕ) (kept : List MatchEntry) (rest : Buckets)
    → (k ≡ h → bucket h rest ≡ [])
    → bucket h (keep k kept rest) ≡ (if k == h then kept else bucket h rest)
bucket-keep h k [] rest e = elim (same_number k h) [
  | inl here ↦ e here ∙ rw (here, ==_refl h) refl
  | inr there ↦ ground (arith, there)
]
bucket-keep h k (x ∷ xs) rest e = bucket_first h k (x ∷ xs) rest

pub bucket-retain_buckets :
    (h subscription_id : ℕ) (buckets : Buckets)
    → Distinct buckets
    → bucket h (retain_buckets subscription_id buckets) ≡ without subscription_id (bucket h buckets)
unfolding retain_buckets
bucket-retain_buckets h subscription_id [] d = unfold bucket lookup without in refl
bucket-retain_buckets h subscription_id ((k, v) ∷ buckets) d =
    let ih = bucket-retain_buckets h subscription_id buckets d.1 in
    let gone : k ≡ h → bucket h (retain_buckets subscription_id buckets) ≡ [] = λ here.
      ih
      ∙ ap (without subscription_id)
          (bucket_missing h buckets (subst (λ j. lookup j buckets ≡ none) here d.0))
      ∙ (unfold without in refl) in
    bucket-keep h k (without subscription_id v) (retain_buckets subscription_id buckets) gone
    ∙ ap (λ l. if k == h then without subscription_id v else l) ih
    ∙ pushed_in (without subscription_id) (k == h) v (bucket h buckets)
    ∙ ap (without subscription_id) (sym (bucket_first h k v buckets))

lookup-keep :
    (h k : ℕ) (kept : List MatchEntry) (rest : Buckets)
    → (k == h) ≡ false
    → lookup h (keep k kept rest) ≡ lookup h rest
unfolding lookup
lookup-keep h k [] rest e = refl
lookup-keep h k (x ∷ xs) rest e = rw e refl

Distinct-keep :
    (k : ℕ) (kept : List MatchEntry) (rest : Buckets)
    → lookup k rest ≡ none
    → Distinct rest
    → Distinct (keep k kept rest)
Distinct-keep k [] rest e d = d
Distinct-keep k (x ∷ xs) rest e d = (e, d)

not_first :
    (h k : ℕ) (v : List MatchEntry) (buckets : Buckets)
    → lookup h ((k, v) ∷ buckets) ≡ none
    → ((k == h) ≡ false) × (lookup h buckets ≡ none)
unfolding lookup
not_first h k v buckets e = elim (Bool-cases (k == h)) [
  | inl here ↦ absurd (some_not_none {v = v} (sym (rw here refl) ∙ e))
  | inr there ↦ (there, sym (rw there refl) ∙ e)
]

lookup-retain_buckets :
    (h subscription_id : ℕ) (buckets : Buckets)
    → lookup h buckets ≡ none
    → lookup h (retain_buckets subscription_id buckets) ≡ none
unfolding retain_buckets
lookup-retain_buckets h subscription_id [] e = e
lookup-retain_buckets h subscription_id ((k, v) ∷ buckets) e =
    let (there, rest) = not_first h k v buckets e in
    lookup-keep h k (without subscription_id v) (retain_buckets subscription_id buckets) there
    ∙ lookup-retain_buckets h subscription_id buckets rest

pub Distinct-retain_buckets :
    (subscription_id : ℕ) (buckets : Buckets)
    → Distinct buckets
    → Distinct (retain_buckets subscription_id buckets)
unfolding retain_buckets
Distinct-retain_buckets subscription_id [] d = tt
Distinct-retain_buckets subscription_id ((k, v) ∷ buckets) d =
    Distinct-keep k (without subscription_id v) (retain_buckets subscription_id buckets)
      (lookup-retain_buckets k subscription_id buckets d.0)
      (Distinct-retain_buckets subscription_id buckets d.1)
