-- ===== src/ConsumerSubjects/Counting.antt =====
-- The counts of a consumer, and the calls that change them.
use arbitro.Common.{
  All, Distinct, Distinct-erase, Distinct-put, List, Option, [], arith, count_of, erase,
  if◌then◌else◌, lookup, lookup-erase, lookup-put, min, none, put, refl, some, sum_values,
  sum_values-erase, sum_values-put, ℕ, ◌+◌, ◌-◌, ◌<◌, ◌==◌, ◌∷◌, ◌≡◌, ◌≤◌,
}
use arbitro.Common.Word.{u32_mod}
use arbitro.ConsumerSubjects.{
  ConsumerSubjects, clear, dec, dec_by, dec_by_entry, dec_entry, fresh, get, inc, store,
}

-- `total` is the sum of the counts, each count is positive, the keys are distinct, and the sum is
-- a 32-bit word.
pub record IsCounted (s : ConsumerSubjects) : Type 0 where
  pub total_is_sum : s.total ≡ sum_values s.inflight
  pub positive : All (λ e. 0 < e.1) s.inflight
  pub distinct : Distinct s.inflight
  pub fits : s.total < u32_mod

pub fresh-IsCounted : IsCounted fresh
unfolding sum_values
fresh-IsCounted = record { total_is_sum = refl; positive = tt; distinct = tt; fits = omega arith }

positive-put :
    (k v : ℕ) (m : List (ℕ × ℕ)) → 0 < v → All (λ e. 0 < e.1) m → All (λ e. 0 < e.1) (put k v m)
unfolding put
positive-put k v [] h a = (h, tt)
positive-put k v ((i, w) ∷ m) h a = ground (arith, positive-put k v m h a.1)

positive-erase : (k : ℕ) (m : List (ℕ × ℕ)) → All (λ e. 0 < e.1) m → All (λ e. 0 < e.1) (erase k m)
unfolding erase
positive-erase k [] a = tt
positive-erase k ((i, w) ∷ m) a = ground (arith, positive-erase k m a.1)

count-le-sum : (k : ℕ) (m : List (ℕ × ℕ)) → count_of (lookup k m) ≤ sum_values m
unfolding lookup sum_values count_of
count-le-sum k [] = omega arith
count-le-sum k ((i, w) ∷ m) = ground (arith, count-le-sum k m)

-- A call that counts.
pub data Count : Type 0 where
  inc_of : ℕ → Count
  dec_of : ℕ → Count
  dec_by_of : ℕ → ℕ → Count
  clears : Count

pub count_step : ConsumerSubjects → Count → ConsumerSubjects
count_step s (inc_of hash) = (inc s hash).0
count_step s (dec_of hash) = (dec s hash).0
count_step s (dec_by_of hash n) = (dec_by s hash n).0
count_step s clears = clear s

-- The count of `hash` after a call, from its count before.
pub count_after : ℕ → ℕ → Count → ℕ
count_after hash c (inc_of h) = if hash == h then c + 1 else c
count_after hash c (dec_of h) = if hash == h then c - 1 else c
count_after hash c (dec_by_of h n) = if hash == h then c - n else c
count_after hash c clears = 0

inc-IsCounted :
    (s : ConsumerSubjects) (hash : ℕ)
    → s.total + 1 < u32_mod
    → IsCounted s
    → IsCounted (inc s hash).0
unfolding inc get
inc-IsCounted s hash room v =
    let c = count_of (lookup hash s.inflight) in
    ground (
      arith,
      count-le-sum hash s.inflight,
      sum_values-put hash (c + 1) s.inflight,
      positive-put hash (c + 1) s.inflight,
      Distinct-put hash (c + 1) s.inflight,
    )

-- What the write back of a count leaves.
record Stored (s : ConsumerSubjects) (hash count : ℕ) : Type 0 where
  sums :
      sum_values (store s hash count) + count_of (lookup hash s.inflight)
      ≡ sum_values s.inflight + count
  positive : All (λ e. 0 < e.1) (store s hash count)
  distinct : Distinct (store s hash count)

store-Stored : (s : ConsumerSubjects) (hash count : ℕ) → IsCounted s → Stored s hash count
unfolding store
store-Stored s hash count v = record {
  sums =
      ground
        (arith, sum_values-put hash count s.inflight, sum_values-erase hash s.inflight v.distinct);
  positive =
      ground (arith, positive-put hash count s.inflight, positive-erase hash s.inflight v.positive);
  distinct = ground (
    arith,
    Distinct-put hash count s.inflight v.distinct,
    Distinct-erase hash s.inflight v.distinct,
  );
}

lookup-store :
    (s : ConsumerSubjects) (hash count h : ℕ)
    → count_of (lookup h (store s hash count))
      ≡ (if h == hash then count else count_of (lookup h s.inflight))
unfolding store count_of
lookup-store s hash count h =
    ground (arith, lookup-put hash h count s.inflight, lookup-erase hash h s.inflight)

dec-IsCounted : (s : ConsumerSubjects) (hash : ℕ) → IsCounted s → IsCounted (dec s hash).0
unfolding dec count_of
dec-IsCounted s hash v = go (lookup hash s.inflight) refl
  where
    go : (o : Option ℕ) → lookup hash s.inflight ≡ o → IsCounted (dec_entry s hash o).0
    go none e = v
    go (some c) e = ground (arith, count-le-sum hash s.inflight, store-Stored s hash (c - 1) v)

dec_by-IsCounted : (s : ConsumerSubjects) (hash n : ℕ) → IsCounted s → IsCounted (dec_by s hash n).0
unfolding dec_by count_of
dec_by-IsCounted s hash n v = go (lookup hash s.inflight) refl
  where
    go : (o : Option ℕ) → lookup hash s.inflight ≡ o → IsCounted (dec_by_entry s hash n o).0
    go none e = v
    go (some c) e =
        ground (arith, count-le-sum hash s.inflight, store-Stored s hash (c - min c n) v)

-- The room that a call needs: a 32-bit total does not overflow.
abbrev pub HasRoom : ConsumerSubjects → Count → Type 0
HasRoom s (inc_of hash) = s.total + 1 < u32_mod
HasRoom s other = Unit {0}

-- Every counting call keeps the sum, the positive counts and the distinct keys; the increment, while
-- the total does not overflow.
pub count_step-IsCounted :
    (s : ConsumerSubjects) (c : Count) → HasRoom s c → IsCounted s → IsCounted (count_step s c)
unfolding count_step clear sum_values
count_step-IsCounted s (inc_of hash) h v = inc-IsCounted s hash h v
count_step-IsCounted s (dec_of hash) h v = dec-IsCounted s hash v
count_step-IsCounted s (dec_by_of hash n) h v = dec_by-IsCounted s hash n v
count_step-IsCounted s clears h v = record {
  total_is_sum = refl;
  positive = tt;
  distinct = tt;
  fits = omega arith;
}

get-inc :
    (s : ConsumerSubjects) (hash h : ℕ)
    → s.total + 1 < u32_mod
    → IsCounted s
    → get (inc s hash).0 h ≡ count_after h (get s h) (inc_of hash)
unfolding get inc count_of count_after
get-inc s hash h room v = ground (
  arith,
  lookup-put hash h (count_of (lookup hash s.inflight) + 1) s.inflight,
  count-le-sum hash s.inflight,
)

get-dec :
    (s : ConsumerSubjects) (hash h : ℕ)
    → get (dec s hash).0 h ≡ count_after h (get s h) (dec_of hash)
unfolding get dec count_of count_after
get-dec s hash h = go (lookup hash s.inflight) refl
  where
    go :
        (o : Option ℕ)
        → lookup hash s.inflight ≡ o
        → get (dec_entry s hash o).0 h ≡ count_after h (get s h) (dec_of hash)
    go none e = ground arith
    go (some c) e = ground (arith, lookup-store s hash (c - 1) h)

get-dec_by :
    (s : ConsumerSubjects) (hash n h : ℕ)
    → get (dec_by s hash n).0 h ≡ count_after h (get s h) (dec_by_of hash n)
unfolding get dec_by count_of count_after
get-dec_by s hash n h = go (lookup hash s.inflight) refl
  where
    go :
        (o : Option ℕ)
        → lookup hash s.inflight ≡ o
        → get (dec_by_entry s hash n o).0 h ≡ count_after h (get s h) (dec_by_of hash n)
    go none e = ground arith
    go (some c) e = ground (arith, lookup-store s hash (c - min c n) h)

-- For a consumer whose total is the sum of its positive counts under distinct keys, and with room for
-- an increment in the 32-bit total: each counting call changes the count of the subject that it names
-- by its amount, stopping at 0, and no other subject's count; `clear` sets all to 0.
pub get-count_step :
    (s : ConsumerSubjects) (c : Count) (h : ℕ)
    → HasRoom s c
    → IsCounted s
    → get (count_step s c) h ≡ count_after h (get s h) c
unfolding count_step
get-count_step s (inc_of hash) h room v = get-inc s hash h room v
get-count_step s (dec_of hash) h room v = get-dec s hash h
get-count_step s (dec_by_of hash n) h room v = get-dec_by s hash n h
get-count_step s clears h room v = unfold get clear count_of count_after lookup in refl
