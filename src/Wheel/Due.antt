-- ===== src/Wheel/Due.antt =====
-- When entries come out of the wheel. `due w k` is what the k-th advance from `w` returns.
use native.Mathlib.Nat.{mod-eq_of_lt, mod-eq-sub-mod}
use native.Mathlib.Decide.{ℕ_discrete, dec_lt}
use arbitro.Common.{
  List, [], ap, arith, false, get_or, get_or-set_ne, get_or-set_self, if◌then◌else◌, length,
  length-append, length-replicate, length-set, ltb, min, refl, replicate, set, some, suc, sym, zero,
  ℕ, ◌%◌, ◌++◌, ◌+◌, ◌-◌, ◌<◌, ◌==◌, ◌∙◌, ◌∷◌, ◌≡◌, ◌≢◌, ◌≤◌,
}
use arbitro.Wheel.{TimingWheel, advance, insert_entry, new}

-- One step round the ring.
wrap_lem : (c k n : ℕ) → c < n → k ≤ n → (c + k) % n ≡ (if ltb (c + k) n then c + k else c + k - n)
wrap_lem c k n h l = elim (dec_lt (c + k) n) [
  | yes p ↦ ground (arith, mod-eq_of_lt p)
  | no p ↦ ground (
    arith,
    mod-eq-sub-mod {n = c + k} {m = n} (omega arith),
    mod-eq_of_lt {n = c + k - n} {m = n} (omega arith),
  )
]

-- How many advances an entry waits: a delay past the ring is clamped to the last bucket, and a delay
-- of 0 waits for a whole turn.
unfoldable pub wait : ℕ → ℕ → ℕ
wait num_buckets delay =
    let ticks = min delay (num_buckets - 1) in if ticks == 0 then num_buckets else ticks

-- Two places within one turn are different buckets.
pub place-ne :
    (c j k n : ℕ) → c < n → 0 < j → 0 < k → j ≤ n → k ≤ n → j ≢ k → (c + j) % n ≢ (c + k) % n
place-ne c j k n h pj pk lj lk ne = ground (arith, wrap_lem c j n h lj, wrap_lem c k n h lk)

-- The place of an insertion is the place of its wait.
place-wait : (c n delay : ℕ) → c < n → (c + min delay (n - 1)) % n ≡ (c + wait n delay) % n
unfolding wait
place-wait c n delay h =
    ground (arith, wrap_lem c (min delay (n - 1)) n h (omega arith), wrap_lem c n n h (omega arith))

pub wait_bounds : (n delay : ℕ) → 0 < n → (0 < wait n delay) × (wait n delay ≤ n)
unfolding wait
wait_bounds n delay h = ground arith

-- After one advance the places move up by one.
place_next : (c k n : ℕ) → c < n → suc k ≤ n → ((c + 1) % n + k) % n ≡ (c + suc k) % n
place_next c k n h l = ground (
  arith,
  wrap_lem c 1 n h (omega arith),
  wrap_lem ((c + 1) % n) k n (omega arith) (omega arith),
  wrap_lem c (suc k) n h l,
)

-- Every bucket is a place within the turn.
pub place_of : (c i n : ℕ) → c < n → i < n → (k : ℕ) × (0 < k) × (k ≤ n) × ((c + k) % n ≡ i)
place_of c i n h l = elim (dec_lt c i) [
  | yes p ↦ (i - c, omega arith, omega arith, ground (arith, wrap_lem c (i - c) n h (omega arith)))
  | no p ↦ (
    i + n - c,
    omega arith,
    omega arith,
    ground (arith, wrap_lem c (i + n - c) n h (omega arith)),
  )
]

place_turn : (c n : ℕ) → c < n → (c + n) % n ≡ c
place_turn c n h = ground (arith, wrap_lem c n n h (omega arith))

module _ {ℓ} {T : Type ℓ} where
  unfoldable pub total : List (List T) → ℕ
  total [] = 0
  total (b ∷ bs) = length b + total bs

  -- The ring is complete, the cursor in range, and `len` counts the entries.
  pub record IsValid (w : TimingWheel T) : Type 0 where
    pub ring : length w.buckets ≡ w.num_buckets
    pub cursor : w.current < w.num_buckets
    pub counted : w.len ≡ total w.buckets

  unfoldable pub due : TimingWheel T → ℕ → List T
  due w k = get_or w.buckets ((w.current + k) % w.num_buckets) []

total-replicate {ℓ} : (T : Type ℓ) (n : ℕ) → total (replicate {A = List T} n []) ≡ 0
unfolding total
total-replicate T zero = refl
total-replicate T (suc n) = omega (arith, total-replicate T n)

module _ {ℓ} {T : Type ℓ} where
  total-set :
      (bs : List (List T)) (i : ℕ) (b : List T)
      → i < length bs
      → total (set bs i b) + length (get_or bs i []) ≡ total bs + length b
  unfolding total
  total-set [] i b h = elim h [ ]
  total-set (x ∷ bs) zero b h = omega arith
  total-set (x ∷ bs) (suc i) b h = omega (arith, total-set bs i b (omega arith))

  pub new-IsValid : (n : ℕ) (w : TimingWheel T) → new n ≡ some w → IsValid w
  unfolding new
  new-IsValid n w e = ground (arith, length-replicate {A = List T} n [], total-replicate T n)

  -- `insert` keeps the wheel well formed.
  pub insert-IsValid :
      (w : TimingWheel T) (e : T) (delay : ℕ) → IsValid w → IsValid (insert_entry w e delay)
  unfolding insert_entry
  insert-IsValid w e delay v = record {
    ring = length-set w.buckets i b ∙ v.ring;
    cursor = v.cursor;
    counted = omega (
      arith,
      total-set w.buckets i b (omega (arith, v.ring, v.cursor)),
      length-append (get_or w.buckets i []) (e ∷ []),
      v.counted,
    );
  }
    where
      i : ℕ
      i = (w.current + min delay (w.num_buckets - 1)) % w.num_buckets

      b : List T
      b = get_or w.buckets i [] ++ e ∷ []

  pub advance-IsValid : (w : TimingWheel T) → IsValid w → IsValid (advance w).0
  unfolding advance
  advance-IsValid w v = record {
    ring = length-set w.buckets i [] ∙ v.ring;
    cursor = omega (arith, v.cursor);
    counted = omega (arith, total-set w.buckets i [] (omega (arith, v.ring, v.cursor)), v.counted);
  }
    where
      i : ℕ
      i = (w.current + 1) % w.num_buckets

  -- An inserted entry comes out after its wait, behind what was due then; what is due at other times
  -- within the turn is as before.
  pub due-insert :
      (w : TimingWheel T) (e : T) (delay k : ℕ)
      → IsValid w
      → 0 < k
      → k ≤ w.num_buckets
      → due (insert_entry w e delay) k
        ≡ (if k == wait w.num_buckets delay then due w k ++ e ∷ [] else due w k)
  unfolding due insert_entry
  due-insert w e delay k v p l = elim (ℕ_discrete k (wait w.num_buckets delay)) [
    | yes same ↦ ground (
      arith,
      place-wait w.current w.num_buckets delay v.cursor,
      get_or-set_self w.buckets i (get_or w.buckets i [] ++ e ∷ []) []
          (omega (arith, v.ring, v.cursor)),
    )
    | no ne ↦ ground (
      arith,
      place-wait w.current w.num_buckets delay v.cursor,
      get_or-set_ne w.buckets i j (get_or w.buckets i [] ++ e ∷ []) [] (λ q. apart ne (sym q)),
    )
  ]
    where
      i : ℕ
      i = (w.current + min delay (w.num_buckets - 1)) % w.num_buckets

      j : ℕ
      j = (w.current + k) % w.num_buckets

      -- `i` is another bucket than `j`.
      apart : k ≢ wait w.num_buckets delay → j ≢ i
      apart ne = ground (
        arith,
        wait_bounds w.num_buckets delay (omega (arith, v.cursor)),
        place-wait w.current w.num_buckets delay v.cursor,
        place-ne w.current k (wait w.num_buckets delay) w.num_buckets v.cursor,
      )

  -- One advance returns what is due first, and brings the rest of the turn one advance nearer.
  pub due-advance :
      (w : TimingWheel T) (k : ℕ)
      → IsValid w
      → 0 < k
      → k ≤ w.num_buckets
      → ((advance w).1 ≡ due w 1)
        × (due (advance w).0 k ≡ (if k == w.num_buckets then [] else due w (k + 1)))
  unfolding due advance
  due-advance w k v p l = (refl, moved)
    where
      i : ℕ
      i = (w.current + 1) % w.num_buckets

      later :
          k ≢ w.num_buckets
          → (k == w.num_buckets) ≡ false
          → suc k ≤ w.num_buckets
          → get_or (set w.buckets i []) ((i + k) % w.num_buckets) []
            ≡ (if k == w.num_buckets then [] else due w (k + 1))
      later ne e h =
          rw (e, place_next w.current k w.num_buckets v.cursor h)
            (get_or-set_ne w.buckets i ((w.current + suc k) % w.num_buckets) [] [] (
                place-ne w.current 1 (suc k) w.num_buckets v.cursor (omega arith) (omega arith)
                  (omega arith) h (omega arith))
              ∙ ap (λ j. get_or w.buckets ((w.current + j) % w.num_buckets) []) (omega arith))

      moved :
          get_or (set w.buckets i []) ((i + k) % w.num_buckets) []
          ≡ (if k == w.num_buckets then [] else due w (k + 1))
      moved = elim (ℕ_discrete k w.num_buckets) [
        | yes turn ↦ ground (
          arith,
          place_turn i w.num_buckets (omega (arith, v.cursor)),
          get_or-set_self w.buckets i [] [] (omega (arith, v.ring, v.cursor)),
        )
        | no ne ↦ later ne (ground arith) (omega arith)
      ]

module _ {T : Type 0} where
  pub total_zero :
      (bs : List (List T)) → ((i : ℕ) → i < length bs → get_or bs i [] ≡ []) → total bs ≡ 0
  unfolding total
  total_zero [] h = refl
  total_zero (b ∷ bs) h =
      omega (arith, ap length (h 0 (omega arith)), total_zero bs (λ i l. h (suc i) (omega arith)))

  pub zero_total : (bs : List (List T)) (i : ℕ) → total bs ≡ 0 → get_or bs i [] ≡ []
  unfolding total
  zero_total [] i h = refl
  zero_total ([] ∷ bs) zero h = refl
  zero_total ((x ∷ b) ∷ bs) zero h = absurd (omega arith)
  zero_total (b ∷ bs) (suc i) h = zero_total bs i (omega arith)
