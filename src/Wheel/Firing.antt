-- ===== src/Wheel/Firing.antt =====
-- The wheel as a driver sees it: what a row of advances returns, and when the next entry is due.
use mathlib.Core.List.{append_assoc, append-nil}
use native.Mathlib.Decide.{ℕ_discrete}
use arbitro.Common.{
  Bool-cases, List, Option, [], ap, arith, false, flatten, get_or, get_or-replicate, if◌then◌else◌,
  inl, inr, length, none, refl, replicate, some, suc, sym, true, zero, ℕ, ◌%◌, ◌++◌, ◌+◌, ◌-◌, ◌<◌,
  ◌==◌, ◌∙◌, ◌∷◌, ◌≡◌, ◌≢◌, ◌≤◌,
}
use arbitro.Wheel.{
  TimingWheel, advance, advance_by, advance_loop, insert_entry, new, scan,
  ticks_until_next_nonempty,
}
use arbitro.Wheel.Due.{
  IsValid, advance-IsValid, due, due-advance, due-insert, insert-IsValid, place_of, total_zero,
  wait, zero_total,
}

module _ {T : Type 0} where
  -- What the next `t` advances return, and where they leave the wheel.
  unfoldable pub outputs : TimingWheel T → ℕ → List (List T)
  outputs w zero = []
  outputs w (suc t) = (advance w).1 ∷ outputs (advance w).0 t

  pub after : TimingWheel T → ℕ → TimingWheel T
  after w zero = w
  after w (suc t) = after (advance w).0 t

  pub num_buckets-advance : (w : TimingWheel T) → (advance w).0.num_buckets ≡ w.num_buckets
  unfolding advance
  num_buckets-advance w = refl

  pub num_buckets-insert :
      (w : TimingWheel T) (e : T) (delay : ℕ) → (insert_entry w e delay).num_buckets ≡ w.num_buckets
  unfolding insert_entry
  num_buckets-insert w e delay = refl

  -- A new wheel has nothing due.
  pub new_empty :
      (n : ℕ)
      → 0 < n
      → (w : TimingWheel T) × (new n ≡ some w) × (w.num_buckets ≡ n) × ((k : ℕ) → due w k ≡ [])
  unfolding new due
  new_empty n h = (
    record { buckets = replicate n []; current = 0; num_buckets = n; len = 0 },
    ground arith,
    refl,
    λ k. get_or-replicate n ((0 + k) % n) [],
  )

  outputs-due :
      (t k : ℕ) (w : TimingWheel T)
      → IsValid w
      → k < t
      → t ≤ w.num_buckets
      → get_or (outputs w t) k [] ≡ due w (k + 1)
  unfolding outputs
  outputs-due zero k w v h l = elim h [ ]
  outputs-due (suc t) zero w v h l =
      (due-advance w 1 v (omega arith) (omega (arith, v.cursor))).0 ∙ ap (due w) (omega arith)
  outputs-due (suc t) (suc k) w v h l = ground (
    arith,
    outputs-due t k (advance w).0 (advance-IsValid w v),
    num_buckets-advance w,
    (due-advance w (k + 1) v (omega arith) (omega arith)).1,
  )

  -- On a valid wheel, within the coming turn an inserted entry is returned by the advance of its wait
  -- and by no other, behind the entries that were due then; what the other advances return stays.
  -- The wait is the delay, but the ring's size less one for a longer delay, and a whole turn for 0.
  pub insert_fires :
      (w : TimingWheel T) (e : T) (delay k : ℕ)
      → IsValid w
      → k < w.num_buckets
      → get_or (outputs (insert_entry w e delay) w.num_buckets) k [] ≡ (
          if k + 1 == wait w.num_buckets delay
          then get_or (outputs w w.num_buckets) k [] ++ e ∷ []
          else get_or (outputs w w.num_buckets) k [])
  insert_fires w e delay k v h = ground (
    arith,
    outputs-due w.num_buckets k w v h,
    outputs-due w.num_buckets k (insert_entry w e delay) (insert-IsValid w e delay v),
    num_buckets-insert w e delay,
    due-insert w e delay (k + 1) v,
  )

  advance_loop-outputs :
      (t : ℕ) (w : TimingWheel T) (out : List T)
      → advance_loop t w out ≡ (after w t, out ++ flatten (outputs w t))
  unfolding advance_loop after outputs
  advance_loop-outputs zero w out = ap (λ o. (w, o)) (sym (append-nil out))
  advance_loop-outputs (suc t) w out =
      advance_loop-outputs t (advance w).0 (out ++ (advance w).1)
      ∙ ap (λ o. (after (advance w).0 t, o))
          (append_assoc out (advance w).1 (flatten (outputs (advance w).0 t)))

  -- `advance_by` leaves the wheel where as many single advances leave it, and returns what they
  -- return, in order.
  pub advance_by-outputs :
      (w : TimingWheel T) (ticks : ℕ)
      → advance_by w ticks ≡ (after w ticks, flatten (outputs w ticks))
  unfolding advance_by
  advance_by-outputs w ticks = advance_loop-outputs ticks w []

  -- What the scan finds from `k` on.
  abbrev Finds : TimingWheel T → ℕ → ℕ → Option ℕ → Type 0
  Finds w k rounds none = (j : ℕ) → k ≤ j → j < k + rounds → due w j ≡ []
  Finds w k rounds (some i) =
      (k ≤ i) × (i < k + rounds) × (due w i ≢ []) × ((j : ℕ) → k ≤ j → j < i → due w j ≡ [])

  nil_of_length : (xs : List T) → (length xs == 0) ≡ true → xs ≡ []
  nil_of_length [] h = refl
  nil_of_length (x ∷ xs) h = absurd (ground arith)

  ne_of_length : (xs : List T) → (length xs == 0) ≡ false → xs ≢ []
  ne_of_length [] h = cc
  ne_of_length (x ∷ xs) h = λ e. cc

  Finds-later :
      (w : TimingWheel T) (k rounds : ℕ) (o : Option ℕ)
      → due w k ≡ []
      → Finds w (k + 1) rounds o
      → Finds w k (suc rounds) o
  Finds-later w k rounds none e f = λ j l h. elim (ℕ_discrete j k) [
    | yes same ↦ ap (due w) same ∙ e
    | no ne ↦ f j (omega arith) (omega arith)
  ]
  Finds-later w k rounds (some i) e (a, b, c, d) = (
    omega arith,
    omega arith,
    c,
    λ j l h. elim (ℕ_discrete j k) [
      | yes same ↦ ap (due w) same ∙ e
      | no ne ↦ d j (omega arith) (omega arith)
    ],
  )

  scan-Finds : (rounds k : ℕ) (w : TimingWheel T) → Finds w k rounds (scan w k rounds)
  unfolding scan due
  scan-Finds zero k w = λ j l h. absurd (omega arith)
  scan-Finds (suc rounds) k w =
      elim (Bool-cases (length (get_or w.buckets ((w.current + k) % w.num_buckets) []) == 0)) [
        | inl e ↦ rw e (
            Finds-later w k rounds (scan w (k + 1) rounds) (nil_of_length (due w k) e)
              (scan-Finds rounds (k + 1) w))
        | inr e ↦
            rw e (omega arith, omega arith, ne_of_length (due w k) e, λ j l h. absurd (omega arith))
      ]

  -- What the driver is told, against what the coming turn of advances returns.
  abbrev pub Foretells : TimingWheel T → Option ℕ → Type 0
  Foretells w none =
      (w.len ≡ 0) × ((k : ℕ) → k < w.num_buckets → get_or (outputs w w.num_buckets) k [] ≡ [])
  Foretells w (some i) =
      (0 < i)
      × (i ≤ w.num_buckets)
      × (get_or (outputs w w.num_buckets) (i - 1) [] ≢ [])
      × ((k : ℕ) → k + 1 < i → get_or (outputs w w.num_buckets) k [] ≡ [])

  empty-due : (w : TimingWheel T) (j : ℕ) → IsValid w → w.len ≡ 0 → due w j ≡ []
  unfolding due
  empty-due w j v e = zero_total w.buckets _ (omega (arith, v.counted))

  due-empty :
      (w : TimingWheel T)
      → IsValid w
      → ((j : ℕ) → 1 ≤ j → j < 1 + w.num_buckets → due w j ≡ [])
      → w.len ≡ 0
  unfolding due
  due-empty w v h =
      v.counted
      ∙ total_zero w.buckets λ i l.
        let (k, p, q, e) = place_of w.current i w.num_buckets v.cursor (omega (arith, v.ring)) in
        ap (λ b. get_or w.buckets b []) (sym e) ∙ h k p (omega arith)

  Finds-Foretells :
      (w : TimingWheel T) (o : Option ℕ) → IsValid w → Finds w 1 w.num_buckets o → Foretells w o
  Finds-Foretells w none v f = (
    due-empty w v f,
    λ k h. outputs-due w.num_buckets k w v h (omega arith) ∙ f (k + 1) (omega arith) (omega arith),
  )
  Finds-Foretells w (some i) v (a, b, c, d) = (
    a,
    omega arith,
    λ e. c (
        ap (due w) (omega arith)
        ∙ sym (outputs-due w.num_buckets (i - 1) w v (omega arith) (omega arith))
        ∙ e),
    λ k h.
        outputs-due w.num_buckets k w v (omega arith) (omega arith)
        ∙ d (k + 1) (omega arith) (omega arith),
  )

  -- On a valid wheel the driver is told the truth: with `some k`, the k-th advance from now is the
  -- first that returns anything; with `none` the wheel is empty and no advance of the turn returns
  -- anything.
  pub ticks_until_next_nonempty-Foretells :
      (w : TimingWheel T) → IsValid w → Foretells w (ticks_until_next_nonempty w)
  unfolding ticks_until_next_nonempty
  ticks_until_next_nonempty-Foretells w v = elim (Bool-cases (w.len == 0)) [
    | inl e ↦ rw e (
      ground arith,
      λ k h. outputs-due w.num_buckets k w v h (omega arith) ∙ empty-due w (k + 1) v (ground arith),
    )
    | inr e ↦ rw e (Finds-Foretells w (scan w 1 w.num_buckets) v (scan-Finds w.num_buckets 1 w))
  ]
