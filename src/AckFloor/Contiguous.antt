-- ===== src/AckFloor/Contiguous.antt =====
-- What the floor means: it ends the gap-free prefix of what was acknowledged or given up by a start
-- position.
use arbitro.Common.{
  All, All-map, Ascending, Ascending-mono, Bool-cases, List, [], ap, arith, contains,
  contains_lower, inl, inr, insert_old, insert_or, insert_self, leb, length, length-insert-le,
  length-split_off-le, ltb, refl, split_off, split_off-Ascending, split_off_kept, split_off_old,
  true, ℕ, ◌+◌, ◌<◌, ◌==◌, ◌∷◌, ◌≡◌, ◌≤◌, ◌⊎◌,
}
use arbitro.Common.Word.{add_u64, u64_mod}
use arbitro.AckFloor.{
  Event, FloorSlot, absorb, acked, default, floor, ooo_cap, record_seq, run, seed_slot, seeded,
  step,
}
use arbitro.AckFloor.Bounds.{InRange, IsValid, default-IsValid, run-IsValid, step-IsValid}

-- `q` needs no delivery after the events: it was acknowledged, or lies at or below a start position.
abbrev pub Settled : ℕ → List Event → Type 0
Settled q [] = ⊥
Settled q (acked seq ∷ es) = (q ≡ seq) ⊎ Settled q es
Settled q (seeded floor ∷ es) = (q ≤ floor) ⊎ Settled q es

-- Everything that a slot claims satisfies `P`.
module _ (P : ℕ → Type 0) where
  record Known (s : FloorSlot) : Type 0 where
    below : (q : ℕ) → q ≤ s.floor → P q
    held : (q : ℕ) → contains q s.ooo ≡ true → P q

  abbrev Brings : Event → Type 0
  Brings (acked seq) = P seq
  Brings (seeded floor) = (q : ℕ) → q ≤ floor → P q

  absorb-Known :
      (floor : ℕ) (ooo : List ℕ)
      → ((q : ℕ) → q ≤ floor → P q)
      → ((q : ℕ) → contains q ooo ≡ true → P q)
      → Known (absorb floor ooo)
  unfolding absorb contains
  absorb-Known floor [] below held = record { below = below; held = held }
  absorb-Known floor (x ∷ xs) below held = elim (Bool-cases (x == add_u64 floor 1)) [
    | inl e ↦
        rw e (
          absorb-Known x xs (λ q h. ground (arith, below q, held q)) (λ q h. held q (ground arith)))
    | inr e ↦ rw e (record { below = below; held = held })
  ]

  record_seq-Known : (s : FloorSlot) (seq : ℕ) → P seq → Known s → Known (record_seq s seq)
  unfolding record_seq
  record_seq-Known s seq p k = elim (Bool-cases (leb seq s.floor)) [
    | inl e ↦ rw e k
    | inr above ↦ elim (Bool-cases (seq == add_u64 s.floor 1)) [
      | inl e ↦
          rw (above, e)
            (absorb-Known seq s.ooo (λ q h. ground (arith, k.below q, ap P {x = q} {y = seq}))
              k.held)
      | inr far ↦ elim (Bool-cases (ltb (length s.ooo) ooo_cap)) [
        | inl e ↦
            rw (above, far, e)
              (record {
                below = k.below;
                held =
                    λ q h. elim (insert_or seq q s.ooo h) [ inl m ↦ rw m p | inr m ↦ k.held q m ];
              })
        | inr e ↦ rw (above, far, e) k
      ]
    ]
  ]

  step-Known : (s : FloorSlot) (e : Event) → Brings e → Known s → Known (step s e)
  unfolding step seed_slot
  step-Known s (acked seq) b k = record_seq-Known s seq b k
  step-Known s (seeded floor) b k = elim (Bool-cases (ltb s.floor floor)) [
    | inl e ↦ rw e (
        absorb-Known floor (split_off (add_u64 floor 1) s.ooo) b
          (λ q h. k.held q (split_off_old _ q s.ooo h)))
    | inr e ↦ rw e k
  ]

  run-Known : (es : List Event) (s : FloorSlot) → All Brings es → Known s → Known (run s es)
  unfolding run
  run-Known [] s b k = k
  run-Known (e ∷ es) s b k = run-Known es (step s e) b.1 (step-Known s e b.0 k)

-- The events settle what they name.
Brings-mono : (P Q : ℕ → Type 0) (f : (q : ℕ) → P q → Q q) (e : Event) → Brings P e → Brings Q e
Brings-mono P Q f (acked seq) b = f seq b
Brings-mono P Q f (seeded floor) b = λ q h. f q (b q h)

Settled-later : (e : Event) (es : List Event) (q : ℕ) → Settled q es → Settled q (e ∷ es)
Settled-later (acked seq) es q h = inr h
Settled-later (seeded floor) es q h = inr h

Brings-later :
    (e : Event) (es fs : List Event)
    → All (Brings (λ q. Settled q es)) fs
    → All (Brings (λ q. Settled q (e ∷ es))) fs
Brings-later e es fs h =
    All-map (Brings (λ q. Settled q es)) (Brings (λ q. Settled q (e ∷ es)))
      (Brings-mono _ _ (Settled-later e es)) fs h

Brings-Settled : (es : List Event) → All (Brings (λ q. Settled q es)) es
Brings-Settled [] = tt
Brings-Settled (acked seq ∷ es) = (inl refl, Brings-later (acked seq) es es (Brings-Settled es))
Brings-Settled (seeded floor ∷ es) =
    (λ q h. inl h, Brings-later (seeded floor) es es (Brings-Settled es))

-- A slot forgets nothing: what is settled stays at or below the floor, or in the set.
abbrev Kept : ℕ → FloorSlot → Type 0
Kept q s = (q ≤ s.floor) ⊎ (contains q s.ooo ≡ true)

absorb-Kept :
    (floor q : ℕ) (ooo : List ℕ)
    → Ascending (floor + 1) ooo
    → (q ≤ floor) ⊎ (contains q ooo ≡ true)
    → Kept q (absorb floor ooo)
unfolding absorb contains
absorb-Kept floor q [] a h = h
absorb-Kept floor q (x ∷ xs) a h =
    ground (arith, absorb-Kept x q xs (Ascending-mono xs (omega arith) a.1))

record_seq-Kept : (s : FloorSlot) (seq q : ℕ) → IsValid s → Kept q s → Kept q (record_seq s seq)
unfolding record_seq
record_seq-Kept s seq q v k = ground (
  arith,
  absorb-Kept seq q s.ooo,
  Ascending-mono {m = seq + 1} {n = s.floor + 2} s.ooo,
  insert_old seq q s.ooo,
)

seed_slot-Kept :
    (s : FloorSlot) (floor q : ℕ)
    → floor + 1 < u64_mod
    → IsValid s
    → (q ≤ floor) ⊎ Kept q s
    → Kept q (seed_slot s floor)
unfolding seed_slot
seed_slot-Kept s floor q h v k = ground (
  arith,
  absorb-Kept floor q (split_off (floor + 1) s.ooo)
      (split_off-Ascending (s.floor + 2) (floor + 1) s.ooo v.beyond_gap),
  split_off_kept (floor + 1) q s.ooo,
)

-- The recorded number itself is kept while the set has room.
record_seq_self :
    (s : FloorSlot) (seq : ℕ)
    → seq < u64_mod
    → IsValid s
    → length s.ooo < ooo_cap
    → Kept seq (record_seq s seq)
unfolding record_seq
record_seq_self s seq h v room = ground (
  arith,
  absorb-Kept seq seq s.ooo,
  Ascending-mono {m = seq + 1} {n = s.floor + 2} s.ooo,
  insert_self seq s.ooo,
)

length-absorb : (floor : ℕ) (ooo : List ℕ) → length (absorb floor ooo).ooo ≤ length ooo
unfolding absorb
length-absorb floor [] = omega arith
length-absorb floor (x ∷ xs) = ground (arith, length-absorb x xs)

length-step : (s : FloorSlot) (e : Event) → length (step s e).ooo ≤ length s.ooo + 1
unfolding step record_seq seed_slot
length-step s (acked seq) = ground (arith, length-absorb seq s.ooo, length-insert-le seq s.ooo)
length-step s (seeded floor) = ground (
  arith,
  length-absorb floor (split_off (add_u64 floor 1) s.ooo),
  length-split_off-le (add_u64 floor 1) s.ooo,
)

step-Kept :
    (s : FloorSlot) (e : Event) (q : ℕ) → InRange e → IsValid s → Kept q s → Kept q (step s e)
unfolding step
step-Kept s (acked seq) q h v k = record_seq-Kept s seq q v k
step-Kept s (seeded floor) q h v k = seed_slot-Kept s floor q h v (inr k)

run-Kept :
    (es : List Event) (s : FloorSlot) (q : ℕ)
    → All InRange es
    → IsValid s
    → length s.ooo + length es ≤ ooo_cap
    → Kept q s ⊎ Settled q es
    → Kept q (run s es)
unfolding run step
run-Kept [] s q h v l (inl k) = k
run-Kept [] s q h v l (inr k) = absurd k
run-Kept (e ∷ es) s q h v l (inl k) =
    run-Kept es (step s e) q h.1 (step-IsValid s e h.0 v) (omega (arith, length-step s e))
      (inl (step-Kept s e q h.0 v k))
run-Kept (acked seq ∷ es) s q h v l (inr (inl m)) =
    run-Kept es (step s (acked seq)) q h.1 (step-IsValid s (acked seq) h.0 v)
      (omega (arith, length-step s (acked seq)))
      (inl (rw m (record_seq_self s seq h.0 v (omega arith))))
run-Kept (seeded floor ∷ es) s q h v l (inr (inl m)) =
    run-Kept es (step s (seeded floor)) q h.1 (step-IsValid s (seeded floor) h.0 v)
      (omega (arith, length-step s (seeded floor))) (inl (seed_slot-Kept s floor q h.0 v (inl m)))
run-Kept (acked seq ∷ es) s q h v l (inr (inr m)) =
    run-Kept es (step s (acked seq)) q h.1 (step-IsValid s (acked seq) h.0 v)
      (omega (arith, length-step s (acked seq))) (inr m)
run-Kept (seeded floor ∷ es) s q h v l (inr (inr m)) =
    run-Kept es (step s (seeded floor)) q h.1 (step-IsValid s (seeded floor) h.0 v)
      (omega (arith, length-step s (seeded floor))) (inr m)

-- Whatever the events, in whatever order and number: the floor of a new consumer passes a sequence
-- number above 0 only if that number was acknowledged or lies at or below a start position, and the
-- out-of-order set holds only such numbers. So skipping what is at or below the floor loses nothing.
pub run-floor_sound :
    (es : List Event)
    → ((q : ℕ) → q ≤ (run default es).floor → (q ≡ 0) ⊎ Settled q es)
      × ((q : ℕ) → contains q (run default es).ooo ≡ true → (q ≡ 0) ⊎ Settled q es)
unfolding contains
run-floor_sound es = (known.below, known.held)
  where
    P : ℕ → Type 0
    P q = (q ≡ 0) ⊎ Settled q es

    brings : All (Brings P) es
    brings =
        All-map (Brings (λ q. Settled q es)) (Brings P) (Brings-mono _ P (λ q. inr)) es
          (Brings-Settled es)

    known : Known P (run default es)
    known =
        run-Known P es default brings
          (record { below = λ q h. inl (omega arith); held = λ q h. cc })

-- After at most 1024 events in range, the floor is exact: it ends the gap-free prefix, as the number
-- after it is settled by no event, and each settled number lies at or below it or in the set.
pub run-floor_exact :
    (es : List Event)
    → All InRange es
    → length es ≤ ooo_cap
    → (¬ Settled ((run default es).floor + 1) es)
      × ((q : ℕ)
          → Settled q es
          → (q ≤ (run default es).floor) ⊎ (contains q (run default es).ooo ≡ true))
run-floor_exact es h l = (not_next, kept)
  where
    kept :
        (q : ℕ)
        → Settled q es
        → (q ≤ (run default es).floor) ⊎ (contains q (run default es).ooo ≡ true)
    kept q m = run-Kept es default q h default-IsValid (omega arith) (inr m)

    not_next : ¬ Settled ((run default es).floor + 1) es
    not_next m = ground (
      arith,
      kept ((run default es).floor + 1) m,
      contains_lower ((run default es).floor + 2) ((run default es).floor + 1) (run default es).ooo
          (run-IsValid es default h default-IsValid).beyond_gap,
    )
