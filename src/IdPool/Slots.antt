-- ===== src/IdPool/Slots.antt =====
-- Which slots are handed out, and what each operation does on each of its branches.
use native.Mathlib.Decide.{dec_lt}
use arbitro.Common.{
  Bool, Bool-cases, List, Result, [], arith, contains, err, false, get_elem?-append,
  get_elem?-append_end, get_elem?-none, get_elem?-set_ne, get_elem?-set_self, get_elem?-some,
  get_or-set_self, if◌then◌else◌, inl, inr, leb, length, length-append, length-set, ltb, none, not,
  ok, refl, some, sym, true, ℕ, ◌&&◌, ◌++◌, ◌<◌, ◌==◌, ◌||◌, ◌∙◌, ◌∷◌, ◌≡◌, ◌≢◌,
}
use arbitro.Common.Word.{add_u32}
use arbitro.IdPool.{
  IdPool, PoolError, alloc, alloc_from, any_from, double_free, exhausted, free, generation,
  generation_at, has_duplicate, out_of_range, slot_count,
}
use arbitro.IdPool.Bounds.{IsValid}

-- A slot is handed out: it exists, and is not in the free list.
pub is_active : IdPool → ℕ → Bool
is_active p slot = ltb slot (length p.generations) && not (contains slot p.free_slots)

-- The outcome of `alloc`. A success hands out one slot that was not active, bumps its generation if
-- it existed, and touches no other slot. A failure changes nothing and means that all are active.
abbrev pub Allocates : IdPool → IdPool × Result PoolError (ℕ × ℕ) → Type 0
Allocates p (q, ok (slot, g)) =
    (is_active p slot ≡ false)
    × ((s : ℕ) → is_active q s ≡ (s == slot || is_active p s))
    × (generation q slot ≡ some g)
    × ((s : ℕ) → s ≢ slot → generation q s ≡ generation p s)
    × ((h : ℕ) → generation p slot ≡ some h → g ≡ add_u32 h 1)
    × (generation p slot ≡ none → g ≡ 0)
Allocates p (q, err e) =
    (q ≡ p) × (e ≡ exhausted) × ((s : ℕ) → s < p.max_slots → is_active p s ≡ true)

-- The head of a valid free list exists and does not occur again.
head_facts :
    (p : IdPool) (slot : ℕ) (rest : List ℕ)
    → p.free_slots ≡ slot ∷ rest
    → IsValid p
    → (slot < length p.generations) × (contains slot rest ≡ false)
unfolding any_from has_duplicate
head_facts p slot rest e v = ground arith

recycle-Allocates :
    (p : IdPool) (slot : ℕ) (rest : List ℕ)
    → p.free_slots ≡ slot ∷ rest
    → IsValid p
    → Allocates p (alloc_from p (slot ∷ rest))
unfolding alloc_from is_active contains generation
recycle-Allocates p slot rest e v =
    let g = add_u32 (generation_at p slot) 1 in
    let (there, once) = head_facts p slot rest e v in
    (
      ground arith,
      λ s. ground (arith, length-set p.generations slot g),
      ground (
        arith,
        get_elem?-set_self p.generations slot g there,
        get_or-set_self p.generations slot g 0 there,
      ),
      λ s ne. ground (arith, get_elem?-set_ne p.generations slot s g),
      λ h k. ground (
        arith,
        get_or-set_self p.generations slot g 0 there,
        get_elem?-some p.generations slot 0 there,
      ),
      λ k. ground (arith, get_elem?-some p.generations slot 0 there),
    )

grown-Allocates :
    (p : IdPool)
    → p.free_slots ≡ []
    → p.next_slot < p.max_slots
    → IsValid p
    → Allocates p (
      record p { next_slot = add_u32 p.next_slot 1; generations = p.generations ++ 0 ∷ [] },
      ok (p.next_slot, 0),
    )
unfolding is_active contains generation
grown-Allocates p e room v = (
  ground arith,
  λ s. ground (arith, length-append p.generations (0 ∷ [])),
  get_elem?-append_end p.generations 0 p.next_slot v.counted,
  λ s ne. elim (dec_lt s (length p.generations)) [
    | yes l ↦ get_elem?-append p.generations (0 ∷ []) s l
    | no l ↦
        get_elem?-none (p.generations ++ 0 ∷ []) s
          (omega (arith, v.counted, length-append p.generations (0 ∷ [])))
        ∙ sym (get_elem?-none p.generations s (omega arith))
  ],
  λ h k. ground (arith, get_elem?-none p.generations p.next_slot),
  λ k. refl,
)

grow-Allocates : (p : IdPool) → p.free_slots ≡ [] → IsValid p → Allocates p (alloc_from p [])
unfolding alloc_from is_active contains
grow-Allocates p e v = elim (Bool-cases (leb p.max_slots p.next_slot)) [
  | inl full ↦ rw full (refl, refl, λ s h. ground arith)
  | inr room ↦ rw room (grown-Allocates p e (ground arith) v)
]

-- In a valid pool `alloc` hands out a slot that is not active, under a generation one above the last
-- one of that slot, or 0 for a new slot; every other slot keeps its generation and its activity. It
-- fails only as `exhausted`, changing nothing, and then every slot below the maximum is active.
pub alloc-Allocates : (p : IdPool) → IsValid p → Allocates p (alloc p)
unfolding alloc
alloc-Allocates p v = go p.free_slots refl
  where
    go : (free : List ℕ) → p.free_slots ≡ free → Allocates p (alloc_from p free)
    go [] e = grow-Allocates p e v
    go (slot ∷ rest) e = recycle-Allocates p slot rest e v

-- The outcome of `free`.
abbrev pub Frees : IdPool → ℕ → IdPool × Result PoolError (Unit {0}) → Type 0
Frees p slot (q, ok u) =
    (is_active p slot ≡ true)
    × ((s : ℕ) → is_active q s ≡ (not (s == slot) && is_active p s))
    × (q.generations ≡ p.generations)
Frees p slot (q, err e) =
    (q ≡ p)
    × (is_active p slot ≡ false)
    × (e ≡ (if ltb slot (slot_count p) then double_free else out_of_range))

-- `free` succeeds exactly on an active slot, which becomes inactive under its old generation while
-- no other slot changes. It fails on any other slot, changing nothing: as `out_of_range` on a slot
-- that was never allocated, as `double_free` on one that is free already.
pub free-Frees : (p : IdPool) (slot : ℕ) → Frees p slot (free p slot)
unfolding free is_active contains slot_count
free-Frees p slot = elim (Bool-cases (leb (length p.generations) slot)) [
  | inl e ↦ rw e (refl, ground arith, ground arith)
  | inr e ↦ elim (Bool-cases (contains slot p.free_slots)) [
    | inl f ↦ rw (e, f) (refl, ground arith, ground arith)
    | inr f ↦ rw (e, f) (ground arith, λ s. ground arith, refl)
  ]
]
