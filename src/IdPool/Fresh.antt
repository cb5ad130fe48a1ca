-- ===== src/IdPool/Fresh.antt =====
-- The anti-ABA promise of the generations.
use native.Mathlib.Decide.{ℕ_discrete}
use mathlib.Core.Path.{subst}
use arbitro.Common.{
  ==_refl, All, All-map, List, Option-cases, Result, [], ap, arith, err, false, inl, inr, length,
  ok, some, suc, sym, true, ℕ, ◌+◌, ◌<◌, ◌∙◌, ◌∷◌, ◌≡◌,
}
use arbitro.Common.Word.{u32_mod}
use arbitro.IdPool.{IdPool, PoolError, alloc, free, generation, is_current, new}
use arbitro.IdPool.Bounds.{IsValid, alloc-IsValid, free-IsValid, new-IsValid}
use arbitro.IdPool.Slots.{Allocates, alloc-Allocates}

-- A live use of the pool, and the pairs of slot and generation that it hands out, oldest first.
pub data Use : Type 0 where
  take_slot : Use
  give_back : ℕ → Use

cons_issued : Result PoolError (ℕ × ℕ) → List (ℕ × ℕ) → List (ℕ × ℕ)
cons_issued (ok t) ts = t ∷ ts
cons_issued (err e) ts = ts

pub issued : IdPool → List Use → List (ℕ × ℕ)
unfolding cons_issued
issued p [] = []
issued p (take_slot ∷ us) = cons_issued (alloc p).1 (issued (alloc p).0 us)
issued p (give_back slot ∷ us) = issued (free p slot).0 us

-- No generation of the pool wraps within `n` further calls.
abbrev pub HasRoom : IdPool → ℕ → Type 0
HasRoom p n = (s h : ℕ) → generation p s ≡ some h → h + n < u32_mod

-- A pair lies above the generation that the pool has for its slot.
abbrev Above : IdPool → ℕ × ℕ → Type 0
Above p t = (h : ℕ) → generation p t.0 ≡ some h → h < t.1

-- Later pairs of one slot have larger generations.
abbrev pub Rising : List (ℕ × ℕ) → Type 0
Rising [] = Unit {0}
Rising (t ∷ ts) = All (λ u. t.0 ≡ u.0 → t.1 < u.1) ts × Rising ts

generation-free : (p : IdPool) (slot s : ℕ) → generation (free p slot).0 s ≡ generation p s
unfolding generation free
generation-free p slot s = ground arith

-- What an allocation step does to the room, and to what lies above.
record Steps (p q : IdPool) (slot g n : ℕ) : Type 0 where
  room : HasRoom q n
  weaker : (t : ℕ × ℕ) → Above q t → Above p t
  head : Above p (slot, g)
  now : generation q slot ≡ some g

step-Steps :
    (p q : IdPool) (slot g n : ℕ)
    → suc n < u32_mod
    → HasRoom p (suc n)
    → Allocates p (q, ok (slot, g))
    → Steps p q slot g n
step-Steps p q slot g n l h (idle, acts, now, others, bumped, new) = record {
  room = λ s k e. elim (ℕ_discrete s slot) [
    | yes same ↦ ground (arith, fresh_room)
    | no ne ↦ omega (arith, h s k (sym (others s ne) ∙ e))
  ];
  weaker = λ t a k e. elim (ℕ_discrete t.0 slot) [
    | yes same ↦ omega (
      arith,
      a g (ap (generation q) same ∙ now),
      bumped k (ap (generation p) (sym same) ∙ e),
      h t.0 k e,
    )
    | no ne ↦ a k (others t.0 ne ∙ e)
  ];
  head = λ k e. omega (arith, bumped k e, h slot k e);
  now = now;
}
  where
    fresh_room : g + n < u32_mod
    fresh_room = elim (Option-cases (generation p slot)) [
      | inl e ↦ omega (arith, new e)
      | inr (k, e) ↦ omega (arith, bumped k e, h slot k e)
    ]

issued-Above :
    (us : List Use) (p : IdPool)
    → length us < u32_mod
    → HasRoom p (length us)
    → IsValid p
    → All (Above p) (issued p us) × Rising (issued p us)
unfolding issued
issued-Above [] p l h v = (tt, tt)
issued-Above (give_back slot ∷ us) p l h v =
    let q = (free p slot).0 in
    let (above, rising) =
      issued-Above us q (omega arith)
        (λ s k e. omega (arith, h s k (sym (generation-free p slot s) ∙ e)))
        (free-IsValid p slot v) in
    (
      All-map (Above q) (Above p) (λ t a k e. a k (generation-free p slot t.0 ∙ e)) (issued q us)
          above,
      rising,
    )
issued-Above (take_slot ∷ us) p l h v =
    go (alloc p) (alloc-Allocates p v) (issued-Above us (alloc p).0 (omega arith))
      (alloc-IsValid p v)
  where
    go :
        (r : IdPool × Result PoolError (ℕ × ℕ))
        → Allocates p r
        → (HasRoom r.0 (length us)
            → IsValid r.0
            → All (Above r.0) (issued r.0 us) × Rising (issued r.0 us))
        → IsValid r.0
        → All (Above p) (cons_issued r.1 (issued r.0 us)) × Rising (cons_issued r.1 (issued r.0 us))
    go (q, err e) (same, _, _) ih w =
        let (above, rising) =
          ih (λ s k m. omega (arith, h s k (ap (λ x. generation x s) (sym same) ∙ m))) w in
        (
          All-map (Above q) (Above p) (λ t a k m. a k (ap (λ x. generation x t.0) same ∙ m))
              (issued q us) above,
          rising,
        )
    go (q, ok (slot, g)) a ih w =
        let st = step-Steps p q slot g (length us) l h a in
        let (above, rising) = ih st.room w in
        (
          (st.head, All-map (Above q) (Above p) st.weaker (issued q us) above),
          (
            All-map (Above q) (λ u. slot ≡ u.0 → g < u.1)
                (λ t a same. a g (ap (generation q) (sym same) ∙ st.now)) (issued q us) above,
            rising,
          ),
        )

-- On a new pool, whatever is allocated and freed in fewer than 2^32 calls: when a slot is handed out
-- again, it is under a larger generation than each time before. So no pair is handed out twice.
pub issued-Rising :
    (max_slots : ℕ) (us : List Use)
    → max_slots < u32_mod
    → length us < u32_mod
    → Rising (issued (new max_slots) us)
unfolding generation new
issued-Rising m us h l = (issued-Above us (new m) l (λ s k e. cc) (new-IsValid m h)).1

-- Handing out an existing slot makes its old pair stale and the new pair current.
pub alloc_stale :
    (p q : IdPool) (slot g h : ℕ)
    → IsValid p
    → alloc p ≡ (q, ok (slot, g))
    → (is_current q slot g ≡ true) × (is_current p slot h ≡ true → is_current q slot h ≡ false)
unfolding is_current
alloc_stale p q slot g h v e =
    let (_, _, now, _, bumped, _) = subst (Allocates p) e (alloc-Allocates p v) in
    (
      rw now (==_refl g),
      λ c. elim (Option-cases (generation p slot)) [
        | inl m ↦ absurd (ground arith)
        | inr (k, m) ↦ rw now (ground (arith, bumped k m))
      ],
    )
