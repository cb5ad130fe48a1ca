-- ===== src/IdPool/Restore.antt =====
-- Persistence: snapshots of the pool, and the replay of a log of calls.
use mathlib.Core.List.{append-nil}
use arbitro.Common.{
  Bool-cases, List, Result, [], ap, arith, contains, err, false, get_or-set_self, inl, inr, leb,
  length, ok, refl, remove, set, suc, sym, zero, ℕ, ◌++◌, ◌+◌, ◌-◌, ◌<◌, ◌↔◌, ◌∙◌, ◌∷◌, ◌≡◌,
}
use arbitro.Common.Word.{add_u32}
use arbitro.IdPool.Bounds.{IsValid, alloc-IsValid, free-IsValid}
use arbitro.IdPool.{
  IdPool, PoolError, PoolSnapshot, alloc, alloc_from, any_from, free, generation_at, grow,
  has_duplicate, replay_alloc, restore_from, snapshot,
}

-- What `restore_from` checks.
pub record IsSound (p : IdPool) : Type 0 where
  counted : p.next_slot ≡ length p.generations
  in_range : any_from (length p.generations) p.free_slots ≡ false
  once : has_duplicate p.free_slots ≡ false

restore_from-snapshot : (p : IdPool) → IsSound p → restore_from (snapshot p) ≡ ok p
unfolding restore_from snapshot
restore_from-snapshot p v = ground arith

restore_from-ok :
    (s : PoolSnapshot) (p : IdPool) → restore_from s ≡ ok p → (snapshot p ≡ s) × IsSound p
unfolding restore_from snapshot
restore_from-ok s p e = (ground arith, ground arith)

-- `restore_from` accepts a snapshot exactly when it is that of the returned pool and the pool has a
-- generation for each slot, no dangling slot and no slot twice in its free list.
pub restore_from_iff :
    (s : PoolSnapshot) (p : IdPool) → (restore_from s ≡ ok p) ↔ ((snapshot p ≡ s) × IsSound p)
restore_from_iff s p =
    (restore_from-ok s p, λ (e, v). ap restore_from (sym e) ∙ restore_from-snapshot p v)

remove_missing : (x : ℕ) (xs : List ℕ) → contains x xs ≡ false → remove x xs ≡ xs
unfolding remove contains
remove_missing x [] h = refl
remove_missing x (y ∷ ys) h = ground (arith, remove_missing x ys)

grow_known : (gens : List ℕ) (idx : ℕ) → idx < length gens → grow gens idx ≡ gens
unfolding grow
grow_known gens idx h = let e : idx + 1 - length gens ≡ 0 = omega arith in rw e (append-nil gens)

set_end : (gens : List ℕ) (i v : ℕ) → i ≡ length gens → set (gens ++ 0 ∷ []) i v ≡ gens ++ v ∷ []
set_end [] i v h = rw h
set_end (x ∷ gens) zero v h = absurd (omega arith)
set_end (x ∷ gens) (suc i) v h = ap (◌∷◌ x) (set_end gens i v (omega arith))

grow_next : (gens : List ℕ) (idx : ℕ) → idx ≡ length gens → grow gens idx ≡ gens ++ 0 ∷ []
unfolding grow
grow_next gens idx h = let e : idx + 1 - length gens ≡ 1 = omega arith in rw e

-- The head of a valid free list exists and does not occur again.
head_facts :
    (p : IdPool) (slot : ℕ) (rest : List ℕ)
    → p.free_slots ≡ slot ∷ rest
    → IsValid p
    → (slot < length p.generations) × (remove slot p.free_slots ≡ rest)
unfolding any_from has_duplicate remove
head_facts p slot rest e v = ground (arith, remove_missing slot rest)

replay_recycled :
    (p : IdPool) (slot g : ℕ) (rest : List ℕ)
    → p.free_slots ≡ slot ∷ rest
    → IsValid p
    → replay_alloc p slot g
      ≡ (record p { free_slots = rest; generations = set p.generations slot g }, ok tt)
unfolding replay_alloc
replay_recycled p slot g rest e v =
    let (there, gone) = head_facts p slot rest e v in
    ground (arith, gone, grow_known p.generations slot there)

replay_grown :
    (p : IdPool)
    → p.free_slots ≡ []
    → p.next_slot < p.max_slots
    → IsValid p
    → replay_alloc p p.next_slot 0 ≡ (
      record p { next_slot = add_u32 p.next_slot 1; generations = p.generations ++ 0 ∷ [] },
      ok tt,
    )
unfolding replay_alloc remove
replay_grown p e room v = ground (
  arith,
  grow_next p.generations p.next_slot v.counted,
  set_end p.generations p.next_slot 0 v.counted,
)

-- Replaying what `alloc` handed out does to the pool exactly what `alloc` did.
pub replay_alloc-alloc :
    (p q : IdPool) (slot g : ℕ)
    → IsValid p
    → alloc p ≡ (q, ok (slot, g))
    → replay_alloc p slot g ≡ (q, ok tt)
unfolding alloc
replay_alloc-alloc p q slot g v e = go p.free_slots refl e
  where
    go :
        (free : List ℕ)
        → p.free_slots ≡ free
        → alloc_from p free ≡ (q, ok (slot, g))
        → replay_alloc p slot g ≡ (q, ok tt)
    go [] f k = elim (Bool-cases (leb p.max_slots p.next_slot)) [
      | inl full ↦ ground arith
      | inr room ↦ ground (arith, replay_grown p f (ground arith) v)
    ]
    go (x ∷ rest) f k =
        let n = add_u32 (generation_at p x) 1 in
        let (there, _) = head_facts p x rest f v in
        ground (arith, replay_recycled p x n rest f v, get_or-set_self p.generations x n 0 there)

-- A record of the command log.
pub data Entry : Type 0 where
  created : ℕ → ℕ → Entry
  deleted : ℕ → Entry

-- A run of the pool and the log that it leaves: a call that fails leaves no record.
pub data Request : Type 0 where
  create_one : Request
  delete_one : ℕ → Request

log_created : Result PoolError (ℕ × ℕ) → List Entry → List Entry
log_created (ok (slot, g)) es = created slot g ∷ es
log_created (err e) es = es

log_deleted : ℕ → Result PoolError (Unit {0}) → List Entry → List Entry
log_deleted slot (ok u) es = deleted slot ∷ es
log_deleted slot (err e) es = es

pub serve : IdPool → List Request → IdPool
serve p [] = p
serve p (create_one ∷ rs) = serve (alloc p).0 rs
serve p (delete_one slot ∷ rs) = serve (free p slot).0 rs

pub log_of : IdPool → List Request → List Entry
unfolding log_created log_deleted
log_of p [] = []
log_of p (create_one ∷ rs) = log_created (alloc p).1 (log_of (alloc p).0 rs)
log_of p (delete_one slot ∷ rs) = log_deleted slot (free p slot).1 (log_of (free p slot).0 rs)

pub replay : IdPool → List Entry → IdPool
replay p [] = p
replay p (created slot g ∷ es) = replay (replay_alloc p slot g).0 es
replay p (deleted slot ∷ es) = replay (free p slot).0 es

free-err : (p : IdPool) (slot : ℕ) (e : PoolError) → (free p slot).1 ≡ err e → (free p slot).0 ≡ p
unfolding free
free-err p slot e h = ground arith

alloc-err : (p : IdPool) (e : PoolError) → (alloc p).1 ≡ err e → (alloc p).0 ≡ p
unfolding alloc
alloc-err p e = go p.free_slots
  where
    go : (free : List ℕ) → (alloc_from p free).1 ≡ err e → (alloc_from p free).0 ≡ p
    go [] h = ground arith
    go (x ∷ rest) h = cc

-- Replaying the log that a run left, from the pool that the run started with, which is valid, ends in
-- the very pool that the run ended with.
pub replay-log_of :
    (rs : List Request) (p : IdPool) → IsValid p → replay p (log_of p rs) ≡ serve p rs
unfolding log_of replay serve
replay-log_of [] p v = refl
replay-log_of (create_one ∷ rs) p v =
    go (alloc p) refl (replay-log_of rs (alloc p).0 (alloc-IsValid p v))
  where
    go :
        (r : IdPool × Result PoolError (ℕ × ℕ))
        → alloc p ≡ r
        → replay r.0 (log_of r.0 rs) ≡ serve r.0 rs
        → replay p (log_created r.1 (log_of r.0 rs)) ≡ serve r.0 rs
    go (q, ok (slot, g)) e ih =
        ap (λ t. replay t.0 (log_of q rs)) (replay_alloc-alloc p q slot g v e) ∙ ih
    go (q, err x) e ih =
        ap (λ t. replay t (log_of q rs)) (sym (alloc-err p x (ap (λ t. t.1) e)) ∙ ap (λ t. t.0) e)
        ∙ ih
replay-log_of (delete_one slot ∷ rs) p v =
    go (free p slot).1 refl (replay-log_of rs (free p slot).0 (free-IsValid p slot v))
  where
    go :
        (r : Result PoolError (Unit {0}))
        → (free p slot).1 ≡ r
        → replay (free p slot).0 (log_of (free p slot).0 rs) ≡ serve (free p slot).0 rs
        → replay p (log_deleted slot r (log_of (free p slot).0 rs)) ≡ serve (free p slot).0 rs
    go (ok u) e ih = ih
    go (err x) e ih =
        ap (λ t. replay t (log_of (free p slot).0 rs)) (sym (free-err p slot x e)) ∙ ih
