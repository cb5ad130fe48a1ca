-- ===== src/IdPool/Bounds.antt =====
-- The invariants that the comment of crates/arbitro-common/src/id_pool.rs lists.
use arbitro.Common.{
  List, [], arith, contains, contains-remove, false, length, length-append, length-pad, length-set,
  refl, remove, true, ℕ, ◌+◌, ◌-◌, ◌<◌, ◌∷◌, ◌≡◌, ◌≤◌,
}
use arbitro.Common.Word.{add_u32, u32_mod}
use arbitro.IdPool.{
  IdPool, alloc, alloc_from, any_from, free, generation_at, grow, has_duplicate, new, replay_alloc,
}

-- One generation for each slot, no dangling slot and no slot twice in the free list, and no more
-- slots than the maximum, a 32-bit word.
pub record IsValid (p : IdPool) : Type 0 where
  pub counted : p.next_slot ≡ length p.generations
  pub in_range : any_from (length p.generations) p.free_slots ≡ false
  pub once : has_duplicate p.free_slots ≡ false
  pub capped : p.next_slot ≤ p.max_slots
  pub fits : p.max_slots < u32_mod

pub new-IsValid : (max_slots : ℕ) → max_slots < u32_mod → IsValid (new max_slots)
unfolding new any_from has_duplicate
new-IsValid m h = record {
  counted = refl;
  in_range = refl;
  once = refl;
  capped = omega arith;
  fits = h;
}

any_from_mono : (m n : ℕ) (xs : List ℕ) → m ≤ n → any_from m xs ≡ false → any_from n xs ≡ false
unfolding any_from
any_from_mono m n [] h a = refl
any_from_mono m n (x ∷ xs) h a = ground (arith, any_from_mono m n xs h)

-- A member of the free list is below the bound.
pub any_from_member : (n x : ℕ) (xs : List ℕ) → any_from n xs ≡ false → contains x xs ≡ true → x < n
unfolding any_from contains
any_from_member n x [] a h = absurd (cc h)
any_from_member n x (y ∷ ys) a h = ground (arith, any_from_member n x ys)

any_from-remove : (n x : ℕ) (xs : List ℕ) → any_from n xs ≡ false → any_from n (remove x xs) ≡ false
unfolding any_from remove
any_from-remove n x [] a = refl
any_from-remove n x (y ∷ ys) a = ground (arith, any_from-remove n x ys)

has_duplicate-remove :
    (x : ℕ) (xs : List ℕ) → has_duplicate xs ≡ false → has_duplicate (remove x xs) ≡ false
unfolding has_duplicate remove
has_duplicate-remove x [] d = refl
has_duplicate-remove x (y ∷ ys) d =
    ground (arith, has_duplicate-remove x ys, contains-remove x y ys)

alloc_from-IsValid :
    (p : IdPool) (free : List ℕ) → p.free_slots ≡ free → IsValid p → IsValid (alloc_from p free).0
unfolding alloc_from any_from has_duplicate
alloc_from-IsValid p [] e v = ground (
  arith,
  length-append p.generations (0 ∷ []),
  any_from_mono (length p.generations) (length p.generations + 1) p.free_slots,
)
alloc_from-IsValid p (x ∷ xs) e v =
    ground (arith, length-set p.generations x (add_u32 (generation_at p x) 1))

pub alloc-IsValid : (p : IdPool) → IsValid p → IsValid (alloc p).0
unfolding alloc
alloc-IsValid p v = alloc_from-IsValid p p.free_slots refl v

pub free-IsValid : (p : IdPool) (slot : ℕ) → IsValid p → IsValid (free p slot).0
unfolding free any_from has_duplicate
free-IsValid p slot v = ground arith

replay_alloc-IsValid : (p : IdPool) (slot g : ℕ) → IsValid p → IsValid (replay_alloc p slot g).0
unfolding replay_alloc
replay_alloc-IsValid p slot g v = ground (
  arith,
  length-set (grow p.generations slot) slot g,
  length-pad p.generations (slot + 1 - length p.generations) 0,
  any_from_mono (length p.generations) (length (grow p.generations slot)) p.free_slots,
  any_from-remove (length (grow p.generations slot)) slot p.free_slots,
  has_duplicate-remove slot p.free_slots,
)

-- A call that changes the pool.
pub data Call : Type 0 where
  alloc_call : Call
  free_call : ℕ → Call
  replay_alloc_call : ℕ → ℕ → Call

pub perform : IdPool → Call → IdPool
perform p alloc_call = (alloc p).0
perform p (free_call slot) = (free p slot).0
perform p (replay_alloc_call slot g) = (replay_alloc p slot g).0

pub run : IdPool → List Call → IdPool
run p [] = p
run p (c ∷ cs) = run (perform p c) cs

-- Every call, failed or not, keeps the invariants.
pub perform-IsValid : (p : IdPool) (c : Call) → IsValid p → IsValid (perform p c)
unfolding perform
perform-IsValid p alloc_call v = alloc-IsValid p v
perform-IsValid p (free_call slot) v = free-IsValid p slot v
perform-IsValid p (replay_alloc_call slot g) v = replay_alloc-IsValid p slot g v

run-IsValid : (cs : List Call) (p : IdPool) → IsValid p → IsValid (run p cs)
unfolding run
run-IsValid [] p v = v
run-IsValid (c ∷ cs) p v = run-IsValid cs (perform p c) (perform-IsValid p c v)

-- After any calls on a new pool, failed ones included, there is a generation for each slot, no
-- dangling or repeated free slot, and no more slots than the maximum, if that is a 32-bit word.
pub run-new-IsValid :
    (max_slots : ℕ) (cs : List Call) → max_slots < u32_mod → IsValid (run (new max_slots) cs)
run-new-IsValid m cs h = run-IsValid cs (new m) (new-IsValid m h)
