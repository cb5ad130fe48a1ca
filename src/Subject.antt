-- ===== src/Subject.antt =====
-- crates/arbitro-engine/src/common/subject.rs: subjects and patterns, and the tests between them. A
-- subject is a list of bytes.
pub mod Tokens
pub mod Match
pub mod Cover
pub mod Overlap
pub mod Join
mod Tests
use arbitro.Common.{
  Bool, List, Option, [], false, if◌then◌else◌, length, none, not, some, suc, true, zero, ℕ, ◌&&◌,
  ◌+◌, ◌==◌, ◌||◌, ◌∷◌,
}

abbrev pub Bytes : Type 0
Bytes = List ℕ

abbrev pub dot : ℕ
dot = b'.'

abbrev pub star : Bytes
star = b'*' ∷ []

abbrev pub gt : Bytes
gt = b'>' ∷ []

unfoldable pub bytes_eq : Bytes → Bytes → Bool
bytes_eq [] [] = true
bytes_eq [] (b ∷ bs) = false
bytes_eq (a ∷ as') [] = false
bytes_eq (a ∷ as') (b ∷ bs) = a == b && bytes_eq as' bs

abbrev pub is_empty : Bytes → Bool
is_empty [] = true
is_empty (c ∷ s) = false

-- The token up to the first dot, and what follows the dot.
unfoldable pub next_token : Bytes → Bytes × Bytes
next_token [] = ([], [])
next_token (c ∷ s) = let (t, r) = next_token s in if c == dot then ([], s) else (c ∷ t, r)

-- One round of a loop: `some` returns, `none` goes on with the rests. An arm takes both tokens and
-- both rests.
abbrev pub Arm : Type 0
Arm = Bytes → Bytes → Bytes → Bytes → Option Bool

pub match_arm : Arm
match_arm p prest s srest =
    if bytes_eq p gt && not (is_empty s)
    then some true
    else if bytes_eq p star && not (is_empty s)
    then none
    else if bytes_eq p s && not (is_empty p)
    then none
    else if is_empty p && is_empty s
    then some (is_empty prest && is_empty srest)
    else some false

unfoldable pub covers_arm : Arm
covers_arm a wrest b nrest =
    if bytes_eq a gt && not (is_empty b)
    then some true
    else if bytes_eq b gt
    then some false
    else if bytes_eq a star && not (is_empty b)
    then none
    else if bytes_eq a b && not (is_empty a)
    then none
    else if is_empty a && is_empty b
    then some (is_empty wrest && is_empty nrest)
    else some false

pub overlap_arm : Arm
overlap_arm p xr q yr =
    if (bytes_eq p gt && not (is_empty q)) || (bytes_eq q gt && not (is_empty p))
    then some true
    else if (bytes_eq p star && not (is_empty q)) || (bytes_eq q star && not (is_empty p))
    then none
    else if bytes_eq p q && not (is_empty p)
    then none
    else if is_empty p && is_empty q
    then some (is_empty xr && is_empty yr)
    else some false

-- The loop on fuel; `none` means that the fuel ran out.
unfoldable pub walk : Arm → ℕ → Bytes → Bytes → Option Bool
walk arm zero a b = none
walk arm (suc fuel) a b =
    let (at, ar) = next_token a in
    let (bt, br) = next_token b in
    elim (arm at ar bt br) [ none ↦ walk arm fuel ar br | some answer ↦ some answer ]

-- The answer of a loop that ends.
unfoldable pub answer : Option Bool → Bool
answer none = false
answer (some b) = b

pub subject_matches : Bytes → Bytes → Bool
unfolding match_arm walk answer
subject_matches pattern' subject = answer (walk match_arm (length pattern' + 1) pattern' subject)

unfoldable pub subject_covers : Bytes → Bytes → Bool
unfolding covers_arm walk answer
subject_covers wide narrow = answer (walk covers_arm (length wide + 1) wide narrow)

pub subjects_overlap : Bytes → Bytes → Bool
unfolding overlap_arm walk answer
subjects_overlap a b = answer (walk overlap_arm (length a + 1) a b)

pub strictly_nested : Bytes → Bytes → Bool
strictly_nested narrow wide = subject_covers wide narrow && not (subject_covers narrow wide)
