-- ===== src/Subject/Join.antt =====
-- A subject with given tokens: the witnesses of the tests between patterns.
use mathlib.Core.Path.{subst}
use arbitro.Common.{
  All, All-map, Bool-cases, List, [], ap, arith, contains, false, if◌then◌else◌, inl, inr, refl,
  sym, true, ℕ, ◌++◌, ◌==◌, ◌||◌, ◌∙◌, ◌∷◌, ◌≡◌, ◌≢◌,
}
use arbitro.Subject.{Bytes, bytes_eq, dot, gt, is_empty, star}
use arbitro.Subject.Tokens.{NoGap, cons_head, tokens}
use arbitro.Subject.Match.{bytes_eq_refl, is_empty-false, matches_tokens}

-- A token that can stand in a subject.
pub record IsToken (t : Bytes) : Type 0 where
  pub filled : is_empty t ≡ false
  pub dotless : contains dot t ≡ false

pub join : List Bytes → Bytes
join [] = []
join (t ∷ []) = t
join (t ∷ u ∷ ts) = t ++ dot ∷ join (u ∷ ts)

tokens-last : (t : Bytes) → is_empty t ≡ false → contains dot t ≡ false → tokens t ≡ t ∷ []
unfolding tokens contains
tokens-last [] e d = cc
tokens-last (c ∷ []) e d = ground arith
tokens-last (c ∷ x ∷ t) e d = ground (arith, tokens-last (x ∷ t))

tokens-head :
    (t rest : Bytes)
    → is_empty t ≡ false
    → contains dot t ≡ false
    → tokens (t ++ dot ∷ rest) ≡ t ∷ tokens rest
unfolding tokens contains
tokens-head [] rest e d = cc
tokens-head (c ∷ []) rest e d = ground arith
tokens-head (c ∷ x ∷ t) rest e d = ground (arith, tokens-head (x ∷ t) rest)

pub tokens-join : (ts : List Bytes) → All IsToken ts → tokens (join ts) ≡ ts
unfolding join
tokens-join [] h = unfold tokens in refl
tokens-join (t ∷ []) h = tokens-last t h.0.filled h.0.dotless
tokens-join (t ∷ u ∷ ts) h =
    tokens-head t (join (u ∷ ts)) h.0.filled h.0.dotless ∙ ap (◌∷◌ t) (tokens-join (u ∷ ts) h.1)

cons_head_dotless :
    (c : ℕ) (ts : List Bytes)
    → (c == dot) ≡ false
    → All (λ t. contains dot t ≡ false) ts
    → All (λ t. contains dot t ≡ false) (cons_head c ts)
unfolding cons_head contains
cons_head_dotless c [] e h = (ground arith, tt)
cons_head_dotless c (t ∷ ts) e h = (ground arith, h.1)

-- The tokens of any bytes hold no dot.
pub tokens_dotless : (s : Bytes) → All (λ t. contains dot t ≡ false) (tokens s)
unfolding tokens contains
tokens_dotless [] = tt
tokens_dotless (c ∷ s) = elim (Bool-cases (c == dot)) [
  | inl e ↦ rw e (refl, tokens_dotless s)
  | inr e ↦ rw e (cons_head_dotless c (tokens s) e (tokens_dotless s))
]

-- So those of a subject or pattern without empty tokens are tokens.
pub tokens-IsToken : (s : Bytes) → NoGap s → All IsToken (tokens s)
tokens-IsToken s h = go (tokens s) h (tokens_dotless s)
  where
    go :
        (ts : List Bytes)
        → All (λ t. t ≢ []) ts
        → All (λ t. contains dot t ≡ false) ts
        → All IsToken ts
    go [] h d = tt
    go (t ∷ ts) h d = (record { filled = is_empty-false t h.0; dotless = d.0 }, go ts h.1 d.1)

pub IsToken-NoGap : (ts : List Bytes) → All IsToken ts → NoGap (join ts)
IsToken-NoGap ts h =
    subst (All (λ t. t ≢ [])) (sym (tokens-join ts h))
      (All-map IsToken (λ t. t ≢ []) (λ t v e. ground (arith, v.filled)) ts h)

-- A token that is no wildcard and differs from a given one.
pub other : Bytes → Bytes
other t = b'x' ∷ t

-- A token that a pattern token matches: itself, or `x` for a wildcard.
pub instance_of : Bytes → Bytes
instance_of t = if bytes_eq t gt || bytes_eq t star then b'x' ∷ [] else t

pub instance-IsToken : (t : Bytes) → IsToken t → IsToken (instance_of t)
unfolding instance_of contains
instance-IsToken t v = ground arith

pub other-IsToken : (t : Bytes) → IsToken t → IsToken (other t)
unfolding other contains
other-IsToken t v = ground arith

-- A subject that a pattern matches.
unfoldable pub instances : List Bytes → List Bytes
instances [] = []
instances (t ∷ ts) = instance_of t ∷ instances ts

pub instances-IsToken : (ts : List Bytes) → All IsToken ts → All IsToken (instances ts)
unfolding instances
instances-IsToken [] h = tt
instances-IsToken (t ∷ ts) h = (instance-IsToken t h.0, instances-IsToken ts h.1)

pub instance_matches :
    (t : Bytes) → (bytes_eq t gt ≡ false) → bytes_eq t star ≡ false → instance_of t ≡ t
unfolding instance_of
instance_matches t g s = ground arith

pub matches-instances : (ts : List Bytes) → matches_tokens ts (instances ts) ≡ true
unfolding instances matches_tokens
matches-instances [] = refl
matches-instances (t ∷ ts) =
    ground (arith, matches-instances ts, instance_matches t, bytes_eq_refl t)

pub bytes_eq-other : (t : Bytes) → bytes_eq t (other t) ≡ false
unfolding other bytes_eq
bytes_eq-other t = go t b'x'
  where
    go : (u : Bytes) (c : ℕ) → bytes_eq u (c ∷ u) ≡ false
    go [] c = refl
    go (d ∷ u) c = ground (arith, go u d)

pub x-IsToken : IsToken (b'x' ∷ [])
unfolding contains
x-IsToken = record { filled = refl; dotless = refl }
