-- ===== src/Rules/Streams.antt =====
-- The filters of the streams that were admitted, and the code of a refusal.
use arbitro.ErrorCode.{invalid_stream_filter, stream_filter_conflict}
use arbitro.Subject.Overlap.{subjects_overlap_iff}
use arbitro.Common.{
  All, Bool-cases, List, [], arith, err, false, if◌then◌else◌, inl, inr, ok, refl, true, ◌∷◌, ◌≡◌,
}
use arbitro.Subject.{Bytes, subject_matches, subjects_overlap}
use arbitro.Subject.Tokens.{NoGap}
use arbitro.Rules.{
  Verdict, Violation, and_then, filter_does_not_overlap, filter_is_declared,
  filter_is_not_duplicate, filter_is_not_global, is_global, on_create_stream, overlaps_any,
  wire_code,
}

claim_if : Verdict → Bytes → List Bytes → List Bytes
claim_if (ok u) filter claimed = filter ∷ claimed
claim_if (err v) filter claimed = claimed

-- The filters that are claimed after requests for streams, in turn.
pub claims : List Bytes → List Bytes → List Bytes
unfolding claim_if
claims claimed [] = claimed
claims claimed (f ∷ fs) = claims (claim_if (on_create_stream f claimed) f claimed) fs

-- No subject is matched by both.
abbrev pub Apart : Bytes → Bytes → Type 0
Apart f g = (s : Bytes) → NoGap s → subject_matches f s ≡ true → subject_matches g s ≡ false

abbrev pub Disjoint : List Bytes → Type 0
Disjoint [] = Unit {0}
Disjoint (f ∷ fs) = All (Apart f) fs × Disjoint fs

Bounded : Bytes → Type 0
Bounded f = NoGap f × (is_global f ≡ false)

disjoint-Apart : (f g : Bytes) → NoGap f → NoGap g → subjects_overlap g f ≡ false → Apart f g
disjoint-Apart f g nf ng e s ns m = elim (Bool-cases (subject_matches g s)) [
  | inl n ↦ absurd (cc (e, (subjects_overlap_iff g f ng nf).1 (s, ns, n, m)))
  | inr n ↦ n
]

overlaps_any-Apart :
    (f : Bytes) (gs : List Bytes)
    → NoGap f
    → All Bounded gs
    → overlaps_any f gs ≡ false
    → All (Apart f) gs
unfolding overlaps_any Bounded
overlaps_any-Apart f [] nf h e = tt
overlaps_any-Apart f (g ∷ gs) nf h e = (
  disjoint-Apart f g nf h.0.0 (ground (arith, h.0.1)),
  overlaps_any-Apart f gs nf h.1 (ground (arith, h.0.1)),
)

on_create_stream-ok :
    (f : Bytes) (claimed : List Bytes) (u : Unit {0})
    → on_create_stream f claimed ≡ ok u
    → (is_global f ≡ false) × (overlaps_any f claimed ≡ false)
unfolding on_create_stream filter_is_declared filter_is_not_global filter_is_not_duplicate
    filter_does_not_overlap is_global and_then
on_create_stream-ok f claimed u e = ground (arith, e)

claim_if-Disjoint :
    (f : Bytes) (claimed : List Bytes) (v : Verdict)
    → on_create_stream f claimed ≡ v
    → NoGap f
    → All Bounded claimed
    → Disjoint claimed
    → All Bounded (claim_if v f claimed) × Disjoint (claim_if v f claimed)
unfolding claim_if Bounded
claim_if-Disjoint f claimed (ok u) e nf b d =
    let (global, apart) = on_create_stream-ok f claimed u e in
    (((nf, global), b), (overlaps_any-Apart f claimed nf b apart, d))
claim_if-Disjoint f claimed (err v) e nf b d = (b, d)

claims_from-Disjoint :
    (fs claimed : List Bytes)
    → All NoGap fs
    → All Bounded claimed
    → Disjoint claimed
    → Disjoint (claims claimed fs)
unfolding claims
claims_from-Disjoint [] claimed n b d = d
claims_from-Disjoint (f ∷ fs) claimed n b d =
    let (b', d') = claim_if-Disjoint f claimed (on_create_stream f claimed) refl n.0 b d in
    claims_from-Disjoint fs (claim_if (on_create_stream f claimed) f claimed) n.1 b' d'

-- Whatever streams are asked for, in whatever order, with filters without empty tokens: no subject
-- without empty tokens is matched by the filters of two streams that were admitted.
pub claims-Disjoint : (fs : List Bytes) → All NoGap fs → Disjoint (claims [] fs)
claims-Disjoint fs n = claims_from-Disjoint fs [] n tt tt

-- A stream that is refused is answered with `InvalidStreamFilter` if its filter is empty or `>`, and
-- with `StreamFilterConflict` otherwise.
pub on_create_stream-wire_code :
    (f : Bytes) (claimed : List Bytes) (v : Violation)
    → on_create_stream f claimed ≡ err v
    → wire_code v ≡ (if is_global f then invalid_stream_filter else stream_filter_conflict)
unfolding on_create_stream filter_is_declared filter_is_not_global filter_is_not_duplicate
    filter_does_not_overlap is_global and_then wire_code
on_create_stream-wire_code f claimed v e = ground (arith, e)
