-- ===== src/Conn/Read/Shown.antt =====
-- What a reader is shown of a request (dev.c, fuse_convert_zero_writes and fuse_copy_req_read).
use native.Mathlib.Decide.{ℕ_discrete as dec_eq}
use pxmod.Common.{
  ℕ, ap, ◌∙◌, sym, subst, ◌≡◌, refl, arith, Bool, inl, inr, ◌⊎◌, List, [], ◌∷◌, Bool-cases,
}
use pxmod.Conn.State.{FuseConn, FuseReq}
use pxmod.Conn.Requests.{set_req}
use pxmod.Conn.Opcode.{pxd_discard}
use pxmod.Conn.ZeroPage.{all_segments_zero, fuse_convert_zero_writes}
use pxmod.Conn.Iter.{Chunk, header, argument}
use pxmod.Conn.Read.{may_be_zero, convert_if}

-- Only the opcode changes.

abbrev pub converted : Bool → FuseConn → ℕ → FuseConn
converted detect fc r = set_req fc r (convert_if detect (fc.reqs r))

-- How a request is shown to the process: as it is, or as a discard.
abbrev pub Shown : FuseReq → FuseReq → Type 0
Shown req q = (q ≡ req) ⊎ (q ≡ record req { opcode = pxd_discard })

-- The buffer held `before`, latest first, and then got of each request the header and the argument.
pub data Copied (reqs : ℕ → FuseReq) : List ℕ → List Chunk → List Chunk → Type 0 where
  nothing_more : {before : List Chunk} → Copied reqs [] before before
  and_then :
      {r : ℕ} {rs : List ℕ} {before after : List Chunk} (q : FuseReq)
      → Shown (reqs r) q
      → Copied reqs rs (argument q.rdwr_in ∷ header q ∷ before) after
      → Copied reqs (r ∷ rs) before after

Shown-convert : (detect : Bool) (req : FuseReq) → Shown req (convert_if detect req)
unfolding convert_if fuse_convert_zero_writes
Shown-convert detect req = elim (Bool-cases (may_be_zero detect req)) [
  | inr no_way ↦ simp no_way (inl refl)
  | inl may ↦ elim (Bool-cases (all_segments_zero req.segments)) [
    | inl zeroes ↦ simp (may, zeroes) (inr refl)
    | inr mixed ↦ simp (may, mixed) (inl refl)
  ]
]

Shown-trans : (a b c : FuseReq) → Shown a b → Shown b c → Shown a c
Shown-trans a b c (inl e) (inl e') = inl (e' ∙ e)
Shown-trans a b c (inl e) (inr e') =
    inr (e' ∙ ap (λ (x : FuseReq). record x { opcode = pxd_discard }) e)
Shown-trans a b c (inr e) (inl e') = inr (e' ∙ e)
Shown-trans a b c (inr e) (inr e') =
    inr (e' ∙ ap (λ (x : FuseReq). record x { opcode = pxd_discard }) e)

pub Shown-converted :
    (detect : Bool) (fc : FuseConn) (r s : ℕ) → Shown (fc.reqs s) ((converted detect fc r).reqs s)
Shown-converted detect fc r s = elim (dec_eq r s) [
  | no other ↦ let same : (converted detect fc r).reqs s ≡ fc.reqs s = ground arith in inl same
  | yes here ↦
      let at : (converted detect fc r).reqs s ≡ convert_if detect (fc.reqs r) = ground arith in
      subst (λ (x : FuseReq). Shown (fc.reqs s) x)
        (sym (at ∙ ap (λ k. convert_if detect (fc.reqs k)) here)) (Shown-convert detect (fc.reqs s))
]

pub Copied-converted :
    (detect : Bool) (fc : FuseConn) (r : ℕ) {rs : List ℕ} {before after : List Chunk}
    → Copied (converted detect fc r).reqs rs before after
    → Copied fc.reqs rs before after
Copied-converted detect fc r Copied.nothing_more = Copied.nothing_more
Copied-converted detect fc r (Copied.and_then {r = s} q shown rest) =
    Copied.and_then q
      (Shown-trans (fc.reqs s) ((converted detect fc r).reqs s) q (Shown-converted detect fc r s)
        shown)
      (Copied-converted detect fc r rest)
