-- ===== src/Conn/Read/Select.antt =====
-- What a reader takes of the pending requests (dev.c, fuse_dev_do_read).
use pxmod.Common.{
  ℕ, ◌+◌, ◌-◌, ◌≤◌, ◌<◌, ◌≡◌, ◌⊎◌, inl, inr, refl, arith, List, [], ◌∷◌, ◌++◌, leb, ap, Bool-cases,
  subst,
}
use pxmod.Conn.State.{FuseReq}
use pxmod.Conn.Read.{select}

-- The lengths of the requests, added up.
unfoldable pub lens : (ℕ → FuseReq) → List ℕ → ℕ
lens reqs [] = 0
lens reqs (r ∷ rs) = (reqs r).len + lens reqs rs

pub lens-cons :
    (reqs : ℕ → FuseReq) (r : ℕ) (rs : List ℕ) → lens reqs (r ∷ rs) ≡ (reqs r).len + lens reqs rs
unfolding lens
lens-cons reqs r rs = refl

-- No request is left that would have fitted next.
abbrev pub Stops : (ℕ → FuseReq) → List ℕ → ℕ → Type 0
Stops reqs [] room = Unit {0}
Stops reqs (r ∷ rs) room = room < (reqs r).len

-- The taken requests are the first pending ones, in order; they fit into the room; the next one
-- would not, and then no room is said to be left; if all are taken, `remain` is the exact rest.
pub select_lem :
    (reqs : ℕ → FuseReq) (rs : List ℕ) (room : ℕ)
    → let s = select reqs rs room in
      (s.taken ++ s.rest ≡ rs)
      × (lens reqs s.taken + s.remain ≤ room)
      × Stops reqs s.rest (room - lens reqs s.taken)
      × ((s.rest ≡ []) ⊎ (s.remain ≡ 0))
      × (s.rest ≡ [] → lens reqs s.taken + s.remain ≡ room)
unfolding select lens
select_lem reqs [] room = (refl, omega arith, tt, inl refl, λ e. omega arith)
select_lem reqs (r ∷ rs) room = elim (Bool-cases (leb (reqs r).len room)) [
  | inl fits ↦
      let ih = select_lem reqs rs (room - (reqs r).len) in
      let more = select reqs rs (room - (reqs r).len) in
      let shorter : room - (reqs r).len - lens reqs more.taken
          ≡ room - ((reqs r).len + lens reqs more.taken) =
        omega arith in
      rw fits (
        ap (◌∷◌ r) ih.0,
        ground (arith, ih),
        subst (Stops reqs more.rest) shorter ih.2,
        ih.3,
        λ e. ground (arith, ih.4 e),
      )
  | inr big ↦ rw big (refl, omega arith, ground arith, inr refl, λ e. cc)
]
