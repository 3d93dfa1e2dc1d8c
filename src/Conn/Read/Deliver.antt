-- ===== src/Conn/Read/Deliver.antt =====
-- The copying loop of a reader (dev.c, fuse_dev_do_read).
use pxmod.Common.{
  ℕ, ap, ◌∙◌, sym, subst, ◌+◌, ◌≤◌, ◌<◌, ◌≡◌, refl, arith, Bool, some, inl, inr, true, ◌==◌, List,
  [], ◌∷◌, occurs, occurs-cons, occurs-list_del, list_del-absent, Bool-cases,
}
use pxmod.Common.Int.{ℤ, pos, ◌+ℤ◌, is_pos, eio}
use pxmod.Conn.State.{FuseConn, FuseReq}
use pxmod.Conn.Requests.{set_error, in_header_size}
use pxmod.Conn.Requests.Invariant.{ConnInv, IdsInv-cong, end-Ended}
use pxmod.Conn.Requests.Laws.{listed-Mapped, set_error-Inv}
use pxmod.Conn.ZeroPage.{fuse_convert_zero_writes}
use pxmod.Conn.Account.{Goes, Goes-refl, Goes-trans, set_req-Goes, Ended-Goes}
use pxmod.Conn.Iter.{IovIter, IsMapped, header, argument}
use pxmod.Conn.Read.{convert_if, fuse_copy_req_read, Delivery, deliver_one, deliver}
use pxmod.Conn.Read.Shown.{Copied, converted, Shown-converted, Copied-converted}
use pxmod.Conn.Read.Select.{lens, lens-cons}

-- Only the opcode changes.
convert-fields :
    (detect : Bool) (req : FuseReq)
    → ((convert_if detect req).unique ≡ req.unique)
      × ((convert_if detect req).len ≡ req.len)
      × ((convert_if detect req).arg_size ≡ req.arg_size)
      × ((convert_if detect req).end ≡ req.end)
unfolding convert_if fuse_convert_zero_writes
convert-fields detect req = ground arith

converted-Inv :
    (n r : ℕ) (detect : Bool) (fc : FuseConn) → ConnInv n fc → ConnInv n (converted detect fc r)
converted-Inv n r detect fc inv = record {
  ids = IdsInv-cong n fc (converted detect fc r) refl refl refl refl inv.ids;
  own_slot = λ i q p. ground (arith, inv.own_slot i q, convert-fields detect (fc.reqs r));
  listed = λ q. ground (arith, inv.listed q, convert-fields detect (fc.reqs r));
}

-- The requests that are still to be copied are being processed.
abbrev pub Within : List ℕ → FuseConn → Type 0
Within rs fc = (s : ℕ) → occurs s rs ≤ occurs s fc.processing

module _ (io : IovIter) (n cpu : ℕ) (here : cpu < n) (detect : Bool) where
  open io use {Iter, count, copy_to_iter, copied-le, count-copy}

  deliver_one-runs :
      (r : ℕ) (rs : List ℕ) (d : Delivery io)
      → ConnInv n d.fc
      → Within (r ∷ rs) d.fc
      → (d' : Delivery io) × (deliver_one io cpu r d ≡ some d')
        × ConnInv n d'.fc
        × Within rs d'.fc
        × (d'.fc.pending ≡ d.fc.pending)
        × Goes n d.fc d'.fc
  unfolding deliver_one
  deliver_one-runs r rs d inv w =
      elim (Bool-cases (is_pos (fuse_copy_req_read io (d.fc.reqs r) d.iter).0)) [
        | inl good ↦
            let (t, it) = fuse_copy_req_read io (d.fc.reqs r) d.iter in
            (
              record d { copied = d.copied +ℤ t; iter = it },
              rw good,
              inv,
              λ s. omega (arith, w s, occurs-cons s r rs),
              refl,
              Goes-refl n d.fc inv,
            )
        | inr bad ↦
            let (t, it) = fuse_copy_req_read io (d.fc.reqs r) d.iter in
            let used = listed-Mapped n r d.fc inv (ground (arith, w r, occurs-cons r r rs)) in
            let (fc', e, gone) =
              end-Ended n cpu r (set_error d.fc r eio) here (set_error-Inv n r eio d.fc inv)
                (ground arith) in
            (
              record d { err = t; iter = it; fc = fc' },
              rw (bad, e),
              gone.inv,
              λ s. ground (
                arith,
                w s,
                ap (occurs s) gone.processing,
                occurs-cons s r rs,
                occurs-list_del s r d.fc.processing,
              ),
              gone.pending
                  ∙ list_del-absent r d.fc.pending
                      (ground (arith, inv.listed r, w r, occurs-cons r r rs)),
              Goes-trans
                  (set_req-Goes n r d.fc (record (d.fc.reqs r) { error = eio })
                    (set_error-Inv n r eio d.fc inv) refl refl)
                  (Ended-Goes n r (set_error d.fc r eio) fc' (set_error-Inv n r eio d.fc inv)
                    (ground arith) gone),
            )
      ]

  -- Whatever is copied and whatever is not, each request of the batch is copied or ended, and the
  -- pending requests stay.
  pub deliver-runs :
      (rs : List ℕ) (d : Delivery io)
      → ConnInv n d.fc
      → Within rs d.fc
      → (d' : Delivery io) × (deliver io detect cpu rs d ≡ some d')
        × ConnInv n d'.fc
        × (d'.fc.pending ≡ d.fc.pending)
        × Goes n d.fc d'.fc
  unfolding deliver
  deliver-runs [] d inv w = (d, refl, inv, refl, Goes-refl n d.fc inv)
  deliver-runs (r ∷ rs) d inv w =
      let d₀ = record d { fc = converted detect d.fc r } in
      let inv₀ = converted-Inv n r detect d.fc inv in
      let (d₁, e₁, inv₁, w₁, p₁, g₁) = deliver_one-runs r rs d₀ inv₀ w in
      let (d', e', inv', p', g') = deliver-runs rs d₁ inv₁ w₁ in
      let same = convert-fields detect (d.fc.reqs r) in
      let g₀ = set_req-Goes n r d.fc (convert_if detect (d.fc.reqs r)) inv₀ same.0 same.3 in
      (d', rw e₁ e', inv', p' ∙ p₁, Goes-trans g₀ (Goes-trans g₁ g'))

-- The header of a request says how long it is, with its one argument.
abbrev pub Sized : (ℕ → FuseReq) → List ℕ → Type 0
Sized reqs [] = Unit {0}
Sized reqs (r ∷ rs) = ((reqs r).len ≡ in_header_size + (reqs r).arg_size 0) × Sized reqs rs

Sized-converted :
    (detect : Bool) (fc : FuseConn) (r : ℕ) (rs : List ℕ)
    → Sized fc.reqs rs
    → Sized (converted detect fc r).reqs rs
Sized-converted detect fc r [] z = tt
Sized-converted detect fc r (s ∷ rs) z = (
  ground (
    arith,
    convert-fields detect (fc.reqs r),
    ap (λ f. f 0) (convert-fields detect (fc.reqs r)).2,
  ),
  Sized-converted detect fc r rs z.1,
)

lens-converted :
    (detect : Bool) (fc : FuseConn) (r : ℕ) (rs : List ℕ)
    → lens (converted detect fc r).reqs rs ≡ lens fc.reqs rs
unfolding lens
lens-converted detect fc r [] = refl
lens-converted detect fc r (s ∷ rs) = ground (
  arith,
  lens-cons fc.reqs s rs,
  lens-cons (converted detect fc r).reqs s rs,
  lens-converted detect fc r rs,
  convert-fields detect (fc.reqs r),
)

pub pos-add : (c : ℤ) (a b : ℕ) → c +ℤ pos a +ℤ pos b ≡ c +ℤ pos (a + b)
pos-add c a b = ground arith

copied-all :
    (c c₁ c' : ℤ) (a b t : ℕ) → c₁ ≡ c +ℤ pos a → c' ≡ c₁ +ℤ pos b → a + b ≡ t → c' ≡ c +ℤ pos t
copied-all c c₁ c' a b t p q e = q ∙ ap (λ x. x +ℤ pos b) p ∙ pos-add c a b ∙ ap (λ x. c +ℤ pos x) e

module _ (io : IovIter) (mapped_io : IsMapped io) (cpu : ℕ) (detect : Bool) where
  open io use {Iter, count, chunks, copy_to_iter, copied-le, count-copy}

  -- Both copies of a request that fits.
  copy-fits :
      (req : FuseReq) (it : Iter)
      → in_header_size + req.arg_size 0 ≤ count it
      → ((fuse_copy_req_read io req it).0 ≡ pos (in_header_size + req.arg_size 0))
        × (count (fuse_copy_req_read io req it).1 + (in_header_size + req.arg_size 0) ≡ count it)
        × (chunks (fuse_copy_req_read io req it).1 ≡ argument req.rdwr_in ∷ header req ∷ chunks it)
  unfolding fuse_copy_req_read
  copy-fits req it h =
      let (first, got) = mapped_io (header req) in_header_size it (omega arith) in
      let left = count-copy (header req) in_header_size it in
      let it₁ = (copy_to_iter (header req) in_header_size it).1 in
      let (second, got₁) = mapped_io (argument req.rdwr_in) (req.arg_size 0) it₁ (omega arith) in
      let left₁ = count-copy (argument req.rdwr_in) (req.arg_size 0) it₁ in
      let yes_first : ((copy_to_iter (header req) in_header_size it).0 == in_header_size) ≡ true =
        ground arith in
      let yes_second : ((copy_to_iter (argument req.rdwr_in) (req.arg_size 0) it₁).0
            == req.arg_size 0)
          ≡ true =
        ground arith in
      simp (yes_first, yes_second)
        (
          refl,
          omega (arith, first, second, left, left₁),
          got₁ ∙ ap (λ l. argument req.rdwr_in ∷ l) got,
        )

  -- The first request of a batch that fits.
  deliver_one-copies :
      (r : ℕ) (rs : List ℕ) (d : Delivery io)
      → Sized d.fc.reqs (r ∷ rs)
      → lens d.fc.reqs (r ∷ rs) ≤ count d.iter
      → (d' : Delivery io) × (deliver_one io cpu r d ≡ some d')
        × (d'.copied ≡ d.copied +ℤ pos (d.fc.reqs r).len)
        × (d'.fc ≡ d.fc)
        × (count d'.iter + (d.fc.reqs r).len ≡ count d.iter)
        × (chunks d'.iter ≡ argument (d.fc.reqs r).rdwr_in ∷ header (d.fc.reqs r) ∷ chunks d.iter)
  unfolding deliver_one
  deliver_one-copies r rs d z fits =
      let (got, left, copy) =
        copy-fits (d.fc.reqs r) d.iter (ground (arith, lens-cons d.fc.reqs r rs)) in
      let (t, it) = fuse_copy_req_read io (d.fc.reqs r) d.iter in
      (
        record d { copied = d.copied +ℤ t; iter = it },
        ground arith,
        ap (λ x. d.copied +ℤ x) (got ∙ ap pos (sym z.0)),
        refl,
        omega (arith, left, z.0),
        copy,
      )

  -- A batch that fits a mapped buffer is copied as a whole, in order, whatever was copied before.
  pub deliver-copies :
      (rs : List ℕ) (d : Delivery io)
      → Sized d.fc.reqs rs
      → lens d.fc.reqs rs ≤ count d.iter
      → (d' : Delivery io) × (deliver io detect cpu rs d ≡ some d')
        × (d'.copied ≡ d.copied +ℤ pos (lens d.fc.reqs rs))
        × (d'.fc.processing ≡ d.fc.processing)
        × (count d'.iter + lens d.fc.reqs rs ≡ count d.iter)
        × Copied d.fc.reqs rs (chunks d.iter) (chunks d'.iter)
  unfolding deliver lens
  deliver-copies [] d z fits = (d, refl, ground arith, refl, omega arith, Copied.nothing_more)
  deliver-copies (r ∷ rs) d z fits =
      let fc₀ = converted detect d.fc r in
      let z₀ = Sized-converted detect d.fc r (r ∷ rs) z in
      let same = lens-converted detect d.fc r (r ∷ rs) in
      let (d₁, e₁, c₁, f₁, l₁, k₁) =
        deliver_one-copies r rs (record d { fc = fc₀ }) z₀ (omega (arith, same)) in
      let (d', e', c', p', l', k') =
        deliver-copies rs d₁ (subst (λ c. Sized c.reqs rs) (sym f₁) z₀.1)
          (subst (λ c. lens c.reqs rs ≤ count d₁.iter) (sym f₁) (omega (arith, same, l₁))) in
      (
        d',
        rw e₁ e',
        copied-all d.copied d₁.copied d'.copied (fc₀.reqs r).len (lens fc₀.reqs rs) _ c₁
            (c' ∙ ap (λ c. d₁.copied +ℤ pos (lens c.reqs rs)) f₁) same,
        p' ∙ ap (λ c. c.processing) f₁,
        omega (arith, l', l₁, same, ap (λ c. lens c.reqs rs) f₁),
        Copied.and_then (fc₀.reqs r) (Shown-converted detect d.fc r r) (
            Copied-converted detect d.fc r (
              subst (λ l. Copied fc₀.reqs rs l (chunks d'.iter)) k₁
                (subst (λ c. Copied c.reqs rs (chunks d₁.iter) (chunks d'.iter)) f₁ k'))),
      )
