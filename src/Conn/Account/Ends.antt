-- ===== src/Conn/Account/Ends.antt =====
-- The loop of end_requests (dev.c), and the callbacks.
use pxmod.Common.{
  ℕ, zero, suc, ap, sym, subst, ◌∙◌, ◌+◌, ◌<◌, ◌≡◌, refl, arith, some, List, [], ◌∷◌, length,
  occurs, occurs-cons, ◌>>=◌, >>=-eq-some,
}
use mathlib.Core.Option.{some-injective}
use pxmod.Common.Int.{ℤ, econnaborted}
use pxmod.Conn.State.{FuseConn}
use pxmod.Conn.Requests.{request_end, set_error}
use pxmod.Conn.Requests.Invariant.{ConnInv, Mapped, end-Ended}
use pxmod.Conn.Requests.Laws.{listed-Mapped, set_error-Inv}
use pxmod.Conn.Lifecycle.{
  Queue, on_pending, on_processing, queue, end_requests, fuse_end_queued_requests,
}
use pxmod.Conn.Account.{Goes, Goes-refl, Goes-trans, set_req-Goes, Ended-Goes}

module _ (n cpu : ℕ) (here : cpu < n) where
  -- A request in flight ends with an error of the driver's.
  pub end_with-Goes :
      (r : ℕ) (e : ℤ) (fc fc' : FuseConn)
      → ConnInv n fc
      → Mapped fc r
      → request_end cpu (set_error fc r e) r ≡ some fc'
      → Goes n fc fc'
  end_with-Goes r e fc fc' inv m run =
      let inv₁ = set_error-Inv n r e fc inv in
      let m₁ : Mapped (set_error fc r e) r = ground arith in
      let (fc₂, run₂, d) = end-Ended n cpu r (set_error fc r e) here inv₁ m₁ in
      let same : fc₂ ≡ fc' = some-injective fc₂ fc' (sym run₂ ∙ run) in
      subst (Goes n fc) same (
        Goes-trans (set_req-Goes n r fc (record (fc.reqs r) { error = e }) inv₁ refl refl)
          (Ended-Goes n r (set_error fc r e) fc₂ inv₁ m₁ d))

  head-occurs :
      (q : Queue) (r : ℕ) (rs : List ℕ) (fc : FuseConn)
      → queue q fc ≡ r ∷ rs
      → 0 < occurs r fc.pending + occurs r fc.processing
  head-occurs on_pending r rs fc e = ground (arith, ap (occurs r) e, occurs-cons r r rs)
  head-occurs on_processing r rs fc e = ground (arith, ap (occurs r) e, occurs-cons r r rs)

  -- The round for a list that is known.
  unroll :
      (fuel : ℕ) (q : Queue) (r : ℕ) (rs : List ℕ) (fc : FuseConn)
      → queue q fc ≡ r ∷ rs
      → end_requests (suc fuel) q cpu fc
        ≡ (request_end cpu (set_error fc r econnaborted) r >>= end_requests fuel q cpu)
  unfolding end_requests
  unroll fuel q r rs fc e = rw (e, end_requests) refl

  stop :
      (fuel : ℕ) (q : Queue) (fc : FuseConn)
      → queue q fc ≡ []
      → end_requests (suc fuel) q cpu fc ≡ some fc
  unfolding end_requests
  stop fuel q fc e = rw (e, end_requests) refl

  pub end_requests-Goes :
      (fuel : ℕ) (q : Queue) (l : List ℕ) (fc fc' : FuseConn)
      → queue q fc ≡ l
      → ConnInv n fc
      → end_requests fuel q cpu fc ≡ some fc'
      → Goes n fc fc'
  unfolding end_requests
  end_requests-Goes zero q l fc fc' e inv run = cc
  end_requests-Goes (suc fuel) q [] fc fc' e inv run =
      let same : fc ≡ fc' = some-injective fc fc' (sym (stop fuel q fc e) ∙ run) in
      subst (Goes n fc) same (Goes-refl n fc inv)
  end_requests-Goes (suc fuel) q (r ∷ rs) fc fc' e inv run =
      let (fc₁, run₁, rest) =
        >>=-eq-some (request_end cpu (set_error fc r econnaborted) r) (end_requests fuel q cpu)
          (sym (unroll fuel q r rs fc e) ∙ run) in
      let g =
        end_with-Goes r econnaborted fc fc₁ inv (listed-Mapped n r fc inv (head-occurs q r rs fc e))
          run₁ in
      Goes-trans g (end_requests-Goes fuel q (queue q fc₁) fc₁ fc' refl g.inv rest)

  pub end_queued-Goes :
      (fc fc' : FuseConn)
      → ConnInv n fc
      → fuse_end_queued_requests cpu fc ≡ some fc'
      → Goes n fc fc'
  unfolding fuse_end_queued_requests
  end_queued-Goes fc fc' inv run =
      let (fc₁, run₁, rest) =
        >>=-eq-some (end_requests (length fc.pending + 1) on_pending cpu fc)
          (λ fc. end_requests (length fc.processing + 1) on_processing cpu fc) run in
      let g =
        end_requests-Goes (length fc.pending + 1) on_pending fc.pending fc fc₁ refl inv run₁ in
      Goes-trans g (
        end_requests-Goes (length fc₁.processing + 1) on_processing fc₁.processing fc₁ fc' refl
          g.inv rest)
