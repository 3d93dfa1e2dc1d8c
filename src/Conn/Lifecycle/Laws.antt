-- ===== src/Conn/Lifecycle/Laws.antt =====
-- fuse_conn_init, fuse_end_queued_requests, fuse_abort_conn and fuse_restart_requests (dev.c).
use native.Mathlib.Decide.{dec_lt}
use pxmod.Common.{
  ℕ, zero, suc, sym, subst, inl, inr, ◌⊎◌, ◌&&◌, Option-cases, Bool-cases, ap, ◌∙◌, ◌+◌, ◌-◌, ◌≤◌,
  ◌<◌, ◌≡◌, ◌≢◌, refl, arith, false, none, some, List, [], ◌∷◌, ◌++◌, ltb, one_if, occurs,
  occurs-append, occurs-nil, length, total-eq-zero,
}
use pxmod.Common.Int.{pos, enomem}
use pxmod.Conn.State.{FuseConn, FuseReq, Event, woken, slot, fuse_max_request_ids}
use pxmod.Conn.Ids.Alloc.{fill_free_ids}
use pxmod.Conn.Ids.Count.{occ, occ-suc, occ-zero}
use pxmod.Conn.Ids.Invariant.{on_cpu, free_on, in_flight}
use pxmod.Conn.Requests.{request_find, emit}
use pxmod.Conn.Requests.Invariant.{ConnInv, IdsInv-cong}
use pxmod.Conn.Lifecycle.{
  on_pending, on_processing, fuse_end_queued_requests, fuse_abort_conn, fuse_restart_requests,
  new_conn, fuse_conn_init, Allocs,
}
use pxmod.Conn.Lifecycle.Abort.{aborted, aborted-cong, Drained, drain, aborting-unique, find-empty}

-- The state after the abort of all requests of `fc`.
pub record Aborted (n : ℕ) (fc fc' : FuseConn) : Type 0 where
  pub inv : ConnInv n fc'
  pub no_pending : fc'.pending ≡ []
  pub no_processing : fc'.processing ≡ []
  pub trace : fc'.trace ≡ aborted fc.reqs (fc.pending ++ fc.processing) fc.trace
  pub gone :
      (s : ℕ)
      → 0 < occurs s fc.pending + occurs s fc.processing
      → request_find fc' (fc.reqs s).unique ≡ none
  pub lost : (u : ℕ) → request_find fc u ≡ none → request_find fc' u ≡ none
  pub connected : fc'.connected ≡ fc.connected
  pub allow_disconnected : fc'.allow_disconnected ≡ fc.allow_disconnected

aborted-append :
    (reqs : ℕ → FuseReq) (rs ss : List ℕ) (trace : List Event)
    → aborted reqs (rs ++ ss) trace ≡ aborted reqs ss (aborted reqs rs trace)
unfolding aborted
aborted-append reqs [] ss trace = refl
aborted-append reqs (r ∷ rs) ss trace = aborted-append reqs rs ss _

-- What is not found stays so while slots are only emptied.
find-later :
    (fc fc' : FuseConn) (u : ℕ)
    → ((i : ℕ) → fc'.request_map i ≢ none → fc'.request_map i ≡ fc.request_map i)
    → ((s : ℕ) → (fc'.reqs s).unique ≡ (fc.reqs s).unique)
    → request_find fc u ≡ none
    → request_find fc' u ≡ none
unfolding request_find
find-later fc fc' u stays ids h = elim (Option-cases (fc'.request_map (slot u))) [
  | inl e ↦ ground arith
  | inr (r, e) ↦ ground (arith, stays (slot u), ids r)
]

Drained-Aborted :
    (n : ℕ) (fc fc₁ fc₂ : FuseConn)
    → Drained n on_pending fc.pending fc fc₁
    → Drained n on_processing fc₁.processing fc₁ fc₂
    → Aborted n fc fc₂
Drained-Aborted n fc fc₁ fc₂ d₁ d₂ = record {
  inv = d₂.inv;
  no_pending = d₂.untouched ∙ d₁.drained;
  no_processing = d₂.drained;
  trace =
      d₂.trace
      ∙ ap (λ l. aborted fc₁.reqs l fc₁.trace) d₁.untouched
      ∙ aborted-cong fc₁.reqs fc.reqs fc.processing fc₁.trace d₁.reqs
      ∙ ap (aborted fc.reqs fc.processing) d₁.trace
      ∙ sym (aborted-append fc.reqs fc.pending fc.processing fc.trace);
  gone = gone;
  lost = λ u h.
      later u (
        find-later fc fc₁ u d₁.stays (λ s. aborting-unique (fc₁.reqs s) (fc.reqs s) (d₁.reqs s)) h);
  connected = d₂.connected ∙ d₁.connected;
  allow_disconnected = d₂.allow_disconnected ∙ d₁.allow_disconnected;
}
  where
    later : (u : ℕ) → request_find fc₁ u ≡ none → request_find fc₂ u ≡ none
    later u h =
        find-later fc₁ fc₂ u d₂.stays (λ s. aborting-unique (fc₂.reqs s) (fc₁.reqs s) (d₂.reqs s)) h

    gone :
        (s : ℕ)
        → 0 < occurs s fc.pending + occurs s fc.processing
        → request_find fc₂ (fc.reqs s).unique ≡ none
    gone s p = elim (dec_lt 0 (occurs s fc.pending)) [
      | yes first ↦ later (fc.reqs s).unique (d₁.gone s first)
      | no second ↦
          subst (λ u. request_find fc₂ u ≡ none)
            (aborting-unique (fc₁.reqs s) (fc.reqs s) (d₁.reqs s))
            (d₂.gone s (ground (arith, ap (occurs s) d₁.untouched)))
    ]

-- Both loops end, whatever the lists hold: every pending request and then every request that is
-- being processed ends once with -ECONNABORTED, both lists are empty, and a late reply finds none
-- of them.
pub end_queued-Aborted :
    (n cpu : ℕ) (fc : FuseConn)
    → cpu < n
    → ConnInv n fc
    → (fc' : FuseConn) × (fuse_end_queued_requests cpu fc ≡ some fc') × Aborted n fc fc'
unfolding fuse_end_queued_requests
end_queued-Aborted n cpu fc here inv =
    let (fc₁, e₁, d₁) =
      drain n cpu on_pending fc.pending (length fc.pending + 1) fc here (omega arith) inv refl in
    let (fc₂, e₂, d₂) =
      drain n cpu on_processing fc₁.processing (length fc₁.processing + 1) fc₁ here (omega arith)
        d₁.inv refl in
    (fc₂, rw e₁ e₂, Drained-Aborted n fc fc₁ fc₂ d₁ d₂)

fill-entry :
    (n : ℕ) (f : ℕ → ℕ) (j : ℕ) → j < n → fill_free_ids n f j ≡ fuse_max_request_ids - j - 1
unfolding fill_free_ids
fill-entry zero f j h = absurd (omega arith)
fill-entry (suc n) f j h = ground (arith, fill-entry n f j)

occ-fill :
    (i : ℕ) (g : ℕ → ℕ) (n : ℕ)
    → i < fuse_max_request_ids
    → n ≤ fuse_max_request_ids
    → ((j : ℕ) → j < n → g j ≡ fuse_max_request_ids - j - 1)
    → occ i g n ≡ one_if (ltb (fuse_max_request_ids - i - 1) n)
occ-fill i g zero p q h = rw (occ-zero i g) (ground arith)
occ-fill i g (suc n) p q h = ground (
  arith,
  occ-suc i g n,
  h n (omega arith),
  occ-fill i g n p (omega arith) (λ j r. h j (omega arith)),
)

pub new_conn-Inv : (n : ℕ) (memory : ℕ → FuseReq) → ConnInv n (new_conn memory)
unfolding new_conn
new_conn-Inv n memory = record {
  ids = record {
    owned = λ i p. ground (
      arith,
      occ-fill i (fill_free_ids fuse_max_request_ids (λ i. 0)) fuse_max_request_ids p (omega arith)
          (fill-entry fuse_max_request_ids (λ i. 0)),
      total-eq-zero (on_cpu (new_conn memory).per_cpu_ids i) n (λ c. occ-zero i (λ i. 0)),
    );
    bounded = λ c. omega arith;
    conserved = omega (
      arith,
      total-eq-zero (free_on (new_conn memory).per_cpu_ids) n (λ c. refl),
      total-eq-zero (in_flight (new_conn memory).request_map) fuse_max_request_ids (λ c. refl),
    );
  };
  own_slot = λ i r p. cc;
  listed = λ r. omega (arith, occurs-nil r);
}

-- A connection whose three allocations succeed starts out well-formed, for any number of CPUs,
-- disconnected, with no request; if one fails, it is -ENOMEM.
pub init-Inv :
    (n : ℕ) (memory : ℕ → FuseReq) (alloc : Allocs)
    → (fuse_conn_init alloc memory ≡ (enomem, none))
      ⊎ ((fc : FuseConn) × (fuse_conn_init alloc memory ≡ (pos 0, some fc))
          × ConnInv n fc
          × (fc.pending ≡ [])
          × (fc.processing ≡ [])
          × (fc.connected ≡ false)
          × ((unique : ℕ) → request_find fc unique ≡ none))
unfolding fuse_conn_init new_conn
init-Inv n memory alloc =
    elim (Bool-cases (alloc.request_map && alloc.free_ids && alloc.per_cpu_ids)) [
      | inl all ↦ inr (
        new_conn memory,
        rw all,
        new_conn-Inv n memory,
        refl,
        refl,
        refl,
        λ u. find-empty (new_conn memory) u refl,
      )
      | inr some_failed ↦ inl (rw some_failed)
    ]

-- An abort of a connected connection ends all of its requests, as Aborted says; the
-- connection is closed. An abort of a closed one changes nothing.
pub abort-Aborted :
    (n cpu : ℕ) (fc : FuseConn)
    → cpu < n
    → ConnInv n fc
    → ((fc.connected ≡ false) × (fuse_abort_conn cpu fc ≡ some fc))
      ⊎ ((fc' : FuseConn) × (fuse_abort_conn cpu fc ≡ some (emit fc' woken))
          × (fc'.connected ≡ false)
          × Aborted n (record fc { connected = false }) fc')
unfolding fuse_abort_conn
abort-Aborted n cpu fc here inv = elim (Bool-cases fc.connected) [
  | inl on ↦
      let fc₀ = record fc { connected = false } in
      let inv₀ : ConnInv n fc₀ = record {
        ids = IdsInv-cong n fc fc₀ refl refl refl refl inv.ids;
        own_slot = inv.own_slot;
        listed = inv.listed;
      } in
      let (fc', e, a) = end_queued-Aborted n cpu fc₀ here inv₀ in
      inr (fc', rw (on, e), a.connected, a)
  | inr off ↦ inl (off, rw off)
]

-- After a restart what was being processed is pending again, oldest first and before what was
-- pending, and nothing is lost or sent twice.
pub restart-Inv :
    (n : ℕ) (fc : FuseConn)
    → ConnInv n fc
    → ConnInv n (fuse_restart_requests fc)
      × ((fuse_restart_requests fc).pending ≡ fc.processing ++ fc.pending)
      × ((fuse_restart_requests fc).processing ≡ [])
unfolding fuse_restart_requests
restart-Inv n fc inv = (
  record {
    ids = IdsInv-cong n fc (fuse_restart_requests fc) refl refl refl refl inv.ids;
    own_slot = inv.own_slot;
    listed =
        λ r. ground (arith, inv.listed r, occurs-append r fc.processing fc.pending, occurs-nil r);
  },
  refl,
  refl,
)
