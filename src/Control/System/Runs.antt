-- ===== src/Control/System/Runs.antt =====
-- What each step of a run keeps.
use pxmod.Common.{
  ℕ, ap, sym, subst, ◌∙◌, ◌+◌, ◌*◌, ◌%◌, ◌^◌, ◌≡◌, ◌⊎◌, inl, inr, refl, arith, Bool, true, false,
  ◌||◌, none, some, List, [], ◌∷◌, occurs, occurs-append, occurs-cons, occurs-nil, Bool-cases,
  Option-cases, leb,
}
use pxmod.Conn.State.{FuseConn, FuseReq, slot}
use pxmod.Conn.Requests.{set_req}
use pxmod.Conn.Requests.Invariant.{ConnInv, Fresh, mapped, IdsInv-cong}
use pxmod.Conn.Requests.Ready.{set_req-Inv}
use pxmod.Conn.Lifecycle.{fuse_restart_requests}
use pxmod.Conn.Account.{told, owed, has_end, Whole, Goes}
use pxmod.Conn.Account.Send.{Sent}
use pxmod.Control.{Control, Module, cancel_abort, schedule_abort, pxd_control_release, set_timeout}
use pxmod.Control.Abort.{Closed}
use pxmod.Control.System.{with_fc}
use pxmod.Control.Open.{Opened, set_timeout_lem}

-- What holds in each state of a run: the requests in flight are each on one list, and work is
-- scheduled to abort them only while no process has the context open.
pub record Sound (n : ℕ) (c : Control) : Type 0 where
  pub inv : ConnInv n c.fc
  pub whole : Whole c.fc
  pub timer : (c.abort_work ≡ none) ⊎ (c.fc.connected ≡ false)

-- A process has the context open, or the work that aborts the requests is scheduled, or no request
-- is taken.
abbrev pub Watched : Control → Type 0
Watched c =
    (c.fc.connected ≡ true)
    ⊎ ((delay : ℕ) × (c.abort_work ≡ some delay))
    ⊎ ((c.fc.connected || c.fc.allow_disconnected) ≡ false)

-- A step that sends `sends`.
pub record Advance (n : ℕ) (sends : List ℕ) (c c' : Control) : Type 0 where
  pub sound : Sound n c'
  pub watched : Watched c → Watched c'
  pub accounted :
      (q : ℕ) → told q c'.fc.trace + owed c'.fc q ≡ told q c.fc.trace + owed c.fc q + occurs q sends

-- The two flags of a connection do not matter to its requests.
flags-Inv :
    (n : ℕ) (fc : FuseConn) (on allow : Bool)
    → ConnInv n fc
    → ConnInv n (record fc { connected = on; allow_disconnected = allow })
flags-Inv n fc on allow inv = record {
  ids =
      IdsInv-cong n fc (record fc { connected = on; allow_disconnected = allow }) refl refl refl
        refl inv.ids;
  own_slot = inv.own_slot;
  listed = inv.listed;
}

no_sends : (q a b : ℕ) → a ≡ b → a ≡ b + occurs q []
no_sends q a b e = omega (arith, e, occurs-nil q)

-- A step of the connection that sends nothing.
pub Goes-Advance :
    (n : ℕ) (c : Control) (fc : FuseConn)
    → Sound n c
    → Goes n c.fc fc
    → Advance n [] c (with_fc c fc)
Goes-Advance n c fc s g = record {
  sound = record {
    inv = g.inv;
    whole = g.whole s.whole;
    timer = elim s.timer [ inl e ↦ inl e | inr e ↦ inr (g.connected ∙ e) ];
  };
  watched = λ w. rw (g.connected, g.allow_disconnected) w;
  accounted = λ q. no_sends q _ _ (g.accounted q);
}

pub same-Advance : (n : ℕ) (c : Control) → Sound n c → Advance n [] c c
same-Advance n c s = record { sound = s; watched = λ w. w; accounted = λ q. no_sends q _ _ refl }

-- A context without a process whose work is scheduled.
closed-Advance :
    (n delay : ℕ) (c c' : Control)
    → Sound n c
    → c'.fc ≡ record (c.fc) { connected = false }
    → c'.abort_work ≡ some delay
    → Advance n [] c c'
closed-Advance n delay c c' s e f = record {
  sound = record {
    inv = subst (ConnInv n) (sym e) (flags-Inv n c.fc false c.fc.allow_disconnected s.inv);
    whole = λ r.
        ap (λ fc. occurs r fc.pending + occurs r fc.processing) e
        ∙ s.whole r
        ∙ sym (ap (λ fc. mapped fc r) e);
    timer = inr (ap (λ fc. fc.connected) e);
  };
  watched = λ w. inr (inl (delay, f));
  accounted = λ q. no_sends q _ _ (ap (λ fc. told q fc.trace + owed fc q) e);
}

pub open-Advance : (n : ℕ) (c c' : Control) → Sound n c → Opened n c c' → Advance n [] c c'
unfolding fuse_restart_requests told
open-Advance n c c' s d = record {
  sound = record {
    inv = d.inv;
    whole = λ r. ground (
      arith,
      s.whole r,
      ap (λ f. mapped f r) d.fc,
      ap (occurs r) d.pending,
      ap (occurs r) d.processing,
      occurs-append r c.fc.processing c.fc.pending,
      occurs-nil r,
    );
    timer = inl d.cancelled;
  };
  watched = λ w. inl d.connected;
  accounted = λ q. no_sends q _ _ (ap (λ f. told q f.trace + owed f q) d.fc);
}

pub fire-Advance :
    (n : ℕ) (c c' : Control) → Sound n c → Closed n (cancel_abort c) c' → Advance n [] c c'
fire-Advance n c c' s d = record {
  sound = record { inv = d.goes.inv; whole = d.goes.whole s.whole; timer = inl d.abort_work };
  watched = λ w. inr (inr d.refuses);
  accounted = λ q. no_sends q _ _ (d.goes.accounted q);
}

pub send-Advance :
    (n r : ℕ) (c : Control) (fc : FuseConn)
    → Sound n c
    → has_end (c.fc.reqs r) ≡ 1
    → Sent n r c.fc fc
    → Advance n (r ∷ []) c (with_fc c fc)
send-Advance n r c fc s callback d = record {
  sound = record {
    inv = d.inv;
    whole = d.whole s.whole;
    timer = elim s.timer [ inl e ↦ inl e | inr e ↦ inr (d.connected ∙ e) ];
  };
  watched = λ w. rw (d.connected, d.allow_disconnected) w;
  accounted = λ q. ground (arith, d.accounted q, callback, occurs-cons q r [], occurs-nil q);
}

pub prepare-Advance :
    (n r : ℕ) (req : FuseReq) (c : Control)
    → Sound n c
    → Fresh c.fc r
    → Advance n [] c (with_fc c (set_req c.fc r req))
prepare-Advance n r req c s fresh = record {
  sound = record {
    inv = set_req-Inv n r c.fc req s.inv fresh;
    whole =
        λ q. ground (arith, s.whole q, fresh (slot req.unique), fresh (slot (c.fc.reqs r).unique));
    timer = s.timer;
  };
  watched = λ w. w;
  accounted =
      λ q. ground (arith, occurs-nil q, fresh (slot req.unique), fresh (slot (c.fc.reqs r).unique));
}

-- The work is scheduled, if it was not before, on a context without a process.
pub release-Advance :
    (n : ℕ) (m : Module) (c : Control) → Sound n c → Advance n [] c (pxd_control_release m c)
unfolding pxd_control_release schedule_abort
release-Advance n m c s = elim (Bool-cases (leb m.pxd_num_contexts_exported c.id)) [
  | inl hidden ↦ simp hidden (same-Advance n c s)
  | inr exported ↦ elim (Option-cases c.abort_work) [
    | inl idle ↦
        closed-Advance n ((c.timeout_secs * m.hz) % 2 ^ 32) c (pxd_control_release m c) s
          (simp (exported, idle)) (simp (exported, idle))
    | inr (delay, e) ↦
        closed-Advance n delay c (pxd_control_release m c) s (simp (exported, e))
          (simp (exported, e))
  ]
]

pub timeout-Advance :
    (n : ℕ) (m : Module) (count secs : ℕ) (c : Control)
    → Sound n c
    → Advance n [] c (set_timeout m count (some secs) c).1
timeout-Advance n m count secs c s = elim (set_timeout_lem m count secs c) [
  | inl (bad, e) ↦ subst (Advance n [] c) (sym (ap (λ r. r.1) e)) (same-Advance n c s)
  | inr (inl (on, e)) ↦ subst (Advance n [] c) (sym (ap (λ r. r.1) e)) (record {
    sound = record { inv = s.inv; whole = s.whole; timer = s.timer };
    watched = λ w. w;
    accounted = λ q. no_sends q _ _ refl;
  })
  | inr (inr (off, e)) ↦ subst (Advance n [] c) (sym (ap (λ r. r.1) e)) (record {
    sound = record { inv = s.inv; whole = s.whole; timer = inr off };
    watched = λ w. inr (inl (_, refl));
    accounted = λ q. no_sends q _ _ refl;
  })
]
