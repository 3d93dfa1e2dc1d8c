-- ===== src/Control/Laws.antt =====
-- pxdctx_set_connected, for the devices of a context (pxd.c).
use pxmod.Common.{
  ℕ, ap, sym, subst, ◌∙◌, ◌≤◌, ◌<◌, ◌≡◌, ◌≢◌, ◌⊎◌, inl, inr, refl, arith, Bool, true, false, Option,
  none, some, List, [], ◌∷◌, occurs, occurs-cons, occurs-nil, update, one_if, ◌>>=◌, Bool-cases,
}
use native.Mathlib.Decide.{ℕ_discrete as dec_eq}
use pxmod.Common.Int.{ℤ}
use pxmod.Conn.State.{FuseConn}
use pxmod.Conn.Requests.{request_find}
use pxmod.Device.State.{Device, set_dev}
use pxmod.Device.Queue.{DevConn}
use pxmod.Fastpath.Suspend.Laws.{Suspended, Suspended-same}
use pxmod.Fastpath.Paths.Laws.{On, Off}
use pxmod.Fastpath.Switch.{pxd_fastpath_reset_device}
use pxmod.Fastpath.Switch.Reset.{AtRest, reset-AtRest, reset_missing, reset-missing}
use pxmod.Fastpath.Ops.{reset-Same}
use pxmod.Control.{Control, device_of, put_device, pxd_setup, for_each, pxdctx_set_connected}

-- A device whose files, suspends and switch are in order, with no marker in flight on `fc`.
pub record Sane (fc : FuseConn) (d : Device) : Type 0 where
  pub path : (On d) ⊎ (Off d)
  pub times_suspended : ℕ
  pub suspended : Suspended times_suspended d
  pub mine : one_if d.fp.app_suspend ≤ times_suspended
  pub no_marker : request_find fc d.fp.switch_uid ≡ none

-- No process serves the device; if it has a fast path, that is at rest.
pub record IsDown (d : Device) : Type 0 where
  pub disconnected : d.connected ≡ false
  pub rest : d.fastpath ≡ true → AtRest d

-- The devices `ps` are as `P` says, and the rest of the context is as it was.
pub record Set (P : Device → Type 0) (ps : List ℕ) (c c' : Control) : Type 0 where
  pub done : (p : ℕ) → 0 < occurs p ps → P (c'.ctx.devs p)
  pub same : (p : ℕ) → occurs p ps ≡ 0 → c'.ctx.devs p ≡ c.ctx.devs p
  pub frame : c' ≡ record c { ctx = record (c.ctx) { devs = c'.ctx.devs } }

pub update_self : (devs : ℕ → Device) (p : ℕ) (d : Device) → update devs p d p ≡ d
update_self devs p d = ground arith

pub update_other : (devs : ℕ → Device) (p q : ℕ) (d : Device) → p ≢ q → update devs p d q ≡ devs q
update_other devs p q d h = ground arith

Set-cons :
    (P : Device → Type 0) (p : ℕ) (ps : List ℕ) (d : Device) (c c' : Control)
    → occurs p ps ≡ 0
    → P d
    → Set P ps (record c { ctx = set_dev c.ctx p d }) c'
    → Set P (p ∷ ps) c c'
Set-cons P p ps d c c' once good set = record {
  done = λ q h. elim (dec_eq p q) [
    | yes e ↦
        subst (λ x. P (c'.ctx.devs x)) e
          (subst P (sym (set.same p once ∙ update_self c.ctx.devs p d)) good)
    | no e ↦ set.done q (ground (arith, occurs-cons q p ps))
  ];
  same = λ q h.
      set.same q (ground (arith, occurs-cons q p ps))
      ∙ update_other c.ctx.devs p q d (ground (arith, occurs-cons q p ps));
  frame = set.frame;
}

-- A loop over different devices, each of which is set on its own.
pub for_each-Set :
    (P : Device → Type 0) (f : ℕ → Control → Option Control) (Q : FuseConn → Device → Type 0)
    → ((p : ℕ) (c : Control)
        → Q c.fc (c.ctx.devs p)
        → (d : Device) × (f p c ≡ some (record c { ctx = set_dev c.ctx p d })) × P d)
    → (ps : List ℕ) (c : Control) → ((p : ℕ) → occurs p ps ≤ 1)
    → ((p : ℕ) → 0 < occurs p ps → Q c.fc (c.ctx.devs p))
    → (c' : Control) × (for_each f ps c ≡ some c') × Set P ps c c'
unfolding for_each
for_each-Set P f Q one [] c once ok = (
  c,
  refl,
  record { done = λ p h. absurd (omega (arith, occurs-nil p)); same = λ p h. refl; frame = refl },
)
for_each-Set P f Q one (p ∷ ps) c once ok =
    let (d, e, good) = one p c (ok p (ground (arith, occurs-cons p p ps))) in
    let absent : occurs p ps ≡ 0 = ground (arith, once p, occurs-cons p p ps) in
    let ok' : (q : ℕ) → 0 < occurs q ps → Q c.fc (update c.ctx.devs p d q) = λ q h.
      subst (Q c.fc) (sym (update_other c.ctx.devs p q d (λ e. absurd (ground arith))))
        (ok q (ground (arith, occurs-cons q p ps))) in
    let (c', rest, set) =
      for_each-Set P f Q one ps (record c { ctx = set_dev c.ctx p d })
        (λ q. omega (arith, once q, occurs-cons q p ps)) ok' in
    (c', rw e rest, Set-cons P p ps d c c' absent good set)

some-eq : {A : Type 0} {a b : A} → some a ≡ some b → a ≡ b
some-eq e = cc

path-same :
    (d : Device) (on : Bool)
    → (On d) ⊎ (Off d)
    → (On (record d { connected = on })) ⊎ (Off (record d { connected = on }))
path-same d on (inl p) = inl (record {
  enabled = p.enabled;
  active = p.active;
  some_file = p.some_file;
  fits = p.fits;
  opened = p.opened;
})
path-same d on (inr p) =
    inr (record { inactive = p.inactive; open_files = p.open_files; file = p.file })

-- Whether the device is connected does not matter to its fast path.
pub connected-Sane :
    (fc : FuseConn) (d : Device) (on : Bool) → Sane fc d → Sane fc (record d { connected = on })
connected-Sane fc d on ok = record {
  path = path-same d on ok.path;
  times_suspended = ok.times_suspended;
  suspended =
      Suspended-same ok.times_suspended d (record d { connected = on }) ok.suspended refl refl refl
        refl;
  mine = ok.mine;
  no_marker = ok.no_marker;
}

module _ (cpu : ℕ) (callback : ℕ → ℤ → DevConn → Option DevConn) where
  -- A reset of a device with nothing in flight leaves the connection alone.
  reset-IsDown :
      (w : DevConn)
      → Sane w.fc w.dev
      → w.dev.connected ≡ false
      → (d : Device) × (pxd_fastpath_reset_device cpu callback w ≡ some (record w { dev = d }))
        × IsDown d
  unfolding pxd_fastpath_reset_device
  reset-IsDown w ok down = elim (Bool-cases w.dev.fastpath) [
    | inl enabled ↦
        let (d, e, rest) =
          reset-AtRest cpu callback ok.times_suspended w enabled ok.path ok.suspended ok.mine
            ok.no_marker in
        let same : d ≡ reset_missing w.dev =
          ap (λ w. w.dev)
            (some-eq (
              sym e
              ∙ reset-missing cpu callback ok.times_suspended w enabled ok.path ok.suspended ok.mine
                  ok.no_marker)) in
        (
          d,
          e,
          record {
            disconnected = ap (λ x. x.connected) same ∙ (reset-Same w.dev).connected ∙ down;
            rest = λ h. rest;
          },
        )
    | inr native ↦ (w.dev, simp native, record { disconnected = down; rest = λ e. cc })
  ]

  setup-IsDown :
      (p : ℕ) (c : Control)
      → Sane c.fc (c.ctx.devs p)
      → (d : Device) × (pxd_setup cpu callback false p c
          ≡ some (record c { ctx = set_dev c.ctx p d }))
        × IsDown d
  unfolding pxd_setup
  setup-IsDown p c ok =
      let w = record (device_of c p) { dev = record (c.ctx.devs p) { connected = false } } in
      let (d, e, down) = reset-IsDown w (connected-Sane c.fc (c.ctx.devs p) false ok) refl in
      (d, ap (λ o. o >>= λ w. some (put_device c p w)) e, down)

  setup_connected :
      (p : ℕ) (c : Control)
      → (d : Device) × (pxd_setup cpu callback true p c
          ≡ some (record c { ctx = set_dev c.ctx p d }))
        × (d.connected ≡ true)
  unfolding pxd_setup
  setup_connected p c = (record (c.ctx.devs p) { connected = true }, refl, refl)

  pub all-IsDown :
      (c : Control)
      → ((p : ℕ) → occurs p c.ctx.list ≤ 1)
      → ((p : ℕ) → 0 < occurs p c.ctx.list → Sane c.fc (c.ctx.devs p))
      → (c' : Control) × (pxdctx_set_connected cpu callback false c ≡ some c')
        × Set IsDown c.ctx.list c c'
  unfolding pxdctx_set_connected
  all-IsDown c once ok =
      for_each-Set IsDown (pxd_setup cpu callback false) Sane setup-IsDown c.ctx.list c once ok

  pub all_connected :
      (c : Control)
      → ((p : ℕ) → occurs p c.ctx.list ≤ 1)
      → (c' : Control) × (pxdctx_set_connected cpu callback true c ≡ some c')
        × Set (λ d. d.connected ≡ true) c.ctx.list c c'
  unfolding pxdctx_set_connected
  all_connected c once =
      for_each-Set (λ d. d.connected ≡ true) (pxd_setup cpu callback true) (λ fc d. true ≡ true)
        (λ p c h. setup_connected p c) c.ctx.list c once (λ p h. refl)
