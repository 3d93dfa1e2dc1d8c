-- ===== src/Boot.antt =====
-- pxd.c: the start of the module, pxd_init, with pxd_context_init, and what it undoes when a step
-- fails; its end, pxd_exit.
pub mod Laws
pub mod Undo
pub mod Exit
use pxmod.Common.{
  ℕ, zero, suc, ◌+◌, Bool, true, false, not, Option, none, some, List, [], ◌∷◌, ◌++◌, ◌==◌, leb,
  if◌then◌else◌, ◌>>=◌, list_del,
}
use pxmod.Common.Int.{ℤ, pos, negsuc, is_zero, enomem}
use pxmod.Conn.State.{FuseConn, FuseReq}
use pxmod.Conn.Lifecycle.{Allocs, fuse_conn_init}
use pxmod.Device.State.{Context}
use pxmod.Control.{Control, Module, set_connected, pxd_context_destroy}

-- What the module holds: the kernel's fuse_dev, its array of contexts, the contexts that are set up
-- and those whose control device is registered, the first control device, the number of the block
-- device, and sysfs with the fast path.
pub record Boot : Type 0 where
  pub fuse_dev : Bool
  pub array : Bool
  pub contexts : List Control
  pub registered : List ℕ
  pub miscdev : Bool
  pub blkdev : Option ℕ
  pub sysfs : Bool
  pub fastpath : Bool

abbrev pub nothing_held : Boot
nothing_held = record {
  fuse_dev = false;
  array = false;
  contexts = [];
  registered = [];
  miscdev = false;
  blkdev = none;
  sysfs = false;
  fastpath = false;
}

-- What the kernel answers to each step; `memory` is what kzalloc leaves of a connection.
pub record Answers : Type 0 where
  pub fuse_dev_init : ℤ
  pub kzalloc : Bool
  pub allocs : ℕ → Allocs
  pub zeroed : FuseConn
  pub empty : Context
  pub misc_register : ℕ → ℤ
  pub misc_register_first : ℤ
  pub register_blkdev : ℤ
  pub sysfs_init : ℤ
  pub fastpath_init : ℤ

abbrev pub new_context : FuseConn → Context → ℕ → ℕ → Control
new_context fc empty timeout i = record {
  id = i;
  open_seq = 0;
  fc = record fc { allow_disconnected = true };
  ctx = empty;
  ended_rqs = [];
  queued_work = [];
  abort_work = none;
  timeout_secs = timeout;
}

-- The result of fuse_conn_init, and the connection that is filled in.
abbrev pub made : ℤ × Option FuseConn → FuseConn → ℤ × FuseConn
made (err, none) fc = (err, fc)
made (err, some fc) old = (err, fc)

abbrev pub drop {ℓ} : {A : Type ℓ} → ℕ → List A → List A
drop zero xs = xs
drop (suc n) [] = []
drop (suc n) (x ∷ xs) = drop n xs

-- Only the number that was registered is taken back.
abbrev pub unregister_blkdev : ℕ → Option ℕ → Option ℕ
unregister_blkdev major none = none
unregister_blkdev major (some k) = if k == major then none else some k

-- A context that is not exported gets no connection.
unfoldable pub pxd_context_init : Module → Answers → ℕ → ℤ × Option Control
pxd_context_init m a i =
    let (err, fc) =
      if leb m.pxd_num_contexts_exported i
      then (pos 0, a.zeroed)
      else made (fuse_conn_init (a.allocs i) a.zeroed.reqs) a.zeroed in
    if is_zero err then (pos 0, some (new_context fc a.empty 600 i)) else (err, none)

abbrev pub init_step : ℤ × Option Control → ℕ → Boot → (Boot → ℤ × ℕ × Boot) → ℤ × ℕ × Boot
init_step (err, none) i b rest = (err, i, b)
init_step (err, some c) i b rest = rest (record b { contexts = b.contexts ++ c ∷ [] })

module _ (m : Module) (a : Answers) where
  -- misc_register of the context `i`, and then the others.
  abbrev pub register_misc : ℕ → (Boot → ℤ × ℕ × Boot) → Boot → ℤ × ℕ × Boot
  register_misc i rest b =
      if is_zero (a.misc_register i)
      then rest (record b { registered = b.registered ++ i ∷ [] })
      else (a.misc_register i, i, b)

  -- The contexts `i`, …, of which `n` are left. The loop stops at the first that fails, with its
  -- number; that context may be set up, though it is not registered.
  unfoldable pub init_contexts : ℕ → ℕ → Boot → ℤ × ℕ × Boot
  init_contexts zero i b = (pos 0, i, b)
  init_contexts (suc n) i b =
      init_step (pxd_context_init m a i) i b (register_misc i (init_contexts n (suc i)))

  -- The first `j` contexts are destroyed; `none` is a BUG_ON.
  unfoldable pub destroy_contexts : ℕ → ℕ → List Control → Option (List Control)
  destroy_contexts cpu zero cs = some cs
  destroy_contexts cpu (suc j) [] = some []
  destroy_contexts cpu (suc j) (c ∷ cs) =
      pxd_context_destroy cpu m c >>= λ c. destroy_contexts cpu j cs

  -- From the label out_fuse on, with the number of the loop.
  unfoldable pub out_fuse : ℕ → ℕ → ℤ → Boot → Option (ℤ × Boot)
  out_fuse cpu i err b = destroy_contexts cpu i b.contexts >>= λ left. some (
    err,
    record b { contexts = left; registered = drop i b.registered; array = false; fuse_dev = false },
  )

  -- From the label out_misc on.
  abbrev pub out_misc : ℕ → ℕ → ℤ → Boot → Option (ℤ × Boot)
  out_misc cpu i err b = out_fuse cpu i err (record b { miscdev = false })

  -- From the label out_blkdev on: unregister_blkdev is called with the number 0.
  abbrev pub out_blkdev : ℕ → ℕ → ℤ → Boot → Option (ℤ × Boot)
  out_blkdev cpu i err b = out_misc cpu i err (record b { blkdev = unregister_blkdev 0 b.blkdev })

  abbrev pub start_workers : ℕ → ℕ → Boot → Option (ℤ × Boot)
  start_workers cpu i b =
      if is_zero a.fastpath_init
      then some (pos 0, record b { fastpath = true })
      else out_blkdev cpu i a.fastpath_init b

  abbrev pub start_sysfs : ℕ → ℕ → Boot → Option (ℤ × Boot)
  start_sysfs cpu i b =
      if is_zero a.sysfs_init
      then start_workers cpu i (record b { sysfs = true })
      else out_blkdev cpu i a.sysfs_init b

  abbrev pub start_blkdev : ℤ → ℕ → ℕ → Boot → Option (ℤ × Boot)
  start_blkdev (negsuc e) cpu i b = out_misc cpu i (negsuc e) b
  start_blkdev (pos major) cpu i b = start_sysfs cpu i (record b { blkdev = some major })

  abbrev pub start_devices : ℕ → ℤ × ℕ × Boot → Option (ℤ × Boot)
  start_devices cpu (err, i, b) =
      if not (is_zero err)
      then out_fuse cpu i err b
      else if not (is_zero a.misc_register_first)
      then out_fuse cpu i a.misc_register_first b
      else start_blkdev a.register_blkdev cpu i (record b { miscdev = true })

  unfoldable pub pxd_init : ℕ → Option (ℤ × Boot)
  pxd_init cpu =
      let b = record nothing_held { fuse_dev = true } in
      if not (is_zero a.fuse_dev_init)
      then some (a.fuse_dev_init, nothing_held)
      else if not a.kzalloc
      then some (enomem, nothing_held)
      else start_devices cpu (init_contexts m.pxd_num_contexts 0 (record b { array = true }))

  -- The loop over the contexts `i`, …, of which `n` are left: each is marked as connected, so that
  -- fuse_abort_conn ends its requests, and its control device is deregistered. The contexts as they
  -- are when they are freed, and the control devices that are left.
  unfoldable pub exit_contexts : ℕ → ℕ → ℕ → List Control → List ℕ → Option (List Control × List ℕ)
  exit_contexts cpu zero i cs registered = some ([], registered)
  exit_contexts cpu (suc n) i [] registered = some ([], registered)
  exit_contexts cpu (suc n) i (c ∷ cs) registered =
      pxd_context_destroy cpu m (set_connected c true) >>= λ c.
      exit_contexts cpu n (suc i) cs (list_del i registered) >>= λ (rest, registered).
      some (c ∷ rest, registered)

  abbrev pub fastpath_cleanup : Boot → Boot
  fastpath_cleanup b = record b { fastpath = false }

  abbrev pub pxd_sysfs_exit : Boot → Boot
  pxd_sysfs_exit b = record b { sysfs = false }

  abbrev pub free_contexts : Boot → Boot
  free_contexts b = record b { array = false; contexts = [] }

  -- `major` is pxd_major. The contexts that were destroyed, and what the module still holds.
  unfoldable pub pxd_exit : ℕ → ℕ → Boot → Option (List Control × Boot)
  pxd_exit major cpu b =
      let b = pxd_sysfs_exit (fastpath_cleanup b) in
      let b = record b { blkdev = unregister_blkdev major b.blkdev } in
      let b = record b { miscdev = false } in
      exit_contexts cpu m.pxd_num_contexts 0 b.contexts b.registered >>= λ (freed, registered).
      let b = record b { registered = registered } in
      some (freed, free_contexts (record b { fuse_dev = false }))
