-- ===== src/Boot/Exit.antt =====
-- pxd_exit (pxd.c).
use native.Mathlib.Decide.{ℕ_discrete as dec_eq}
use pxmod.Common.{ℕ, ◌≤◌, ◌≡◌, true, false, none, some, List, [], ◌∷◌, ltb, length, occurs}
use pxmod.Conn.State.{FuseConn, woken}
use pxmod.Conn.Requests.{emit}
use pxmod.Conn.Requests.Invariant.{ConnInv}
use pxmod.Conn.Lifecycle.{fuse_conn_put}
use pxmod.Conn.Lifecycle.Laws.{Aborted}
use pxmod.Control.{Control, Module}
use pxmod.Boot.{Boot}

-- A context when it is freed: the work that aborts is cancelled, and if it has a connection, all
-- requests on it have ended.
pub record Freed (m : Module) (n : ℕ) (c c' : Control) : Type 0 where
  pub cancelled : c'.abort_work ≡ none
  pub ended :
      ltb c.id m.pxd_num_contexts_exported ≡ true
      → (fc : FuseConn) × (c'.fc ≡ fuse_conn_put (emit fc woken))
        × Aborted n (record (c.fc) { connected = false }) fc

abbrev pub AllFreed : Module → ℕ → List Control → List Control → Type 0
AllFreed m n [] [] = true ≡ true
AllFreed m n [] (c ∷ cs) = true ≡ false
AllFreed m n (c ∷ cs) [] = true ≡ false
AllFreed m n (c ∷ cs) (d ∷ ds) = Freed m n c d × AllFreed m n cs ds

abbrev pub AllInv : ℕ → List Control → Type 0
AllInv n [] = true ≡ true
AllInv n (c ∷ cs) = ConnInv n c.fc × AllInv n cs

-- What pxd_init leaves when it has succeeded: each context is set up, the control devices that are
-- registered are theirs, each once, and the block device has the number `major`.
pub record Up (m : Module) (major : ℕ) (b : Boot) : Type 0 where
  pub contexts : length b.contexts ≡ m.pxd_num_contexts
  pub once : (i : ℕ) → occurs i b.registered ≤ 1
  pub within : (i : ℕ) → m.pxd_num_contexts ≤ i → occurs i b.registered ≡ 0
  pub blkdev : b.blkdev ≡ some major
