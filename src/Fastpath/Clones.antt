-- ===== src/Fastpath/Clones.antt =====
-- pxd_bio_blkmq.c: a request on the fast path: its clones, one for each backing file or one for a
-- read, and their completion. prep_root_bio and the allocation of a clone are results.
pub mod Laws
pub mod Io
use pxmod.Common.{
  ℕ, zero, suc, ◌+◌, ◌-◌, ◌==◌, Bool, true, false, not, ◌&&◌, Option, none, some, List, [], ◌∷◌,
  min, length, update, if◌then◌else◌, ◌>>=◌, bug_on,
}
use pxmod.Common.Int.{ℤ, pos, negsuc, is_zero, eio}
use pxmod.Device.State.{Device, Fastpath}
use pxmod.Device.Requests.{
  BlockOp, req_op_read, req_op_write, req_op_discard, req_op_write_zeroes, req_op_flush,
  req_op_other,
}
use pxmod.Fastpath.Suspend.{set_fp}

-- struct fp_root_context. A clone is known by the index of its file; `clones` has the last one first,
-- `status` is cc->status, and `magic` says whether the magic number is there.
pub record Root : Type 0 where
  pub magic : Bool
  pub clones : List ℕ
  pub status : ℕ → ℤ
  pub nactive : ℕ

-- BLK_STS_OK, BLK_STS_NOTSUPP and BLK_STS_RESOURCE.
pub data CloneStatus : Type 0 where
  clone_ok : CloneStatus
  clone_notsupp : CloneStatus
  clone_resource : CloneStatus

-- How a request was ended at the block layer: as it was refused, or with an error number.
pub data Ending : Type 0 where
  refused_as : CloneStatus → Ending
  ended_as : ℤ → Ending

-- A request on the fast path: how it was ended, latest first, and how often it was handed to
-- pxd_failover_initiate.
pub record CloneIo : Type 0 where
  pub dev : Device
  pub root : Root
  pub endings : List Ending
  pub failovers : ℕ

abbrev pub supported : BlockOp → Bool
supported req_op_read = true
supported req_op_write = true
supported req_op_discard = true
supported req_op_write_zeroes = false
supported req_op_flush = true
supported req_op_other = false

abbrev pub is_read : BlockOp → Bool
is_read req_op_read = true
is_read req_op_write = false
is_read req_op_discard = false
is_read req_op_write_zeroes = false
is_read req_op_flush = false
is_read req_op_other = false

-- clone_root for the files `i`, `i` + 1, …, of which `n` are left: whether all were made, and the
-- clones.
unfoldable pub clone_files : (ℕ → Bool) → ℕ → ℕ → List ℕ → Bool × List ℕ
clone_files alloc i zero clones = (true, clones)
clone_files alloc i (suc n) clones =
    let rest = clone_files alloc (suc i) n (i ∷ clones) in if alloc i then rest else (false, clones)

unfoldable pub clone_cleanup : Root → Root
clone_cleanup root = record root { magic = false; clones = [] }

-- The BUG_ONs on the magic of a root that has just been set up, on a flush without a bio and on a file
-- that is not there are no part of this.
unfoldable pub clone_and_map : BlockOp → ℤ → (ℕ → Bool) → CloneIo → CloneStatus × CloneIo
unfolding clone_cleanup
clone_and_map op prep alloc io =
    let io = record io { dev = record (io.dev) { ncount = io.dev.ncount + 1 } } in
    let (all, clones) =
      clone_files alloc 0 (if is_read op then min io.dev.fp.nfd 1 else io.dev.fp.nfd) [] in
    if not (supported op)
    then (clone_notsupp, io)
    else if not (is_zero prep)
    then (clone_resource, record io { root = clone_cleanup io.root })
    else if not all
    then (clone_resource, record io { root = clone_cleanup io.root })
    else (
      clone_ok,
      record io { root = record (io.root) { clones = clones; nactive = length clones } },
    )

-- A request whose clones were not made is ended.
unfoldable pub end_refused : CloneStatus × CloneIo → CloneIo
end_refused (clone_ok, io) = io
end_refused (clone_notsupp, io) = record io { endings = refused_as clone_notsupp ∷ io.endings }
end_refused (clone_resource, io) = record io { endings = refused_as clone_resource ∷ io.endings }

-- The work item of a request; a clone that was made has been dispatched.
unfoldable pub fp_handle_io : BlockOp → ℤ → (ℕ → Bool) → CloneIo → CloneIo
unfolding end_refused
fp_handle_io op prep alloc io = end_refused (clone_and_map op prep alloc io)

-- The loop of reconcile_status, with the status so far.
unfoldable pub reconcile_from : ℤ → (ℕ → ℤ) → List ℕ → ℤ
reconcile_from so_far status [] = so_far
reconcile_from so_far status (c ∷ clones) =
    reconcile_from (if is_zero so_far then status c else so_far) status clones

unfoldable pub reconcile_status : Root → ℤ
unfolding reconcile_from
reconcile_status root = reconcile_from (pos 0) root.status root.clones

abbrev pub is_eio : ℤ → Bool
is_eio (pos n) = false
is_eio (negsuc n) = n == 4

-- The end of the last clone: the request is handed to a failover, or is ended.
unfoldable pub finish_clones : CloneIo → CloneIo
unfolding clone_cleanup reconcile_status
finish_clones io =
    let fp = io.dev.fp in
    let rc = if fp.force_fail then eio else reconcile_status io.root in
    if fp.can_failover && is_eio rc
    then record io {
      dev = set_fp io.dev (record fp { nerror = fp.nerror + 1 });
      failovers = io.failovers + 1;
    }
    else record io {
      dev = record (set_fp io.dev (record fp { ncomplete = fp.ncomplete + 1 })) {
        ncount = io.dev.ncount - 1;
      };
      root = clone_cleanup io.root;
      endings = ended_as rc ∷ io.endings;
    }

-- _end_clone_bio for the clone `i`, which has ended with `err`; `none` is a BUG_ON.
unfoldable pub end_clone_bio : ℕ → ℤ → CloneIo → Option CloneIo
end_clone_bio i err io = bug_on (not io.root.magic) (
    let root = record (io.root) {
      status = update io.root.status i err;
      nactive = io.root.nactive - 1;
    } in
    let io = record io { root = root } in some (if root.nactive == 0 then finish_clones io else io))

-- The clones end in the order of the list, each with its own status.
unfoldable pub end_clones : (ℕ → ℤ) → List ℕ → CloneIo → Option CloneIo
end_clones status [] io = some io
end_clones status (i ∷ order) io = end_clone_bio i (status i) io >>= end_clones status order
