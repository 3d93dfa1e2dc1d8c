-- ===== src/Conn/Lifecycle.antt =====
-- dev.c: the life of a connection: fuse_conn_init, the abort of all its requests, release, restart,
-- references and poll.
pub mod Abort
pub mod Laws
use pxmod.Common.{
  ℕ, zero, suc, ◌+◌, ◌-◌, Bool, true, false, Option, none, some, List, [], ◌∷◌, ◌++◌, ◌==◌, length,
  if◌then◌else◌, ◌>>=◌, not, ◌&&◌,
}
use pxmod.Common.Int.{ℤ, pos, enomem, econnaborted, eperm}
use pxmod.Conn.State.{FuseConn, FuseReq, Event, woken, released, fuse_max_request_ids, PerCpuIds}
use pxmod.Conn.Ids.Alloc.{fill_free_ids}
use pxmod.Conn.Requests.{request_end, set_error, emit, fuse_request_init, request_pending}

-- The two lists of a connection.
pub data Queue : Type 0 where
  on_pending : Queue
  on_processing : Queue

abbrev pub queue : Queue → FuseConn → List ℕ
queue on_pending fc = fc.pending
queue on_processing fc = fc.processing

-- The loop `while (!list_empty (head))`, on fuel; `none` is a BUG_ON, or that the fuel ran out.
unfoldable pub end_requests : ℕ → Queue → ℕ → FuseConn → Option FuseConn
end_requests zero q cpu fc = none
end_requests (suc fuel) q cpu fc = elim (queue q fc) [
  | [] ↦ some fc
  | r ∷ rest ↦ request_end cpu (set_error fc r econnaborted) r >>= end_requests fuel q cpu
]

unfoldable pub fuse_end_queued_requests : ℕ → FuseConn → Option FuseConn
fuse_end_queued_requests cpu fc = do
  fc ← end_requests (length fc.pending + 1) on_pending cpu fc
  end_requests (length fc.processing + 1) on_processing cpu fc

unfoldable pub fuse_abort_conn : ℕ → FuseConn → Option FuseConn
fuse_abort_conn cpu fc =
    if fc.connected
    then fuse_end_queued_requests cpu (record fc { connected = false })
      >>= (λ fc. some (emit fc woken))
    else some fc

-- fuse_conn_free_allocs, and fc->release, when the last reference goes.
unfoldable pub fuse_conn_put : FuseConn → FuseConn
fuse_conn_put fc =
    let fc = record fc { count = fc.count - 1 } in if fc.count == 0 then emit fc released else fc

unfoldable pub fuse_conn_get : FuseConn → FuseConn
fuse_conn_get fc = record fc { count = fc.count + 1 }

-- The file has a connection, or none.
unfoldable pub fuse_dev_release : ℕ → Option FuseConn → Option (Option FuseConn)
fuse_dev_release cpu none = some none
fuse_dev_release cpu (some fc) =
    fuse_end_queued_requests cpu (record fc { connected = false })
    >>= (λ fc. some (some (fuse_conn_put fc)))

-- list_splice_init (&fc->processing, &fc->pending): what was being processed is pending again,
-- before what was pending.
unfoldable pub fuse_restart_requests : FuseConn → FuseConn
fuse_restart_requests fc =
    emit (record fc { pending = fc.processing ++ fc.pending; processing = [] }) woken

-- What each of the three allocations of fuse_conn_init returns.
pub record Allocs : Type 0 where
  pub request_map : Bool
  pub free_ids : Bool
  pub per_cpu_ids : Bool

-- The fields that fuse_conn_init sets. `memory` is the memory that pointers to requests reach,
-- which is not the connection's.
unfoldable pub new_conn : (ℕ → FuseReq) → FuseConn
new_conn memory = record {
  pending = [];
  processing = [];
  request_map = λ i. none;
  free_ids = fill_free_ids fuse_max_request_ids (λ i. 0);
  num_free_ids = fuse_max_request_ids;
  per_cpu_ids = λ c. record { num_free_ids = 0; free_ids = λ i. 0 };
  connected = false;
  allow_disconnected = false;
  count = 1;
  reqs = memory;
  trace = [];
}

unfoldable pub fuse_conn_init : Allocs → (ℕ → FuseReq) → ℤ × Option FuseConn
fuse_conn_init alloc memory =
    if alloc.request_map && alloc.free_ids && alloc.per_cpu_ids
    then (pos 0, some (new_conn memory))
    else (enomem, none)

-- POLLIN | POLLRDNORM and POLLOUT | POLLWRNORM, or POLLERR.
pub data Poll : Type 0 where
  poll_err : Poll
  poll_out : Poll
  poll_in_out : Poll

unfoldable pub fuse_dev_poll : Option FuseConn → Poll
fuse_dev_poll none = poll_err
fuse_dev_poll (some fc) =
    if not fc.connected then poll_err else if request_pending fc then poll_in_out else poll_out
