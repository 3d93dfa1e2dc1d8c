-- ===== src/Conn/State.antt =====
-- fuse_i.h, pxd.h and the head of dev.c: requests, the connection, and the limits on both.
-- A pointer to a request is a number; `reqs` is the memory that such pointers reach.
use pxmod.Common.{ℕ, ◌*◌, ◌^◌, ◌%◌, Bool, List, Option}
use pxmod.Common.Int.{ℤ}

abbrev pub pxd_max_devices : ℕ
pxd_max_devices = 512

abbrev pub pxd_max_qdepth : ℕ
pxd_max_qdepth = 256

abbrev pub fuse_default_max_background : ℕ
fuse_default_max_background = pxd_max_qdepth * pxd_max_devices

-- A power of two, 2 ^ 18: `x & (fuse_max_request_ids - 1)` is `x % fuse_max_request_ids`.
abbrev pub fuse_max_request_ids : ℕ
fuse_max_request_ids = 2 * fuse_default_max_background

abbrev pub fuse_max_per_cpu_ids : ℕ
fuse_max_per_cpu_ids = 256

abbrev pub u64_mod : ℕ
u64_mod = 2 ^ 64

-- The slot of an id in request_map.
abbrev pub slot : ℕ → ℕ
slot uid = uid % fuse_max_request_ids

-- struct pxd_rdwr_in.
pub record RdwrIn : Type 0 where
  pub dev_minor : ℕ
  pub size : ℕ
  pub flags : ℕ
  pub offset : ℕ

-- struct fuse_req. `unique`, `opcode` and `len` are in.h's, `error` is out.h's. `segments` are the
-- bytes of the pages of `rq`, a list for each segment. `end` is the completion callback; it says
-- whether the request is to be freed.
pub record FuseReq : Type 0 where
  pub unique : ℕ
  pub opcode : ℕ
  pub len : ℕ
  pub numargs : ℕ
  pub arg_size : ℕ → ℕ
  pub error : ℤ
  pub rdwr_in : RdwrIn
  pub segments : List (List ℕ)
  pub end : Option (ℤ → Bool)

-- struct fuse_per_cpu_ids.
pub record PerCpuIds : Type 0 where
  pub num_free_ids : ℕ
  pub free_ids : ℕ → ℕ

-- What the connection does to the world outside of it, latest first.
pub data Event : Type 0 where
  woken : Event  -- fuse_conn_wakeup, or wake_up_all with kill_fasync
  ended : ℕ → ℤ → Event  -- req->end (fc, req, status)
  freed : ℕ → Event  -- fuse_request_free
  released : Event  -- fuse_conn_free_allocs and fc->release

-- struct fuse_conn, with the requests that it points to.
pub record FuseConn : Type 0 where
  pub pending : List ℕ
  pub processing : List ℕ
  pub request_map : ℕ → Option ℕ
  pub free_ids : ℕ → ℕ
  pub num_free_ids : ℕ
  pub per_cpu_ids : ℕ → PerCpuIds
  pub connected : Bool
  pub allow_disconnected : Bool
  pub count : ℕ
  pub reqs : ℕ → FuseReq
  pub trace : List Event
