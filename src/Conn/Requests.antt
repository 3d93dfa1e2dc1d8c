-- ===== src/Conn/Requests.antt =====
-- dev.c: the life of a request: allocation, fuse_request_send_nowait, request_find, request_end.
-- `cpu` is the CPU that the function runs on. `none` is a BUG_ON. The locks of a connection are not
-- state: each function here is one step.
pub mod Invariant
pub mod Laws
pub mod Ready
use pxmod.Common.{
  ℕ, zero, suc, ◌+◌, ◌%◌, ◌^◌, Bool, true, false, ◌||◌, ◌&&◌, Option, none, some, List, [], ◌∷◌,
  ◌++◌, ◌==◌, if◌then◌else◌, ◌>>=◌, update, list_del, is_empty, not,
}
use pxmod.Common.Int.{ℤ, pos, enotconn, enomem}
use pxmod.Conn.State.{FuseConn, FuseReq, Event, ended, freed, woken, slot}
use pxmod.Conn.Ids.Alloc.{fuse_get_unique, fuse_put_unique}

-- memset (req, 0, sizeof (*req)).
abbrev pub fuse_request_init : FuseReq
fuse_request_init = record {
  unique = 0;
  opcode = 0;
  len = 0;
  numargs = 0;
  arg_size = λ i. 0;
  error = pos 0;
  rdwr_in = record { dev_minor = 0; size = 0; flags = 0; offset = 0 };
  segments = [];
  end = none;
}

-- A pointer, or an error code in its place.
pub data PtrResult : Type 0 where
  ptr : ℕ → PtrResult
  err_ptr : ℤ → PtrResult

abbrev pub set_req : FuseConn → ℕ → FuseReq → FuseConn
set_req fc r req = record fc { reqs = update fc.reqs r req }

-- req->out.h.error = e.
abbrev pub set_error : FuseConn → ℕ → ℤ → FuseConn
set_error fc r e = set_req fc r (record (fc.reqs r) { error = e })

abbrev pub emit : FuseConn → Event → FuseConn
emit fc e = record fc { trace = e ∷ fc.trace }

-- `alloc` is what kmem_cache_alloc returns.
unfoldable pub fuse_get_req : Option ℕ → FuseConn → PtrResult × FuseConn
fuse_get_req alloc fc =
    if not fc.connected && not fc.allow_disconnected then (err_ptr enotconn, fc) else (elim alloc [
      | none ↦ (err_ptr enomem, fc)
      | some r ↦ (ptr r, set_req fc r fuse_request_init)
    ])

-- The sum of the sizes of the arguments, in an unsigned.
unfoldable pub len_args : ℕ → (ℕ → ℕ) → ℕ
len_args zero size = 0
len_args (suc i) size = (len_args i size + size i) % 2 ^ 32

-- sizeof (struct fuse_in_header).
abbrev pub in_header_size : ℕ
in_header_size = 40

unfoldable pub queue_request : FuseConn → ℕ → FuseConn
queue_request fc r = record fc { pending = fc.pending ++ r ∷ [] }

unfoldable pub request_pending : FuseConn → Bool
request_pending fc = not (is_empty fc.pending)

-- The callback, if there is one, and whether it says that the request is to be freed. It is noted in
-- the trace; what it does to a device is no part of the connection, and stands where the devices
-- are (Fastpath/Switch for the answer to a marker, Control for an abort).
unfoldable pub call_end : ℕ → FuseConn → Bool × FuseConn
call_end r fc = elim (fc.reqs r).end [
  | none ↦ (false, fc)
  | some end ↦ (end (fc.reqs r).error, emit fc (ended r (fc.reqs r).error))
]

-- list_del (&req->list): the request leaves the list that it is on.
unfoldable pub unlink : FuseConn → ℕ → FuseConn
unlink fc r = record fc { pending = list_del r fc.pending; processing = list_del r fc.processing }

unfoldable pub free_if : Bool → ℕ → FuseConn → FuseConn
free_if shouldfree r fc = if shouldfree then emit fc (freed r) else fc

unfoldable pub request_end : ℕ → FuseConn → ℕ → Option FuseConn
request_end cpu fc r = do
  let uid = (fc.reqs r).unique
  let (shouldfree, fc) = call_end r (unlink fc r)
  fc ← fuse_put_unique cpu uid fc
  some (free_if shouldfree r fc)

-- The header of a request that is sent, and its slot of the map.
unfoldable pub register : FuseConn → ℕ → ℕ → FuseConn
unfolding len_args
register fc r uid =
    let req = fc.reqs r in
    let len = (in_header_size + len_args req.numargs req.arg_size) % 2 ^ 32 in
    record (set_req fc r (record req { unique = uid; len = len })) {
      request_map = update fc.request_map (slot uid) (some r);
    }

unfoldable pub fuse_request_send_nowait : ℕ → FuseConn → ℕ → Option FuseConn
fuse_request_send_nowait cpu fc r = do
  (uid, fc) ← fuse_get_unique cpu fc
  let fc = register fc r uid
  if fc.connected || fc.allow_disconnected
      then some (emit (queue_request fc r) woken)
      else request_end cpu (set_error fc r enotconn) r

unfoldable pub request_find : FuseConn → ℕ → Option ℕ
request_find fc unique = elim (fc.request_map (slot unique)) [
  | none ↦ none
  | some r ↦ if (fc.reqs r).unique == unique then some r else none
]
