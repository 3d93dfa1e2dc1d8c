-- ===== src/Tests.antt =====
-- dev.c on concrete connections: one that has just been opened, one to which a request was sent,
-- and one of which that request was read.
pub mod Replies
pub mod Devices
pub mod Paths
pub mod Switches
pub mod Clones
pub mod Controls
pub mod Texts
pub mod Boots
use pxmod.Common.{
  ℕ, ◌+◌, ◌-◌, ◌%◌, ◌^◌, ◌≤◌, ◌≡◌, ◌≢◌, ◌⊎◌, ◌↔◌, refl, arith, true, false, none, some, List, [],
  ◌∷◌, ◌++◌, total-eq-zero, occurs-cons, occurs-nil,
}
use pxmod.Common.Int.{ℤ, pos, enomem}
use pxmod.Conn.State.{FuseConn, FuseReq, fuse_max_request_ids, woken}
use pxmod.Conn.Opcode.{pxd_write, pxd_discard}
use pxmod.Conn.Ids.Alloc.{fuse_get_unique, fuse_put_unique}
use pxmod.Conn.Ids.Invariant.{IdsInv, in_flight}
use pxmod.Conn.Ids.Laws.{Taken, get-Taken, get-runs, put-IdsInv}
use pxmod.Conn.Requests.{
  fuse_request_init, fuse_request_send_nowait, request_end, request_find, emit, len_args,
  in_header_size,
}
use pxmod.Conn.Requests.Invariant.{ConnInv, Mapped, Fresh, Ended, end-Ended, IdsInv-cong}
use pxmod.Conn.Requests.Laws.{Room, listed-Mapped, send_queues, send_enotconn, Refused}
use pxmod.Conn.Lifecycle.{
  new_conn, fuse_conn_init, fuse_abort_conn, fuse_end_queued_requests, fuse_restart_requests,
}
use pxmod.Conn.Lifecycle.Laws.{
  Aborted, new_conn-Inv, init-Inv, end_queued-Aborted, abort-Aborted, restart-Inv,
}
use pxmod.Conn.ZeroPage.{check_zero_page_write, fuse_convert_zero_writes}
use pxmod.Conn.ZeroPage.Laws.{ZeroFrom, AllZero, check_zero_page_write_iff, convert_zero_writes_lem}
use pxmod.Conn.Iter.{Buffer, buffer_iter, buffer-IsMapped}
use pxmod.Conn.Read.{select, fuse_dev_do_read}
use pxmod.Conn.Read.Select.{lens, Stops, select_lem}
use pxmod.Conn.Read.Shown.{Copied}
use pxmod.Conn.Read.Deliver.{Sized}
use pxmod.Conn.Read.Laws.{read-runs, read-copies}

-- A write of one page, whose callback has it freed.
abbrev pub write_req : FuseReq
write_req = record fuse_request_init {
  opcode = pxd_write;
  numargs = 1;
  arg_size = λ i. 24;
  rdwr_in = record { dev_minor = 1; size = 4096; flags = 0; offset = 8192 };
  segments = (0 ∷ 0 ∷ 0 ∷ []) ∷ [];
  end = some (λ e. true);
}

abbrev pub opened : FuseConn
opened = record (new_conn (λ r. write_req)) { connected = true }

pub opened-Inv : ConnInv 1 opened
unfolding new_conn
opened-Inv =
    let inv = new_conn-Inv 1 (λ r. write_req) in
    record {
      ids = IdsInv-cong 1 (new_conn (λ r. write_req)) opened refl refl refl refl inv.ids;
      own_slot = inv.own_slot;
      listed = inv.listed;
    }

pub opened-Room : Room 1 opened
unfolding new_conn
opened-Room =
    omega (arith, total-eq-zero (in_flight opened.request_map) fuse_max_request_ids (λ c. refl))

pub opened-Fresh : Fresh opened 7
unfolding new_conn
opened-Fresh i p = cc

abbrev closed : FuseConn
closed = new_conn (λ r. write_req)

closed-Room : Room 1 closed
unfolding new_conn
closed-Room =
    omega (arith, total-eq-zero (in_flight closed.request_map) fuse_max_request_ids (λ c. refl))

closed-Fresh : Fresh closed 7
unfolding new_conn
closed-Fresh i p = cc

-- The request 7 has been sent.
abbrev pub sent : FuseConn
sent = elim (fuse_request_send_nowait 0 opened 7) [ none ↦ opened | some fc ↦ fc ]

pub record Sent (fc : FuseConn) : Type 0 where
  pub inv : ConnInv 1 fc
  pub pending : fc.pending ≡ 7 ∷ []
  pub processing : fc.processing ≡ []
  pub found : request_find fc (fc.reqs 7).unique ≡ some 7
  pub len : (fc.reqs 7).len ≡ 64
  pub sized : Sized fc.reqs (7 ∷ [])

pub sent-Sent : Sent sent
unfolding new_conn len_args
sent-Sent =
    let (fc', e, inv, p, q, f, z, l) =
      send_queues 1 0 7 opened (omega arith) opened-Inv opened-Fresh refl opened-Room in
    rw (sent, e)
      (record {
        inv = inv;
        pending = p;
        processing = q;
        found = f;
        len = ground (arith, l);
        sized = (ground (arith, l), tt);
      })

pub sent-Mapped : Mapped sent 7
sent-Mapped = listed-Mapped 1 7 sent sent-Sent.inv (
    rw (sent-Sent.pending, sent-Sent.processing) (ground (arith, occurs-cons 7 7 [], occurs-nil 7)))

send_queues_example :
    (fc' : FuseConn) × (fuse_request_send_nowait 0 opened 7 ≡ some fc')
    × ConnInv 1 fc'
    × (fc'.pending ≡ opened.pending ++ 7 ∷ [])
    × (fc'.processing ≡ opened.processing)
    × (request_find fc' (fc'.reqs 7).unique ≡ some 7)
    × ((fc'.reqs 7).unique ≢ 0)
    × (fc'.reqs 7 ≡ record (opened.reqs 7) {
      unique = (fc'.reqs 7).unique;
      len = (in_header_size + len_args 1 (λ i. 24)) % 2 ^ 32;
    })
unfolding new_conn
send_queues_example =
    send_queues 1 0 7 opened (omega arith) opened-Inv opened-Fresh refl opened-Room

end-Ended_example : (fc' : FuseConn) × (request_end 0 sent 7 ≡ some fc') × Ended 1 7 sent fc'
end-Ended_example = end-Ended 1 0 7 sent (omega arith) sent-Sent.inv sent-Mapped

end_queued-Aborted_example :
    (fc' : FuseConn) × (fuse_end_queued_requests 0 sent ≡ some fc') × Aborted 1 sent fc'
end_queued-Aborted_example = end_queued-Aborted 1 0 sent (omega arith) sent-Sent.inv

taken_id : (uid : ℕ) × (fc' : FuseConn) × (fuse_get_unique 0 opened ≡ some (uid, fc'))
taken_id = get-runs 1 0 (omega arith) opened opened-Inv.ids opened-Room

put-IdsInv_example :
    (fc' : FuseConn) × (fuse_put_unique 0 (sent.reqs 7).unique sent ≡ some fc') × IdsInv 1 fc'
put-IdsInv_example =
    put-IdsInv 1 0 (omega arith) (sent.reqs 7).unique 7 sent sent-Sent.inv.ids sent-Mapped

check_zero_page_write_iff_example :
    (check_zero_page_write (0 ∷ 0 ∷ 0 ∷ 0 ∷ 0 ∷ 0 ∷ 0 ∷ 0 ∷ 0 ∷ 5 ∷ []) ≡ true)
    ↔ ZeroFrom (0 ∷ 0 ∷ 0 ∷ 0 ∷ 0 ∷ 0 ∷ 0 ∷ 0 ∷ 0 ∷ 5 ∷ []) 0 10
check_zero_page_write_iff_example =
    check_zero_page_write_iff (0 ∷ 0 ∷ 0 ∷ 0 ∷ 0 ∷ 0 ∷ 0 ∷ 0 ∷ 0 ∷ 5 ∷ [])

-- The request fills the buffer.
abbrev exact_room : Buffer
exact_room = record { room = 64; taken = [] }

read-copies_example :
    (taken : List ℕ) × (rest : List ℕ) × (it' : Buffer) × (fc' : FuseConn) × (fuse_dev_do_read
        buffer_iter true 0 true
        (λ fc. fc)
        []
        exact_room
        sent
      ≡ some (pos (lens sent.reqs taken), it', fc'))
    × (taken ++ rest ≡ sent.pending)
    × (lens sent.reqs taken ≤ 64)
    × Stops sent.reqs rest (64 - lens sent.reqs taken)
    × ConnInv 1 fc'
    × (fc'.pending ≡ rest)
    × (fc'.processing ≡ sent.processing ++ taken)
    × (it'.room + lens sent.reqs taken ≡ 64)
    × Copied sent.reqs taken [] it'.taken
read-copies_example =
    read-copies buffer_iter 1 0 (omega arith) true true (λ fc. fc) exact_room sent 7 []
      sent-Sent.inv buffer-IsMapped (rw sent-Sent.pending sent-Sent.sized) sent-Sent.pending
      (omega (arith, sent-Sent.len))
