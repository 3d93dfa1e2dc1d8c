-- ===== src/Tests/Replies.antt =====
-- Replies to a request that was sent, from a process that writes bytes.
use pxmod.Common.{ℕ, ◌≡◌, refl, sym, arith, true, none, some, List, [], ◌∷◌, total-eq-zero}
use pxmod.Common.Int.{pos, efault, einval, enoent, enomem}
use pxmod.Conn.State.{FuseConn, FuseReq, fuse_max_request_ids}
use pxmod.Conn.Opcode.{pxd_read}
use pxmod.Conn.Ids.Alloc.{fuse_get_unique, refill_ids, pop_id, next_generation, fill_free_ids}
use pxmod.Conn.Ids.Invariant.{in_flight}
use pxmod.Conn.Requests.{register, queue_request, fuse_request_send_nowait, len_args, request_find}
use pxmod.Conn.Requests.Invariant.{ConnInv, Mapped, Fresh, IdsInv-cong}
use pxmod.Conn.Requests.Laws.{Room, send_queues}
use pxmod.Conn.Lifecycle.{new_conn}
use pxmod.Conn.Lifecycle.Laws.{new_conn-Inv}
use pxmod.Conn.Source.{bytes_source}
use pxmod.Conn.Source.Layout.{OutHeader, load_out_header, load_u32, load_s32, load_u64}
use pxmod.Conn.ZeroPage.{load_word}
use pxmod.Conn.Notify.{DeviceOps}
use pxmod.Conn.Notify.ReadData.{UserDest}
use pxmod.Conn.Write.{World, fuse_dev_do_write, copy_pages}
use pxmod.Conn.Write.Laws.{Replied}
use pxmod.Conn.Write.Reply.{GoodHeader, Halfway, write-Replied, write-Halfway}
use pxmod.Tests.{write_req, opened, sent, sent-Sent, sent-Mapped}

-- A process that reads nothing, and devices that refuse everything.
abbrev pub no_dest : UserDest
no_dest = record {
  Mem = ℕ;
  Dest = ℕ;
  iov_iter_init = λ iov m. m;
  iov_iter_advance = λ n d. d;
  copy_page_to_iter = λ p off len d. (len, d);
  memory = λ d. d;
}

abbrev no_devices : DeviceOps ℕ
no_devices = record {
  find_pxd_device = λ dev_id ctx. none;
  pxd_add = λ add ctx. (enomem, ctx);
  pxd_remove = λ remove ctx. (enoent, ctx);
  pxd_update_size = λ u ctx. (enoent, ctx);
  pxd_export = λ dev_id ctx. (enoent, ctx);
  pxd_request_suspend = λ d skip_flush keep_on ctx. (einval, ctx);
  pxd_request_resume = λ d ctx. (einval, ctx);
  pxd_request_ioswitch = λ d code ctx. (einval, ctx);
  pxd_supported_features = pos 0;
}

abbrev in_world : FuseConn → World bytes_source no_dest no_devices
in_world fc = record { fc = fc; mem = 0; ctx = 0 }

-- The header of a reply to the first request of a connection, without data.
abbrev reply : List ℕ
reply = 16 ∷ 0 ∷ 0 ∷ 0 ∷ 0 ∷ 0 ∷ 0 ∷ 0 ∷ 0 ∷ 0 ∷ 4 ∷ 0 ∷ 0 ∷ 0 ∷ 0 ∷ 0 ∷ []

abbrev reply_header : OutHeader
reply_header = record { len = 16; error = pos 0; unique = 262144 }

reply-GoodHeader :
    GoodHeader bytes_source 1 0 (omega arith) no_dest no_devices reply reply_header []
unfolding load_out_header load_u32 load_s32 load_u64 load_word
reply-GoodHeader = record {
  bytes = reply;
  copied = refl;
  whole = refl;
  loaded = refl;
  len = refl;
  reply = ground arith;
}

sent_id : (sent.reqs 7).unique ≡ 262144
unfolding fuse_request_send_nowait fuse_get_unique new_conn refill_ids pop_id next_generation
    fill_free_ids register queue_request len_args
sent_id = refl

sent_on : sent.connected ≡ true
unfolding fuse_request_send_nowait fuse_get_unique new_conn refill_ids pop_id next_generation
    fill_free_ids register queue_request len_args
sent_on = refl

sent_write : (sent.reqs 7).opcode ≡ write_req.opcode
unfolding fuse_request_send_nowait fuse_get_unique new_conn refill_ids pop_id next_generation
    fill_free_ids register queue_request len_args
sent_write = refl

write-Replied_example :
    (fc' : FuseConn) × (fuse_dev_do_write bytes_source no_dest no_devices 0 reply (in_world sent)
      ≡ some (pos 16, record (in_world sent) { fc = fc' }))
    × Replied 1 7 (pos 0) sent fc'
write-Replied_example =
    write-Replied bytes_source 1 0 (omega arith) no_dest no_devices 7 reply [] reply_header
      (in_world sent) sent-Sent.inv sent-Mapped sent_on reply-GoodHeader (sym sent_id) refl
      (λ data_there. absurd (ground arith))

opened_nothing : request_find opened 262144 ≡ none
unfolding request_find new_conn
opened_nothing = refl

-- A read of a page of three bytes that has been sent.
abbrev read_req : FuseReq
read_req = record write_req { opcode = pxd_read }

abbrev read_opened : FuseConn
read_opened = record (new_conn (λ r. read_req)) { connected = true }

read_opened-Inv : ConnInv 1 read_opened
unfolding new_conn
read_opened-Inv =
    let inv = new_conn-Inv 1 (λ r. read_req) in
    record {
      ids = IdsInv-cong 1 (new_conn (λ r. read_req)) read_opened refl refl refl refl inv.ids;
      own_slot = inv.own_slot;
      listed = inv.listed;
    }

read_opened-Room : Room 1 read_opened
unfolding new_conn
read_opened-Room =
    omega
      (arith, total-eq-zero (in_flight read_opened.request_map) fuse_max_request_ids (λ c. refl))

read_opened-Fresh : Fresh read_opened 7
unfolding new_conn
read_opened-Fresh i p = cc

abbrev read_sent : FuseConn
read_sent = elim (fuse_request_send_nowait 0 read_opened 7) [ none ↦ read_opened | some fc ↦ fc ]

-- One byte of data, of three.
abbrev short_reply : List ℕ
short_reply = 17 ∷ 0 ∷ 0 ∷ 0 ∷ 0 ∷ 0 ∷ 0 ∷ 0 ∷ 0 ∷ 0 ∷ 4 ∷ 0 ∷ 0 ∷ 0 ∷ 0 ∷ 0 ∷ 5 ∷ []

abbrev short_header : OutHeader
short_header = record { len = 17; error = pos 0; unique = 262144 }

short-GoodHeader :
    GoodHeader bytes_source 1 0 (omega arith) no_dest no_devices short_reply short_header (5 ∷ [])
unfolding load_out_header load_u32 load_s32 load_u64 load_word
short-GoodHeader = record {
  bytes = reply_bytes;
  copied = refl;
  whole = refl;
  loaded = refl;
  len = refl;
  reply = ground arith;
}
  where
    reply_bytes : List ℕ
    reply_bytes = 17 ∷ 0 ∷ 0 ∷ 0 ∷ 0 ∷ 0 ∷ 0 ∷ 0 ∷ 0 ∷ 0 ∷ 4 ∷ 0 ∷ 0 ∷ 0 ∷ 0 ∷ 0 ∷ []

record ReadSent (fc : FuseConn) : Type 0 where
  inv : ConnInv 1 fc
  mapped : Mapped fc 7
  id : (fc.reqs 7).unique ≡ 262144
  on : fc.connected ≡ true
  opcode : (fc.reqs 7).opcode ≡ pxd_read
  segments : (fc.reqs 7).segments ≡ (0 ∷ 0 ∷ 0 ∷ []) ∷ []

read_sent_inv : ConnInv 1 read_sent
unfolding new_conn
read_sent_inv =
    let (fc', e, inv, p, q, f, z, l) =
      send_queues 1 0 7 read_opened (omega arith) read_opened-Inv read_opened-Fresh refl
        read_opened-Room in
    rw (read_sent, e) inv

read_sent_id : (read_sent.reqs 7).unique ≡ 262144
unfolding new_conn fuse_request_send_nowait fuse_get_unique refill_ids pop_id next_generation
    fill_free_ids register queue_request len_args
read_sent_id = refl

read_sent_on : read_sent.connected ≡ true
unfolding new_conn fuse_request_send_nowait fuse_get_unique refill_ids pop_id next_generation
    fill_free_ids register queue_request len_args
read_sent_on = refl

read_sent_data :
    ((read_sent.reqs 7).opcode ≡ pxd_read)
    × ((read_sent.reqs 7).segments ≡ (0 ∷ 0 ∷ 0 ∷ []) ∷ [])
    × Mapped read_sent 7
unfolding new_conn fuse_request_send_nowait fuse_get_unique refill_ids pop_id next_generation
    fill_free_ids register queue_request len_args
read_sent_data = (refl, refl, refl)

read_sent-ReadSent : ReadSent read_sent
read_sent-ReadSent =
    let (opcode, segments, mapped) = read_sent_data in
    record {
      inv = read_sent_inv;
      mapped = mapped;
      id = read_sent_id;
      on = read_sent_on;
      opcode = opcode;
      segments = segments;
    }

write-Halfway_example :
    (fc' : FuseConn) × (fuse_dev_do_write bytes_source no_dest no_devices 0 short_reply
        (in_world read_sent)
      ≡ some (efault, record (in_world read_sent) { fc = fc' }))
    × Halfway 1 7 read_sent fc'
unfolding copy_pages
write-Halfway_example =
    let s = read_sent-ReadSent in
    write-Halfway bytes_source 1 0 (omega arith) no_dest no_devices 7 short_reply (5 ∷ [])
      short_header (in_world read_sent) s.inv s.mapped s.on short-GoodHeader (sym s.id) refl
      (rw s.opcode refl) (rw s.segments refl)
