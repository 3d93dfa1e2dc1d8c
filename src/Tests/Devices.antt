-- ===== src/Tests/Devices.antt =====
-- The operations on devices, and the requests of the block layer, on concrete contexts.
use pxmod.Common.{ltb, ◌≡◌, refl, arith, true, false, none, some, [], ◌∷◌, occurs-nil, occurs-cons}
use pxmod.Common.Int.{pos}
use pxmod.Conn.Requests.Ready.{HasRoom, Ready}
use pxmod.Conn.Source.Layout.{AddExtOut, UpdatePathOut, RemoveOut}
use pxmod.Device.State.{Device, Context, find_pxd_device}
use pxmod.Device.Ops.{zero_fastpath, pxd_add}
use pxmod.Device.Remove.{ExportSteps, pxd_export, pxd_remove, pxd_finish_remove}
use pxmod.Device.Laws.{DevicesInv, find_pxd_device_lem}
use pxmod.Device.Kept.{add-Inv}
use pxmod.Device.Removed.{export-Inv, Exports, remove-finished}
use pxmod.Device.Requests.{BlockFlags, req_op_write}
use pxmod.Device.Queue.{BlockRq, DevConn, BlkStatus, pxd_queue_rq}
use pxmod.Device.Queue.Laws.{Queued, queue_rq-Queued}
use pxmod.Fastpath.Files.{FileOps}
use pxmod.Fastpath.Ops.{fastpath_ops}
use pxmod.Tests.{opened, opened-Inv, opened-Room, opened-Fresh}

-- Each path is a regular file that can be opened and synced.
abbrev pub good_files : FileOps
good_files = record {
  filp_open = λ path mode. some 5;
  vfs_fsync = λ f. pos 0;
  is_backing = λ f. true;
}

abbrev pub one_path : UpdatePathOut
one_path = record { dev_id = 9; can_failover = true; count = 1; devpath = (100 ∷ []) ∷ [] }

abbrev pub add_msg : AddExtOut
add_msg = record {
  dev_id = 9;
  size = 1048576;
  queue_depth = pos 0;
  discard_size = pos 0;
  open_mode = 2;
  enable_fp = pos 1;
  paths = one_path;
}

-- A device that is registered for the fast path, and not on it.
abbrev pub idle_device : Device
idle_device = record {
  dev_id = 9;
  minor = 1;
  size = 1048576;
  open_count = 0;
  removing = false;
  connected = true;
  mode = 2;
  fastpath = true;
  queue_depth = 256;
  discard_size = 1048576;
  ncount = 0;
  qdepth = 256;
  congested = false;
  exported = false;
  nr_congestion_on = 0;
  nr_congestion_off = 0;
  fp = zero_fastpath;
  disk = false;
  quiesced = false;
  capacity = 0;
}

abbrev pub no_device : Context
no_device = record { list = []; num_devices = 0; devs = λ p. idle_device; minors = λ m. false }

no_device-Inv : DevicesInv no_device
no_device-Inv = record {
  counted = refl;
  once = λ p. omega (arith, occurs-nil p);
  ids = λ p q l m e. absurd (omega (arith, occurs-nil p));
  minors = λ p q l m e. absurd (omega (arith, occurs-nil p));
  taken = λ p l. absurd (omega (arith, occurs-nil p));
}

-- One device, at 3, with the minor 1.
abbrev pub one_device : Device → Context
one_device d = record { list = 3 ∷ []; num_devices = 1; devs = λ p. d; minors = λ m. true }

one_device-Inv : (d : Device) → DevicesInv (one_device d)
one_device-Inv d = record {
  counted = refl;
  once = λ p. ground (arith, occurs-nil p, occurs-cons p 3 []);
  ids = λ p q l m e.
      ground (arith, occurs-nil p, occurs-cons p 3 [], occurs-nil q, occurs-cons q 3 []);
  minors = λ p q l m e.
      ground (arith, occurs-nil p, occurs-cons p 3 [], occurs-nil q, occurs-cons q 3 []);
  taken = λ p l. refl;
}

one_device-found : (d : Device) → d.dev_id ≡ 9 → find_pxd_device (one_device d) 9 ≡ some 3
one_device-found d e =
    (find_pxd_device_lem (one_device d) 9 3 (one_device-Inv d)).1
      (ground (arith, occurs-nil 3, occurs-cons 3 3 []), e)

add-Inv_example :
    DevicesInv (pxd_add (fastpath_ops good_files) (some 3) (pos 1) (λ ctx. ctx) add_msg no_device).1
add-Inv_example =
    add-Inv (fastpath_ops good_files) (some 3) (pos 1) (λ ctx. ctx) add_msg no_device
      (λ p e. omega (arith, occurs-nil p)) (λ minor e. refl) no_device-Inv no_device-Inv

abbrev all_fine : ExportSteps
all_fine = record {
  try_module_get = true;
  pxd_init_disk = pos 0;
  pxd_bus_add_dev = pos 0;
  device_add_disk = pos 0;
}

export-Inv_example :
    Exports all_fine (one_device idle_device) 3 (pxd_export all_fine (one_device idle_device) 9)
export-Inv_example =
    export-Inv all_fine (one_device idle_device) 9 3 (one_device-Inv idle_device)
      (one_device-found idle_device refl)

abbrev exported_device : Device
exported_device = record idle_device { exported = true; disk = true }

abbrev remove_msg : RemoveOut
remove_msg = record { dev_id = 9; force = false }

remove-finished_example :
    (ctx' : Context) × (pxd_remove remove_msg (one_device exported_device) ≡ (pos 0, some 3, ctx'))
    × ((ctx'.devs 3).removing ≡ true)
    × (pxd_remove remove_msg ctx' ≡ (pos 0, none, ctx'))
    × DevicesInv (pxd_finish_remove (fastpath_ops good_files) 1 ctx' 3)
    × (find_pxd_device (pxd_finish_remove (fastpath_ops good_files) 1 ctx' 3) 9 ≡ none)
    × ((pxd_finish_remove (fastpath_ops good_files) 1 ctx' 3).minors 1 ≡ ltb 0 1)
remove-finished_example =
    remove-finished (fastpath_ops good_files) 1 remove_msg (one_device exported_device) 3
      (one_device-Inv exported_device) (one_device-found exported_device refl) refl refl refl

abbrev busy_device : Device
busy_device = record idle_device { ncount = 300 }

abbrev no_flags : BlockFlags
no_flags = record { fua = false; preflush = false; meta = false }

abbrev preflush_only : BlockFlags
preflush_only = record { fua = false; preflush = true; meta = false }

-- The device and an open connection.
abbrev pub connected_to : Device → DevConn
connected_to d = record { fc = opened; dev = d; ended_rqs = []; queued_work = [] }

pub opened-Ready : Ready 1 0 7 opened
opened-Ready = record {
  here = omega arith;
  inv = opened-Inv;
  takes = refl;
  room = opened-Room;
  fresh = opened-Fresh;
}

abbrev pub write_rq : BlockRq
write_rq = record {
  op = req_op_write;
  flags = no_flags;
  bytes = 4096;
  sector = 8;
  segments = (0 ∷ 1 ∷ []) ∷ [];
  passthrough = false;
}

opened-HasRoom : HasRoom 1 0 7 opened
opened-HasRoom = record {
  here = omega arith;
  inv = opened-Inv;
  room = opened-Room;
  fresh = opened-Fresh;
}

queue_rq-Queued_example :
    (status : BlkStatus) × (w' : DevConn) × (pxd_queue_rq true 0 write_rq 7
        (connected_to idle_device)
      ≡ some (status, w'))
    × Queued true 1 write_rq 7 (connected_to idle_device) status w'
queue_rq-Queued_example =
    queue_rq-Queued true 1 0 7 write_rq (connected_to idle_device) opened-HasRoom
