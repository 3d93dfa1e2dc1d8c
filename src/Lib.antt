-- ===== src/Lib.antt =====
-- The Portworx block driver: dev.c, pxd.c, pxd_fastpath.c, pxd_bio_blkmq.c and their headers.
--
-- The kernel module queues block requests on a connection; a user-space process reads them from a
-- control device, serves them, and writes replies. dev.c keeps the connection: the requests that
-- are pending, those that are being processed, the map from ids to requests, and the free ids.
-- pxd.c keeps the devices of a context and makes requests of the connection from those of the block
-- layer. A device may have a fast path (pxd_fastpath.c, pxd_bio_blkmq.c): its requests then go
-- straight to backing files, and a switch, which is a marker request to the process, moves it
-- between the fast path and the native path.
--
-- Files, and what they model:
--   Common: numbers, tests, options, lists and arrays that the parts share.
--   Conn/State, Conn/Opcode: struct fuse_conn, fuse_req, fuse_per_cpu_ids, the limits, the
--     opcodes.
--   Conn/Ids: fuse_get_unique and fuse_put_unique (dev.c). Alloc has the code, Count and
--     Invariant say who owns an id slot.
--   Conn/Requests: fuse_get_req, fuse_request_send_nowait, request_find, request_end (dev.c).
--     Ready is a connection that can take one more request.
--   Conn/Lifecycle: fuse_conn_init, fuse_abort_conn, fuse_end_queued_requests, fuse_dev_release,
--     fuse_restart_requests, fuse_conn_put and fuse_conn_get, fuse_dev_poll (dev.c).
--   Conn/ZeroPage: the search for writes of zeroes (dev.c).
--   Conn/Iter, Conn/Read: the kernel's iov_iter as an interface, and fuse_dev_do_read (dev.c).
--   Conn/Source: what a process writes, as an interface, and the structures of fuse.h and pxd.h
--     that are read from it.
--   Conn/Write, Conn/Notify: fuse_dev_do_write, and fuse_notify with its handlers (dev.c). The
--     operations on devices that they call are the interface DeviceOps.
--   Device/State: struct pxd_device, pxd_fastpath_extension and pxd_context (pxd_core.h,
--     pxd_fastpath.h).
--   Device/Ops, Device/Remove: pxd_open, pxd_release, pxd_add; pxd_export, pxd_remove,
--     pxd_finish_remove, pxd_ioc_update_size (pxd.c). Laws, Kept, Leave, Finish and Removed have
--     the invariant of the devices. What the fast path does for them is the interface
--     FastpathOps, which Fastpath/Ops fills.
--   Device/Congestion, Device/Requests, Device/Queue: the limit on requests in flight,
--     pxd_request, pxd_queue_rq and pxdmq_reroute_slowpath (pxd.c).
--   Fastpath/Suspend: pxd_suspend_io and pxd_resume_io (pxd_bio_blkmq.c), pxd_request_suspend and
--     pxd_request_resume with the sync of the files (pxd_fastpath.c).
--   Fastpath/Files, Fastpath/Paths: the kernel's files as a parameter; enableFastPath,
--     disableFastPath, pxd_init_fastpath_target, pxd_fastpath_vol_cleanup (pxd_fastpath.c).
--   Fastpath/Switch: pxd_initiate_failover, pxd_initiate_fallback, pxd_process_ioswitch_complete
--     (pxd.c), pxd_request_ioswitch, pxd_fastpath_reset_device (pxd_fastpath.c), pxd_io_failover
--     and the queue of failed requests (pxd_bio_blkmq.c).
--   Fastpath/Clones: clone_and_map, fp_handle_io, reconcile_status and _end_clone_bio
--     (pxd_bio_blkmq.c).
--   Fastpath/Workers: the setting pxd_num_fpthreads, the worker threads of a node, balanceIO and
--     fastpath_queue_work (pxd_fastpath.c).
--   Conn/Account: how often the callback of a request has been called and is still to be called,
--     for each operation of a connection.
--   Control: struct pxd_context, pxd_control_open, pxd_control_release, pxd_abort_context,
--     pxd_timeout_store, pxd_nodewipe_cleanup, pxd_context_destroy (pxd.c). System has the runs
--     of a context as a step relation.
--   Boot: pxd_context_init, pxd_init with its error labels, and pxd_exit (pxd.c).
--   Sysfs: __strtok_r, __strip_nl, pxd_fastpath_update, pxd_debug_store, pxd_congestion_set and
--     pxd_release_store (pxd.c).
--   Ioctl: pxd_read_init, pxd_ioctl_get_version, pxd_ioctl_resize and pxd_ioctl_fp_cleanup
--     (pxd.c).
--   Tests: the theorems on concrete connections and devices.
--
-- Conventions. A pointer to a request or to a device is a number, and `reqs` and `devs` are the
-- memory behind them. A function takes the state and returns the new one; `none` is a BUG_ON, which
-- stops the kernel, a write past an array, or a use of a device that is freed. What a connection
-- shows outside of it (callbacks, wake-ups) is a trace, latest first; what the callback of a marker
-- of a change of path does to its device stands in Fastpath/Switch, and for an abort in Control,
-- after the loops that end the requests. Locks are not state: a function that holds the lock is one
-- step, and where fuse_dev_do_read, pxd_add and pxd_control_open are open to other threads, what
-- those do is an argument. The steps of a run (Control/System) are whole calls: an open that no
-- other thread cuts in two, and replies whose data fill the pages; other code may change the
-- devices at any time. What the allocators return, and which work items of a sync are done in time,
-- are arguments. An id is 64 bits wide and wraps; the mask of the map is a remainder by 2 ^ 18.
--
-- Builds. The one with the multi-queue block layer and the fast path (__PX_BLKMQ__,
-- __PXD_BIO_BLKMQ__, __PX_FASTPATH__), on x86-64. pxd_queue_rq and pxdmq_reroute_slowpath meet a
-- device and the connection of its context (DevConn).
--
-- Bounds and fuel. The loop of end_requests runs on the length of its list plus one, which is
-- enough, as the theorem about fuse_end_queued_requests shows. The loop of
-- pxd_fastpath_reset_device runs as often as the device is suspended, as the theorem about it
-- shows. The other loops are structural. read_rounds takes one round for each act of other threads.
--
-- Not modelled: printing, tracing, kernel registration, the uid, gid and pid of a request, the
-- variant built with __PXD_BIO_MAKEREQ__, the single-queue block layer, iov_iter.c, which is a copy
-- of the kernel's, the set-up of a disk's queue, how a clone reaches a device, the BUG_ONs on the
-- parts of a clone that is being made, the flags that PXD_IOC_IO_FLUSHER sets in the kernel's
-- tasks, and the show functions of sysfs. What sscanf reads, and which characters are blank
-- (isspace, iscntrl), are arguments.
pub mod Common
pub mod Conn
pub mod Tests
pub mod Control
pub mod Sysfs
pub mod Ioctl
pub mod Boot
pub mod Device
pub mod Fastpath
