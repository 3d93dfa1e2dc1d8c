-- ===== src/Tests/Boots.antt =====
-- The start and the end of the module, on concrete answers of the kernel.
use pxmod.Common.{◌≡◌, refl, arith, true, false, some, [], ◌∷◌}
use pxmod.Common.Int.{pos, enomem}
use pxmod.Conn.Lifecycle.{new_conn}
use pxmod.Control.{Control}
use pxmod.Boot.{Answers, Boot, pxd_init}
use pxmod.Boot.Undo.{Outcome, init_lem}
use pxmod.Tests.Devices.{no_device}
use pxmod.Tests.Controls.{one_context, idle_conn, busy_context}

-- Every step of the start succeeds but the last.
abbrev late_failure : Answers
late_failure = record {
  fuse_dev_init = pos 0;
  kzalloc = true;
  allocs = λ i. record { request_map = true; free_ids = true; per_cpu_ids = true };
  zeroed = idle_conn;
  empty = no_device;
  misc_register = λ i. pos 0;
  misc_register_first = pos 0;
  register_blkdev = pos 252;
  sysfs_init = pos 0;
  fastpath_init = enomem;
}

idle_conn_closed : idle_conn.connected ≡ false
unfolding new_conn
idle_conn_closed = refl

init_lem_example : Outcome one_context late_failure 0 (pxd_init one_context late_failure 0)
init_lem_example = init_lem one_context late_failure 0 idle_conn_closed (λ e. absurd (ground arith))

-- The module with the one context that has a request pending.
abbrev one_busy : Boot
one_busy = record {
  fuse_dev = true;
  array = true;
  contexts = busy_context ∷ [];
  registered = 0 ∷ [];
  miscdev = true;
  blkdev = some 252;
  sysfs = true;
  fastpath = true;
}
