-- ===== src/Conn/Ids/Alloc.antt =====
-- dev.c: fuse_get_unique, fuse_put_unique, and the loop of fuse_conn_init that fills the stack.
use pxmod.Common.{
  ℕ, zero, suc, ◌+◌, ◌-◌, ◌/◌, ◌%◌, Option, none, some, ltb, ◌==◌, if◌then◌else◌, bug_on, ◌>>=◌,
  update, memcpy, min,
}
use pxmod.Conn.State.{
  PerCpuIds, FuseConn, fuse_max_request_ids, fuse_max_per_cpu_ids, u64_mod, slot,
}

-- The slow branch of fuse_get_unique: under the lock, move ids from the connection to the CPU.
unfoldable pub refill_ids : PerCpuIds → FuseConn → Option (PerCpuIds × FuseConn)
refill_ids my_ids fc = bug_on (fc.num_free_ids == 0) (
    let num_alloc = min fc.num_free_ids (fuse_max_per_cpu_ids / 2) in
    some (
      record my_ids {
        free_ids = memcpy my_ids.free_ids 0 fc.free_ids (fc.num_free_ids - num_alloc) num_alloc;
        num_free_ids = num_alloc;
      },
      record fc { num_free_ids = fc.num_free_ids - num_alloc },
    ))

-- A popped id is moved to its next generation; zero is special.
unfoldable pub next_generation : ℕ → ℕ
next_generation uid =
    let next = (uid + fuse_max_request_ids) % u64_mod in
    if next == 0 then (next + fuse_max_request_ids) % u64_mod else next

-- uid = my_ids->free_ids[--my_ids->num_free_ids], in its next generation.
unfoldable pub pop_id : ℕ → PerCpuIds → FuseConn → ℕ × FuseConn
unfolding next_generation
pop_id cpu my_ids fc =
    let top = my_ids.num_free_ids - 1 in
    (
      next_generation (my_ids.free_ids top),
      record fc { per_cpu_ids = update fc.per_cpu_ids cpu (record my_ids { num_free_ids = top }) },
    )

unfoldable pub fuse_get_unique : ℕ → FuseConn → Option (ℕ × FuseConn)
fuse_get_unique cpu fc = do
  let my_ids = fc.per_cpu_ids cpu
  (my_ids, fc) ← if my_ids.num_free_ids == 0 then refill_ids my_ids fc else some (my_ids, fc)
  some (pop_id cpu my_ids fc)

-- The slow branch of fuse_put_unique: under the lock, move half of the CPU's ids back.
unfoldable pub spill_ids : PerCpuIds → FuseConn → Option (PerCpuIds × FuseConn)
spill_ids my_ids fc =
    let num_free = fuse_max_per_cpu_ids / 2 in
    bug_on (ltb fuse_max_request_ids (fc.num_free_ids + num_free)) (
      some (
        record my_ids { num_free_ids = my_ids.num_free_ids - num_free },
        record fc {
          free_ids =
              memcpy fc.free_ids fc.num_free_ids my_ids.free_ids (my_ids.num_free_ids - num_free)
                num_free;
          num_free_ids = fc.num_free_ids + num_free;
        },
      ))

-- my_ids->free_ids[my_ids->num_free_ids++] = uid, and the slot of the map is cleared.
unfoldable pub push_id : ℕ → ℕ → PerCpuIds → FuseConn → FuseConn
push_id cpu uid my_ids fc = record fc {
  per_cpu_ids = update fc.per_cpu_ids cpu (record my_ids {
    free_ids = update my_ids.free_ids my_ids.num_free_ids uid;
    num_free_ids = suc my_ids.num_free_ids;
  });
  request_map = update fc.request_map (slot uid) none;
}

unfoldable pub fuse_put_unique : ℕ → ℕ → FuseConn → Option FuseConn
fuse_put_unique cpu uid fc = do
  let my_ids = fc.per_cpu_ids cpu
  (my_ids, fc) ←
      if my_ids.num_free_ids == fuse_max_per_cpu_ids then spill_ids my_ids fc else some (my_ids, fc)
  some (push_id cpu uid my_ids fc)

-- for (i = 0; i < n; ++i) free_ids[i] = FUSE_MAX_REQUEST_IDS - i - 1.
unfoldable pub fill_free_ids : ℕ → (ℕ → ℕ) → ℕ → ℕ
fill_free_ids zero free_ids = free_ids
fill_free_ids (suc i) free_ids = update (fill_free_ids i free_ids) i (fuse_max_request_ids - i - 1)
