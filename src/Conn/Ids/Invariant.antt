-- ===== src/Conn/Ids/Invariant.antt =====
-- Who owns an id slot: the connection's stack, the stack of one CPU, or a request in flight.
use pxmod.Common.{
  ℕ, suc, ◌+◌, ◌*◌, ◌/◌, min, ◌-◌, ◌≤◌, ◌<◌, ◌≡◌, ◌≢◌, arith, ◌==◌, one_if, Option, none, some,
  update, total, total-change,
}
use pxmod.Conn.State.{PerCpuIds, FuseConn, fuse_max_request_ids, fuse_max_per_cpu_ids, slot}
use pxmod.Conn.Ids.Alloc.{
  refill_ids, spill_ids, next_generation, pop_id, push_id, fuse_get_unique, fuse_put_unique,
}
use pxmod.Conn.Ids.Count.{occ, occ-push, occ-pop, occ-refill, occ-spill}

abbrev pub held : Option ℕ → ℕ
held none = 0
held (some r) = 1

abbrev pub on_cpu : (ℕ → PerCpuIds) → ℕ → ℕ → ℕ
on_cpu ids i c = occ i (ids c).free_ids (ids c).num_free_ids

abbrev pub free_on : (ℕ → PerCpuIds) → ℕ → ℕ
free_on ids c = (ids c).num_free_ids

abbrev pub in_flight : (ℕ → Option ℕ) → ℕ → ℕ
in_flight request_map i = held (request_map i)

-- How many owners the slot `i` has, with `n` CPUs.
abbrev pub owners : ℕ → FuseConn → ℕ → ℕ
owners n fc i =
    occ i fc.free_ids fc.num_free_ids
    + total (on_cpu fc.per_cpu_ids i) n
    + in_flight fc.request_map i

-- Every slot has one owner, no stack is over its size, and no id is lost.
pub record IdsInv (n : ℕ) (fc : FuseConn) : Type 0 where
  pub owned : (i : ℕ) → i < fuse_max_request_ids → owners n fc i ≡ 1
  pub bounded : (c : ℕ) → free_on fc.per_cpu_ids c ≤ fuse_max_per_cpu_ids
  pub conserved :
      fc.num_free_ids
        + total (free_on fc.per_cpu_ids) n
        + total (in_flight fc.request_map) fuse_max_request_ids
      ≡ fuse_max_request_ids

pub slot-next_generation : (uid : ℕ) → slot (next_generation uid) ≡ slot uid
unfolding next_generation
slot-next_generation uid = ground arith

pub next_generation-ne-zero : (uid : ℕ) → next_generation uid ≢ 0
unfolding next_generation
next_generation-ne-zero uid = ground arith

-- What the allocator leaves alone.
pub record Frame (fc fc' : FuseConn) : Type 0 where
  pub pending : fc'.pending ≡ fc.pending
  pub processing : fc'.processing ≡ fc.processing
  pub connected : fc'.connected ≡ fc.connected
  pub allow_disconnected : fc'.allow_disconnected ≡ fc.allow_disconnected
  pub count : fc'.count ≡ fc.count
  pub reqs : fc'.reqs ≡ fc.reqs
  pub trace : fc'.trace ≡ fc.trace

pub get-Frame :
    (cpu uid : ℕ) (fc fc' : FuseConn)
    → fuse_get_unique cpu fc ≡ some (uid, fc')
    → Frame fc fc' × (fc'.request_map ≡ fc.request_map)
unfolding fuse_get_unique refill_ids pop_id
get-Frame cpu uid fc fc' h = ground arith

pub put-Frame :
    (cpu uid : ℕ) (fc fc' : FuseConn)
    → fuse_put_unique cpu uid fc ≡ some fc'
    → Frame fc fc' × (fc'.request_map ≡ update fc.request_map (slot uid) none)
unfolding fuse_put_unique spill_ids push_id
put-Frame cpu uid fc fc' h = ground arith

-- One CPU's family of stacks against another that differs at `cpu` only.
module _ (n cpu : ℕ) (here : cpu < n) (ids : ℕ → PerCpuIds) (my_ids : PerCpuIds) where
  pub on_cpu-update :
      (i : ℕ)
      → total (on_cpu (update ids cpu my_ids) i) n + on_cpu ids i cpu
        ≡ total (on_cpu ids i) n + occ i my_ids.free_ids my_ids.num_free_ids
  on_cpu-update i = ground (
    arith,
    total-change (on_cpu (update ids cpu my_ids) i) (on_cpu ids i) n cpu here (λ c p. ground arith),
  )

  pub free_on-update :
      total (free_on (update ids cpu my_ids)) n + free_on ids cpu
      ≡ total (free_on ids) n + my_ids.num_free_ids
  free_on-update = ground (
    arith,
    total-change (free_on (update ids cpu my_ids)) (free_on ids) n cpu here (λ c p. ground arith),
  )

pub refill-occ :
    (i : ℕ) (my_ids my_ids' : PerCpuIds) (fc fc' : FuseConn)
    → refill_ids my_ids fc ≡ some (my_ids', fc')
    → (occ i my_ids'.free_ids my_ids'.num_free_ids + occ i fc'.free_ids fc'.num_free_ids
        ≡ occ i fc.free_ids fc.num_free_ids)
      × (my_ids'.num_free_ids + fc'.num_free_ids ≡ fc.num_free_ids)
      × (0 < my_ids'.num_free_ids)
      × (my_ids'.num_free_ids ≤ 128)
      × (fc'.per_cpu_ids ≡ fc.per_cpu_ids)
      × (fc'.request_map ≡ fc.request_map)
unfolding refill_ids
refill-occ i my_ids my_ids' fc fc' h = ground (
  arith,
  occ-refill i my_ids.free_ids fc.free_ids fc.num_free_ids
      (min fc.num_free_ids (fuse_max_per_cpu_ids / 2)),
)

pub spill-occ :
    (i : ℕ) (my_ids my_ids' : PerCpuIds) (fc fc' : FuseConn)
    → my_ids.num_free_ids ≡ fuse_max_per_cpu_ids
    → spill_ids my_ids fc ≡ some (my_ids', fc')
    → (occ i my_ids'.free_ids my_ids'.num_free_ids + occ i fc'.free_ids fc'.num_free_ids
        ≡ occ i my_ids.free_ids my_ids.num_free_ids + occ i fc.free_ids fc.num_free_ids)
      × (my_ids'.num_free_ids + fc'.num_free_ids ≡ my_ids.num_free_ids + fc.num_free_ids)
      × (my_ids'.num_free_ids ≡ 128)
      × (fc'.per_cpu_ids ≡ fc.per_cpu_ids)
      × (fc'.request_map ≡ fc.request_map)
unfolding spill_ids
spill-occ i my_ids my_ids' fc fc' full h = ground (
  arith,
  occ-spill i fc.free_ids my_ids.free_ids fc.num_free_ids my_ids.num_free_ids
      (fuse_max_per_cpu_ids / 2),
)

-- Popping an id from a stack that stands for the CPU's.
pub pop-owners :
    (n cpu i uid : ℕ) (my_ids : PerCpuIds) (fc fc' : FuseConn)
    → cpu < n
    → 0 < my_ids.num_free_ids
    → pop_id cpu my_ids fc ≡ (uid, fc')
    → (owners n fc' i + one_if (slot uid == i) + on_cpu fc.per_cpu_ids i cpu
        ≡ owners n fc i + occ i my_ids.free_ids my_ids.num_free_ids)
      × (total (free_on fc'.per_cpu_ids) n + 1 + free_on fc.per_cpu_ids cpu
          ≡ total (free_on fc.per_cpu_ids) n + my_ids.num_free_ids)
      × (uid ≢ 0)
unfolding pop_id
pop-owners n cpu i uid my_ids fc fc' here some_left h =
    let top = my_ids.num_free_ids - 1 in
    let popped = record my_ids { num_free_ids = top } in
    ground (
      arith,
      on_cpu-update n cpu here fc.per_cpu_ids popped i,
      free_on-update n cpu here fc.per_cpu_ids popped,
      occ-pop i my_ids.free_ids my_ids.num_free_ids some_left,
      slot-next_generation (my_ids.free_ids top),
      next_generation-ne-zero (my_ids.free_ids top),
    )

pub push-owners :
    (n cpu i uid : ℕ) (my_ids : PerCpuIds) (fc : FuseConn)
    → cpu < n
    → (owners n (push_id cpu uid my_ids fc) i
          + on_cpu fc.per_cpu_ids i cpu
          + one_if (slot uid == i) * held (fc.request_map i)
        ≡ owners n fc i + occ i my_ids.free_ids my_ids.num_free_ids + one_if (slot uid == i))
      × (total (free_on (push_id cpu uid my_ids fc).per_cpu_ids) n + free_on fc.per_cpu_ids cpu
          ≡ total (free_on fc.per_cpu_ids) n + my_ids.num_free_ids + 1)
unfolding push_id
push-owners n cpu i uid my_ids fc here =
    let pushed = record my_ids {
      free_ids = update my_ids.free_ids my_ids.num_free_ids uid;
      num_free_ids = suc my_ids.num_free_ids;
    } in
    ground (
      arith,
      on_cpu-update n cpu here fc.per_cpu_ids pushed i,
      free_on-update n cpu here fc.per_cpu_ids pushed,
      occ-push i my_ids.free_ids my_ids.num_free_ids uid,
    )
