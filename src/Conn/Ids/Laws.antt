-- ===== src/Conn/Ids/Laws.antt =====
-- fuse_get_unique and fuse_put_unique (dev.c), and the owners of the id slots.
use native.Mathlib.Decide.{ℕ_discrete as dec_eq}
use pxmod.Common.{
  ℕ, ◌+◌, ◌*◌, ◌≤◌, ◌<◌, ◌≡◌, ◌≢◌, refl, arith, ◌==◌, one_if, none, some, update, total,
  total-change, total-le-mul, le-total, inl, inr, Bool-cases, Option-cases, ◌⊎◌,
}
use pxmod.Conn.State.{PerCpuIds, FuseConn, fuse_max_request_ids, fuse_max_per_cpu_ids, slot}
use pxmod.Conn.Ids.Alloc.{refill_ids, spill_ids, pop_id, push_id, fuse_get_unique, fuse_put_unique}
use pxmod.Conn.Ids.Count.{occ, occ-zero}
use pxmod.Conn.Ids.Invariant.{
  IdsInv, owners, on_cpu, free_on, in_flight, refill-occ, spill-occ, pop-owners, push-owners,
}

-- An id that is out of the stacks, and not yet in the map.
pub record Taken (n uid : ℕ) (fc : FuseConn) : Type 0 where
  pub owned : (i : ℕ) → i < fuse_max_request_ids → owners n fc i + one_if (slot uid == i) ≡ 1
  pub bounded : (c : ℕ) → free_on fc.per_cpu_ids c ≤ fuse_max_per_cpu_ids
  pub conserved :
      fc.num_free_ids
        + total (free_on fc.per_cpu_ids) n
        + total (in_flight fc.request_map) fuse_max_request_ids
        + 1
      ≡ fuse_max_request_ids
  pub nonzero : uid ≢ 0

module _ (n cpu : ℕ) (here : cpu < n) where
  -- The fast branch and the slow one, both as a pop from a stack `my_ids`.
  pop-Taken :
      (uid : ℕ) (my_ids : PerCpuIds) (fc fc₁ fc' : FuseConn)
      → IdsInv n fc
      → ((i : ℕ)
          → occ i my_ids.free_ids my_ids.num_free_ids + occ i fc₁.free_ids fc₁.num_free_ids
            ≡ on_cpu fc.per_cpu_ids i cpu + occ i fc.free_ids fc.num_free_ids)
      → my_ids.num_free_ids + fc₁.num_free_ids ≡ free_on fc.per_cpu_ids cpu + fc.num_free_ids
      → 0 < my_ids.num_free_ids
      → my_ids.num_free_ids ≤ fuse_max_per_cpu_ids
      → fc₁.per_cpu_ids ≡ fc.per_cpu_ids
      → fc₁.request_map ≡ fc.request_map
      → pop_id cpu my_ids fc₁ ≡ (uid, fc')
      → Taken n uid fc'
  unfolding pop_id
  pop-Taken uid my_ids fc fc₁ fc' inv moved kept left small pc rm h = record {
    owned = λ i p.
        ground (arith, inv.owned i p, moved i, pop-owners n cpu i uid my_ids fc₁ fc' here left h);
    bounded = λ c. ground (arith, inv.bounded c);
    conserved = ground (arith, inv.conserved, pop-owners n cpu 0 uid my_ids fc₁ fc' here left h);
    nonzero = λ z. ground (arith, pop-owners n cpu 0 uid my_ids fc₁ fc' here left h);
  }

  get-cases :
      (uid : ℕ) (fc fc' : FuseConn)
      → fuse_get_unique cpu fc ≡ some (uid, fc')
      → (((fc.per_cpu_ids cpu).num_free_ids ≢ 0)
          × (pop_id cpu (fc.per_cpu_ids cpu) fc ≡ (uid, fc')))
        ⊎ ((my_ids : PerCpuIds) × (fc₁ : FuseConn) × ((fc.per_cpu_ids cpu).num_free_ids ≡ 0)
            × (refill_ids (fc.per_cpu_ids cpu) fc ≡ some (my_ids, fc₁))
            × (pop_id cpu my_ids fc₁ ≡ (uid, fc')))
  unfolding fuse_get_unique
  get-cases uid fc fc' h = elim (Bool-cases ((fc.per_cpu_ids cpu).num_free_ids == 0)) [
    | inl empty ↦ elim (Option-cases (refill_ids (fc.per_cpu_ids cpu) fc)) [
      | inl stop ↦ ground arith
      | inr ((my_ids, fc₁), r) ↦ inr (my_ids, fc₁, ground arith, r, ground arith)
    ]
    | inr stocked ↦ inl (ground arith, ground arith)
  ]

  -- An id that is handed out from a state with one owner for each slot is not 0; its own slot has
  -- no other owner any more, and each other slot still has one.
  pub get-Taken :
      (uid : ℕ) (fc fc' : FuseConn)
      → IdsInv n fc
      → fuse_get_unique cpu fc ≡ some (uid, fc')
      → Taken n uid fc'
  get-Taken uid fc fc' inv h = elim (get-cases uid fc fc' h) [
    | inl (stocked, p) ↦
        pop-Taken uid _ fc fc fc' inv (λ i. refl) refl (omega arith) (inv.bounded cpu) refl refl p
    | inr (my_ids, fc₁, empty, r, p) ↦
        let f = λ (i : ℕ). refill-occ i _ my_ids fc fc₁ r in
        pop-Taken uid my_ids fc fc₁ fc' inv
          (λ i. ground (arith, f i, occ-zero i (fc.per_cpu_ids cpu).free_ids)) (omega (arith, f 0))
          (omega (arith, f 0)) (omega (arith, f 0)) (f 0).4 (f 0).5 p
  ]

  get-ne-none :
      (fc : FuseConn)
      → IdsInv n fc
      → total (in_flight fc.request_map) fuse_max_request_ids + fuse_max_per_cpu_ids * n
        < fuse_max_request_ids
      → fuse_get_unique cpu fc ≢ none
  unfolding fuse_get_unique refill_ids
  get-ne-none fc inv room = ground (
    arith,
    inv.conserved,
    total-le-mul (free_on fc.per_cpu_ids) n fuse_max_per_cpu_ids inv.bounded,
  )

  -- As long as the caches of all CPUs and the requests in flight do not cover all ids, an id is
  -- found: the BUG_ON is not met.
  pub get-runs :
      (fc : FuseConn)
      → IdsInv n fc
      → total (in_flight fc.request_map) fuse_max_request_ids + fuse_max_per_cpu_ids * n
        < fuse_max_request_ids
      → (uid : ℕ) × (fc' : FuseConn) × (fuse_get_unique cpu fc ≡ some (uid, fc'))
  get-runs fc inv room = elim (Option-cases (fuse_get_unique cpu fc)) [
    | inl stop ↦ absurd (get-ne-none fc inv room stop)
    | inr ((uid, fc'), e) ↦ (uid, fc', e)
  ]

  put-cases :
      (uid : ℕ) (fc : FuseConn)
      → (((fc.per_cpu_ids cpu).num_free_ids ≢ fuse_max_per_cpu_ids)
          × (fuse_put_unique cpu uid fc ≡ some (push_id cpu uid (fc.per_cpu_ids cpu) fc)))
        ⊎ (((fc.per_cpu_ids cpu).num_free_ids ≡ fuse_max_per_cpu_ids)
            × (spill_ids (fc.per_cpu_ids cpu) fc ≡ none))
        ⊎ ((my_ids : PerCpuIds) × (fc₁ : FuseConn) × ((fc.per_cpu_ids cpu).num_free_ids
              ≡ fuse_max_per_cpu_ids)
            × (spill_ids (fc.per_cpu_ids cpu) fc ≡ some (my_ids, fc₁))
            × (fuse_put_unique cpu uid fc ≡ some (push_id cpu uid my_ids fc₁)))
  unfolding fuse_put_unique
  put-cases uid fc = elim (dec_eq (fc.per_cpu_ids cpu).num_free_ids fuse_max_per_cpu_ids) [
    | yes full ↦ elim (Option-cases (spill_ids (fc.per_cpu_ids cpu) fc)) [
      | inl stop ↦ inr (inl (full, stop))
      | inr ((my_ids, fc₁), r) ↦ inr (inr (my_ids, fc₁, full, r, ground arith))
    ]
    | no some_room ↦ inl (some_room, ground arith)
  ]

  -- Spilling never overflows the connection's stack.
  spill-ne-none :
      (fc : FuseConn)
      → IdsInv n fc
      → (fc.per_cpu_ids cpu).num_free_ids ≡ fuse_max_per_cpu_ids
      → spill_ids (fc.per_cpu_ids cpu) fc ≢ none
  unfolding spill_ids
  spill-ne-none fc inv full =
      ground (arith, inv.conserved, le-total (free_on fc.per_cpu_ids) n cpu here)

  push-IdsInv :
      (uid r : ℕ) (my_ids : PerCpuIds) (fc fc₁ : FuseConn)
      → IdsInv n fc
      → fc.request_map (slot uid) ≡ some r
      → ((i : ℕ)
          → occ i my_ids.free_ids my_ids.num_free_ids + occ i fc₁.free_ids fc₁.num_free_ids
            ≡ on_cpu fc.per_cpu_ids i cpu + occ i fc.free_ids fc.num_free_ids)
      → my_ids.num_free_ids + fc₁.num_free_ids ≡ free_on fc.per_cpu_ids cpu + fc.num_free_ids
      → my_ids.num_free_ids < fuse_max_per_cpu_ids
      → fc₁.per_cpu_ids ≡ fc.per_cpu_ids
      → fc₁.request_map ≡ fc.request_map
      → IdsInv n (push_id cpu uid my_ids fc₁)
  unfolding push_id
  push-IdsInv uid r my_ids fc fc₁ inv used moved kept small pc rm = record {
    owned = λ i p. ground (arith, inv.owned i p, moved i, push-owners n cpu i uid my_ids fc₁ here);
    bounded = λ c. ground (arith, inv.bounded c);
    conserved = ground (
      arith,
      inv.conserved,
      push-owners n cpu 0 uid my_ids fc₁ here,
      total-change (in_flight (update fc.request_map (slot uid) none)) (in_flight fc.request_map)
          fuse_max_request_ids (slot uid) (omega arith) (λ c p. ground arith),
    );
  }

  -- Giving back the id of a request that is in flight clears its slot of the map, and the id has
  -- one owner again. The BUG_ON is not met.
  pub put-IdsInv :
      (uid r : ℕ) (fc : FuseConn)
      → IdsInv n fc
      → fc.request_map (slot uid) ≡ some r
      → (fc' : FuseConn) × (fuse_put_unique cpu uid fc ≡ some fc') × IdsInv n fc'
  put-IdsInv uid r fc inv used = elim (put-cases uid fc) [
    | inl (some_room, e) ↦ (
      push_id cpu uid (fc.per_cpu_ids cpu) fc,
      e,
      push-IdsInv uid r _ fc fc inv used (λ i. refl) refl (omega (arith, inv.bounded cpu)) refl
          refl,
    )
    | inr (inl (full, stop)) ↦ absurd (spill-ne-none fc inv full stop)
    | inr (inr (my_ids, fc₁, full, s, e)) ↦
        let f = λ (i : ℕ). spill-occ i _ my_ids fc fc₁ full s in
        (
          push_id cpu uid my_ids fc₁,
          e,
          push-IdsInv uid r my_ids fc fc₁ inv used (λ i. (f i).0) (f 0).1 (omega (arith, f 0))
              (f 0).3 (f 0).4,
        )
  ]
