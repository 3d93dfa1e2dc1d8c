-- ===== src/Fastpath/Clones/Io.antt =====
-- A request on the fast path, from its work item to the end of its last clone.
use pxmod.Common.{
  ℕ, zero, suc, ◌+◌, ◌≤◌, ◌<◌, ◌≡◌, ◌⊎◌, inl, inr, refl, ap, ◌∙◌, arith, Bool, true, some, List, [],
  ◌∷◌, length, min, occurs, occurs-cons, occurs-nil, if◌then◌else◌,
}
use pxmod.Common.Int.{ℤ, pos}
use pxmod.Device.Requests.{BlockOp}
use pxmod.Fastpath.Clones.{
  CloneIo, clone_ok, clone_files, supported, is_read, clone_and_map, fp_handle_io, end_refused,
  end_clones,
}
use pxmod.Fastpath.Clones.Laws.{Finished, end_clones_lem}

-- A clone for each file from `i` on, if each can be made.
clone_files_lem :
    (alloc : ℕ → Bool) (i n : ℕ) (clones : List ℕ)
    → ((j : ℕ) → alloc j ≡ true)
    → ((clone_files alloc i n clones).0 ≡ true)
      × (length (clone_files alloc i n clones).1 ≡ n + length clones)
      × ((j : ℕ)
          → 0 < occurs j (clone_files alloc i n clones).1
          → (0 < occurs j clones) ⊎ ((i ≤ j) × (j < i + n)))
unfolding clone_files
clone_files_lem alloc i zero clones all = (refl, omega arith, λ j p. inl p)
clone_files_lem alloc i (suc n) clones all =
    let (a, b, c) = clone_files_lem alloc (suc i) n (i ∷ clones) all in
    simp (all i) (
      a,
      omega (arith, b),
      λ j p. elim (c j p) [
        | inl made ↦ ground (arith, occurs-cons j i clones, made)
        | inr later ↦ inr (omega (arith, later), omega (arith, later))
      ],
    )

module _ (op : BlockOp) (alloc : ℕ → Bool) (status : ℕ → ℤ) (order : List ℕ) (io : CloneIo)
    (known : supported op ≡ true) (some_file : 0 < io.dev.fp.nfd)
    (memory : (i : ℕ) → alloc i ≡ true) (magic : io.root.magic ≡ true) where
  -- One replica is enough for a read.
  abbrev pub replicas : ℕ
  replicas = if is_read op then min io.dev.fp.nfd 1 else io.dev.fp.nfd

  abbrev pub made : List ℕ
  made = (clone_files alloc 0 replicas []).1

  -- The clones have been dispatched.
  abbrev pub mapped : CloneIo
  mapped = record io {
    dev = record (io.dev) { ncount = io.dev.ncount + 1 };
    root = record (io.root) { clones = made; nactive = length made };
  }

  mapped-run : clone_and_map op (pos 0) alloc io ≡ (clone_ok, mapped)
  unfolding clone_and_map
  mapped-run = let good = (clone_files_lem alloc 0 replicas [] memory).0 in simp (known, good)

  handled : fp_handle_io op (pos 0) alloc io ≡ mapped
  unfolding fp_handle_io end_refused
  handled = ap end_refused mapped-run

  -- A request of a supported kind, on a device with a file, with memory for its clones and nothing
  -- to prepare that fails: in whatever order its clones end, each of them once and with a status of
  -- its own, the BUG_ON of the end of a clone is not met. Its status is -EIO if the device is made
  -- to fail, and if not, that of the first clone of its list that failed, or 0 if none did. When the
  -- last clone has ended, the request is handed to a failover, once, if the status is -EIO and the
  -- device can fail over, and is ended with the status, once, if not.
  pub fast_io_lem :
      length order ≡ replicas
      → ((i : ℕ) → i < replicas → 0 < occurs i order)
      → (io' : CloneIo) × (end_clones status order (fp_handle_io op (pos 0) alloc io) ≡ some io')
        × Finished status mapped io'
  fast_io_lem each_once each =
      let (good, count, within) = clone_files_lem alloc 0 replicas [] memory in
      let left : mapped.root.nactive ≡ length order = omega (arith, count, each_once) in
      let some_left : 0 < length order = ground (arith, each_once, some_file) in
      let (io', e, finished) = end_clones_lem status order mapped magic left some_left (λ i p.
        elim (within i p) [
          | inl nothing ↦ absurd (omega (arith, occurs-nil i, nothing))
          | inr range ↦ inl (each i (omega (arith, range)))
        ]) in
      (io', ap (end_clones status order) handled ∙ e, finished)
