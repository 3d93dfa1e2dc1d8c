-- ===== src/Tests/Clones.antt =====
-- A write to two replicas, of which the second fails first.
use pxmod.Common.{ℕ, ◌≡◌, ◌==◌, refl, arith, true, some, [], ◌∷◌, if◌then◌else◌, occurs-cons}
use pxmod.Common.Int.{ℤ, pos, eio}
use pxmod.Device.State.{Device}
use pxmod.Device.Requests.{req_op_write}
use pxmod.Fastpath.Clones.{CloneIo, fp_handle_io, end_clones}
use pxmod.Fastpath.Clones.Laws.{Finished}
use pxmod.Fastpath.Clones.Io.{mapped, fast_io_lem}
use pxmod.Tests.Paths.{fast_device}

abbrev two_replicas : Device
two_replicas = record fast_device {
  fp = record (fast_device.fp) {
    nfd = 2;
    file = λ i. if i == 0 then some 5 else some 6;
    can_failover = true;
    open_files = 6 ∷ 5 ∷ [];
  };
}

abbrev new_io : CloneIo
new_io = record {
  dev = two_replicas;
  root = record { magic = true; clones = []; status = λ i. pos 0; nactive = 0 };
  endings = [];
  failovers = 0;
}

abbrev second_fails : ℕ → ℤ
second_fails i = if i == 1 then eio else pos 0

fast_io_lem_example :
    (io' : CloneIo) × (end_clones second_fails
        (1 ∷ 0 ∷ [])
        (fp_handle_io req_op_write (pos 0) (λ i. true) new_io)
      ≡ some io')
    × Finished second_fails
        (mapped req_op_write
          (λ i. true)
          second_fails
          (1 ∷ 0 ∷ [])
          new_io
          refl
          (omega arith)
          (λ i. refl)
          refl)
        io'
fast_io_lem_example =
    fast_io_lem req_op_write (λ i. true) second_fails (1 ∷ 0 ∷ []) new_io refl (omega arith)
      (λ i. refl) refl refl (λ i p. ground (arith, occurs-cons i 1 (0 ∷ []), occurs-cons i 0 []))
