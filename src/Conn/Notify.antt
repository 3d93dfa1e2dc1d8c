-- ===== src/Conn/Notify.antt =====
-- dev.c: fuse_notify and its handlers: messages of a process that are not replies. The operations
-- of pxd.c that they call are an interface.
pub mod ReadData
use pxmod.Common.{
  ℕ, ◌+◌, Bool, true, false, Option, none, some, List, [], ◌∷◌, ◌==◌, if◌then◌else◌, ◌||◌, length,
  inl, inr, ◌⊎◌,
}
use pxmod.Common.Int.{ℤ, pos, negsuc, efault, einval, enoent}
use pxmod.Conn.State.{FuseConn}
use pxmod.Conn.Opcode.{
  pxd_write, pxd_write_same, pxd_add_code, pxd_remove_code, pxd_read_data, pxd_update_size_code,
  pxd_add_ext, pxd_get_features, pxd_suspend_code, pxd_resume_code, pxd_failover_to_userspace,
  pxd_fallback_to_kernel, pxd_export_dev,
}
use pxmod.Conn.Requests.{request_find}
use pxmod.Conn.Source.{UserSource}
use pxmod.Conn.Source.Layout.{
  AddExtOut, RemoveOut, UpdateSize, add_out_size, add_ext_out_size, load_add_ext_out,
  load_remove_out, load_update_size, load_suspend, load_u64, load_read_data_out,
}
use pxmod.Conn.Notify.ReadData.{UserDest, fuse_notify_read_data}

-- What pxd.c offers to dev.c, for a context of the type `Ctx`; a device is a number.
pub record DeviceOps (Ctx : Type 0) : Type 0 where
  pub find_pxd_device : ℕ → Ctx → Option ℕ
  pub pxd_add : AddExtOut → Ctx → ℤ × Ctx
  pub pxd_remove : RemoveOut → Ctx → ℤ × Ctx
  pub pxd_update_size : UpdateSize → Ctx → ℤ × Ctx
  pub pxd_export : ℕ → Ctx → ℤ × Ctx
  pub pxd_request_suspend : ℕ → Bool → Bool → Ctx → ℤ × Ctx
  pub pxd_request_resume : ℕ → Ctx → ℤ × Ctx
  pub pxd_request_ioswitch : ℕ → ℕ → Ctx → ℤ × Ctx
  pub pxd_supported_features : ℤ

-- O_LARGEFILE | O_RDWR | O_NOATIME.
abbrev pub default_open_mode : ℕ
default_open_mode = 32768 + 2 + 262144

module _ (source : UserSource) {Ctx : Type 0} (ops : DeviceOps Ctx) where
  open source use {Src, copy_from_iter}

  -- The copy of a structure of `len` bytes, or -EFAULT.
  abbrev with_arg : ℕ → Src → Ctx → (List ℕ → ℤ × Ctx) → ℤ × Ctx
  with_arg len it ctx handle =
      let (b, it) = copy_from_iter len it in if length b == len then handle b else (efault, ctx)

  -- The device that the message names, or -EINVAL.
  abbrev with_device : ℕ → Ctx → (ℕ → ℤ × Ctx) → ℤ × Ctx
  with_device dev_id ctx handle = elim (ops.find_pxd_device dev_id ctx) [
    | none ↦ (einval, ctx)
    | some dev ↦ handle dev
  ]

  unfoldable pub fuse_notify_add : Src → Ctx → ℤ × Ctx
  unfolding load_add_ext_out
  fuse_notify_add it ctx =
      with_arg add_out_size it ctx
        (λ b. ops.pxd_add (record (load_add_ext_out b) { open_mode = default_open_mode }) ctx)

  unfoldable pub fuse_notify_add_ext : Src → Ctx → ℤ × Ctx
  unfolding load_add_ext_out
  fuse_notify_add_ext it ctx =
      with_arg add_ext_out_size it ctx (λ b. ops.pxd_add (load_add_ext_out b) ctx)

  unfoldable pub fuse_notify_remove : Src → Ctx → ℤ × Ctx
  unfolding load_remove_out
  fuse_notify_remove it ctx = with_arg 16 it ctx (λ b. ops.pxd_remove (load_remove_out b) ctx)

  unfoldable pub fuse_notify_update_size : Src → Ctx → ℤ × Ctx
  unfolding load_update_size
  fuse_notify_update_size it ctx =
      with_arg 24 it ctx (λ b. ops.pxd_update_size (load_update_size b) ctx)

  unfoldable pub fuse_notify_get_features : Ctx → ℤ × Ctx
  fuse_notify_get_features ctx = (ops.pxd_supported_features, ctx)

  unfoldable pub fuse_notify_suspend : Src → Ctx → ℤ × Ctx
  unfolding load_suspend
  fuse_notify_suspend it ctx = with_arg 16 it ctx (λ b.
      let req = load_suspend b in
      with_device req.dev_id ctx
        (λ d. ops.pxd_request_suspend d req.skip_flush req.continue_on_error ctx))

  unfoldable pub fuse_notify_resume : Src → Ctx → ℤ × Ctx
  unfolding load_u64
  fuse_notify_resume it ctx =
      with_arg 8 it ctx (λ b. with_device (load_u64 b 0) ctx (λ d. ops.pxd_request_resume d ctx))

  unfoldable pub fuse_notify_ioswitch_event : Bool → Src → Ctx → ℤ × Ctx
  unfolding load_u64
  fuse_notify_ioswitch_event failover it ctx = with_arg 8 it ctx (λ b.
      with_device (load_u64 b 0) ctx (λ d.
        ops.pxd_request_ioswitch d
          (if failover then pxd_failover_to_userspace else pxd_fallback_to_kernel) ctx))

  unfoldable pub fuse_notify_export : Src → Ctx → ℤ × Ctx
  unfolding load_u64
  fuse_notify_export it ctx = with_arg 8 it ctx (λ b. ops.pxd_export (load_u64 b 0) ctx)

  -- The messages that do not look at the connection's requests.
  unfoldable pub notify_device : ℕ → Src → Ctx → ℤ × Ctx
  unfolding fuse_notify_add fuse_notify_add_ext fuse_notify_remove fuse_notify_update_size
      fuse_notify_get_features fuse_notify_suspend fuse_notify_resume fuse_notify_ioswitch_event
      fuse_notify_export
  notify_device code it ctx =
      if code == pxd_add_code
      then fuse_notify_add it ctx
      else if code == pxd_remove_code
      then fuse_notify_remove it ctx
      else if code == pxd_update_size_code
      then fuse_notify_update_size it ctx
      else if code == pxd_add_ext
      then fuse_notify_add_ext it ctx
      else if code == pxd_get_features
      then fuse_notify_get_features ctx
      else if code == pxd_suspend_code
      then fuse_notify_suspend it ctx
      else if code == pxd_resume_code
      then fuse_notify_resume it ctx
      else if code == pxd_failover_to_userspace
      then fuse_notify_ioswitch_event true it ctx
      else if code == pxd_fallback_to_kernel
      then fuse_notify_ioswitch_event false it ctx
      else if code == pxd_export_dev
      then fuse_notify_export it ctx
      else (einval, ctx)

  -- The switch on the code, which is signed; what is written to the user's memory is a result.
  unfoldable pub fuse_notify :
      (dest : UserDest) → FuseConn → ℤ → Src → dest.Mem → Ctx → Option (ℤ × dest.Mem × Ctx)
  unfolding notify_device
  fuse_notify dest fc (negsuc c) it mem ctx = some (einval, mem, ctx)
  fuse_notify dest fc (pos c) it mem ctx =
      if c == pxd_read_data
      then elim (fuse_notify_read_data source dest fc it mem) [
        | none ↦ none
        | some (err, mem) ↦ some (err, mem, ctx)
      ]
      else (let (err, ctx) = notify_device c it ctx in some (err, mem, ctx))
