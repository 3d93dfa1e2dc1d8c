-- ===== src/Conn/Notify/ReadData.antt =====
-- dev.c: PXD_READ_DATA: a process asks for the data of a write request that it is serving.
use pxmod.Common.{
  ℕ, zero, suc, ◌+◌, ◌-◌, ◌*◌, ◌%◌, min, Option, none, some, List, [], ◌∷◌, ◌==◌, if◌then◌else◌,
  ◌||◌, not, length, leb, ltb, inl, inr, ◌⊎◌,
}
use pxmod.Common.Int.{ℤ, pos, negsuc, efault, einval, enoent}
use pxmod.Conn.State.{FuseConn, FuseReq}
use pxmod.Conn.Opcode.{pxd_write, pxd_write_same}
use pxmod.Conn.Requests.{request_find}
use pxmod.Conn.Source.{UserSource}
use pxmod.Conn.Source.Layout.{ReadDataOut, load_read_data_out, load_u64}

-- The kernel's iov_iter over an array of iovec, as a destination in the user's memory.
-- copy_page_to_iter takes the bytes of a segment, an offset into it and a length.
pub record UserDest : Type 1 where
  pub Mem : Type 0
  pub Dest : Type 0
  pub iov_iter_init : List (ℕ × ℕ) → Mem → Dest
  pub iov_iter_advance : ℕ → Dest → Dest
  pub copy_page_to_iter : List ℕ → ℕ → ℕ → Dest → ℕ × Dest
  pub memory : Dest → Mem

abbrev pub iov_buf_size : ℕ
iov_buf_size = 64

-- `n` structures iovec: a base and a length each.
unfoldable pub load_iovecs : ℕ → List ℕ → ℕ → List (ℕ × ℕ)
unfolding load_u64
load_iovecs zero b i = []
load_iovecs (suc n) b i = (load_u64 b i, load_u64 b (i + 8)) ∷ load_iovecs n b (i + 16)

-- What is skipped so far after a segment of `len` bytes, and where in the segment the copy begins.
unfoldable pub skip_segment : ℕ → ℕ → ℕ → ℕ × ℕ
skip_segment offset skipped len =
    if ltb skipped offset
    then (if leb len (offset - skipped) then (skipped + len, len) else (offset, offset - skipped))
    else (skipped, 0)

module _ (source : UserSource) (dest : UserDest) where
  open source use {Src, count, copy_from_iter}
  open dest use {Mem, Dest, iov_iter_init, iov_iter_advance, copy_page_to_iter, memory}

  -- The next iovecs, at most 64 of them: an error, or the iovecs still to come, the rest of the
  -- message and the destination. With a negative count the length is huge: `none` is a copy
  -- of more bytes than the array on the stack has, and of a shorter message all is copied.
  unfoldable pub copy_in_read_data_iovec : ℤ → Src → Mem → Option (ℤ ⊎ (ℤ × Src × Dest))
  unfolding load_iovecs
  copy_in_read_data_iovec (negsuc n) it mem =
      if leb (count it) (iov_buf_size * 16) then some (inl efault) else none
  copy_in_read_data_iovec (pos iovcnt) it mem =
      if iovcnt == 0
      then some (inl efault)
      else (let n = min iovcnt iov_buf_size in
          let (b, it) = copy_from_iter (n * 16) it in
          if length b == n * 16
          then some (inr (pos (iovcnt - n), it, iov_iter_init (load_iovecs n b 0) mem))
          else some (inl efault))

  -- rq_for_each_segment: the result, and the destination.
  unfoldable pub copy_segments : ℕ → List (List ℕ) → ℕ → ℤ → Src → Dest → Option (ℤ × Mem)
  unfolding skip_segment copy_in_read_data_iovec
  copy_segments offset [] skipped iovcnt it d = some (pos 0, memory d)
  copy_segments offset (p ∷ segments) skipped iovcnt it d =
      let len = length p in
      let (skipped, copied) = skip_segment offset skipped len in
      let (copy_this, d') = copy_page_to_iter p copied (len - copied) d in
      let next = copy_segments offset segments skipped in
      if not (ltb copied len)
      then next iovcnt it d
      else if copy_this == len - copied
      then next iovcnt it d'
      else if count it == 0
      then some (pos 0, memory d')
      else elim (copy_in_read_data_iovec iovcnt it (memory d')) [
        | none ↦ none
        | some (inl err) ↦ some (err, memory d')
        | some (inr (iovcnt', it', d₂)) ↦
            (let (copied', d₃) = copy_page_to_iter p (copied + copy_this) (len - copied) d₂ in
              let rest = next iovcnt' it' d₃ in
              if copied' == len - copied then rest else some (efault, memory d₃))
      ]

  unfoldable pub notify_read_data : FuseReq → ReadDataOut → Src → Mem → Option (ℤ × Mem)
  unfolding copy_segments copy_in_read_data_iovec
  notify_read_data req read_data it mem = elim (copy_in_read_data_iovec read_data.iovcnt it mem) [
    | none ↦ none
    | some (inl err) ↦ some (err, mem)
    | some (inr (iovcnt, it, d)) ↦
        (let unaligned = req.rdwr_in.offset % 4096 in
          copy_segments read_data.offset req.segments 0 iovcnt it
            (if unaligned == 0 then d else iov_iter_advance unaligned d))
  ]

  unfoldable pub fuse_notify_read_data : FuseConn → Src → Mem → Option (ℤ × Mem)
  unfolding notify_read_data load_read_data_out
  fuse_notify_read_data fc it mem =
      let (b, it) = copy_from_iter 16 it in
      if not (length b == 16)
      then some (efault, mem)
      else (let read_data = load_read_data_out b in
          elim (request_find fc read_data.unique) [
            | none ↦ some (enoent, mem)
            | some r ↦
                (let run = notify_read_data (fc.reqs r) read_data it mem in
                  if (fc.reqs r).opcode == pxd_write || (fc.reqs r).opcode == pxd_write_same
                  then run
                  else some (einval, mem))
          ])
