-- ===== src/Conn/Iter.antt =====
-- The kernel's iov_iter, as far as the driver relies on it: a buffer in user memory with `count`
-- bytes left. What copy_to_iter copies is described by the part of a request that it is.
use pxmod.Common.{ℕ, ◌+◌, ◌-◌, ◌≤◌, ◌≡◌, refl, true, arith, List, ◌∷◌, leb, if◌then◌else◌}
use pxmod.Conn.State.{FuseReq, RdwrIn}

pub data Chunk : Type 0 where
  header : FuseReq → Chunk  -- req->in.h
  argument : RdwrIn → Chunk  -- req->pxd_rdwr_in, which in.args[0] points to

-- A copy may stop early, at a page that is not mapped; it never goes past `count`.
pub record IovIter : Type 1 where
  pub Iter : Type 0
  pub count : Iter → ℕ
  pub chunks : Iter → List Chunk  -- what was copied as a whole, latest first
  pub copy_to_iter : Chunk → ℕ → Iter → ℕ × Iter
  pub copied-le : (c : Chunk) (len : ℕ) (it : Iter) → (copy_to_iter c len it).0 ≤ len
  pub count-copy :
      (c : Chunk) (len : ℕ) (it : Iter)
      → count (copy_to_iter c len it).1 + (copy_to_iter c len it).0 ≡ count it

-- A buffer that is mapped as a whole: every copy that fits succeeds.
abbrev pub IsMapped : IovIter → Type 0
IsMapped io =
    (c : Chunk) (len : ℕ) (it : io.Iter)
    → len ≤ io.count it
    → ((io.copy_to_iter c len it).0 ≡ len)
      × (io.chunks (io.copy_to_iter c len it).1 ≡ c ∷ io.chunks it)

-- A buffer of `room` bytes that keeps what was put into it, latest first.
pub record Buffer : Type 0 where
  pub room : ℕ
  pub taken : List Chunk

abbrev pub buffer_copy : Chunk → ℕ → Buffer → ℕ × Buffer
buffer_copy c len b =
    if leb len b.room
    then (len, record b { room = b.room - len; taken = c ∷ b.taken })
    else (b.room, record b { room = 0 })

pub buffer_copied-le : (c : Chunk) (len : ℕ) (b : Buffer) → (buffer_copy c len b).0 ≤ len
buffer_copied-le c len b = ground arith

pub buffer_count-copy :
    (c : Chunk) (len : ℕ) (b : Buffer)
    → (buffer_copy c len b).1.room + (buffer_copy c len b).0 ≡ b.room
buffer_count-copy c len b = ground arith

abbrev pub buffer_iter : IovIter
buffer_iter = record {
  Iter = Buffer;
  count = λ b. b.room;
  chunks = λ b. b.taken;
  copy_to_iter = buffer_copy;
  copied-le = buffer_copied-le;
  count-copy = buffer_count-copy;
}

pub buffer-IsMapped : IsMapped buffer_iter
buffer-IsMapped c len b h =
    let fits : leb len b.room ≡ true = ground arith in simp fits (refl, refl)
