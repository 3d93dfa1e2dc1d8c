-- ===== src/Conn/ZeroPage.antt =====
-- dev.c: is a write all zeroes, and can it be sent as a discard?
pub mod Laws
use pxmod.Common.{
  ℕ, zero, suc, ◌+◌, ◌-◌, ◌*◌, ◌/◌, ◌%◌, Bool, true, false, ◌&&◌, List, [], ◌∷◌, ◌==◌, length,
  get_or, if◌then◌else◌,
}
use pxmod.Conn.State.{FuseReq}
use pxmod.Conn.Opcode.{pxd_discard}

-- The `k` bytes from `base + i` on, as a little-endian word.
unfoldable pub load_word : ℕ → List ℕ → ℕ → ℕ
load_word zero base i = 0
load_word (suc k) base i = get_or base i 0 + 256 * load_word k base (i + 1)

-- for (i; rounds more; i++) if (q[i]) return false.
unfoldable pub words_zero : ℕ → List ℕ → ℕ → Bool
words_zero zero base i = true
words_zero (suc rounds) base i =
    let rest = words_zero rounds base (i + 1) in
    if load_word 8 base (8 * i) == 0 then rest else false

-- for (i; rounds more; i++) if (p[i]) return false.
unfoldable pub bytes_zero : ℕ → List ℕ → ℕ → Bool
bytes_zero zero base i = true
bytes_zero (suc rounds) base i =
    let rest = bytes_zero rounds base (i + 1) in if get_or base i 0 == 0 then rest else false

-- The bytes from `base` to `base + len` are those of the list.
unfoldable pub check_zero_page_write : List ℕ → Bool
unfolding load_word words_zero bytes_zero
check_zero_page_write base =
    let len = length base in
    if words_zero (len / 8) base 0 then bytes_zero (len % 8) base (len - len % 8) else false

unfoldable pub all_segments_zero : List (List ℕ) → Bool
all_segments_zero [] = true
all_segments_zero (p ∷ segments) =
    let rest = all_segments_zero segments in if check_zero_page_write p then rest else false

unfoldable pub fuse_convert_zero_writes : FuseReq → FuseReq
unfolding all_segments_zero
fuse_convert_zero_writes req =
    if all_segments_zero req.segments then record req { opcode = pxd_discard } else req
