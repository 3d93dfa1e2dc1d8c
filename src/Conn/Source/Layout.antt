-- ===== src/Conn/Source/Layout.antt =====
-- fuse.h and pxd.h: the structures that a process writes, from their bytes.
use pxmod.Common.{
  ℕ, zero, suc, ◌+◌, ◌-◌, ◌^◌, ◌==◌, Bool, not, List, [], ◌∷◌, ltb, if◌then◌else◌, get_or,
}
use pxmod.Common.Int.{ℤ, pos, negsuc}
use pxmod.Conn.ZeroPage.{load_word}

-- An int32_t from its 32 bits.
abbrev pub signed_32 : ℕ → ℤ
signed_32 x = if ltb x (2 ^ 31) then pos x else negsuc (2 ^ 32 - x - 1)

unfoldable pub load_u32 : List ℕ → ℕ → ℕ
unfolding load_word
load_u32 b i = load_word 4 b i

unfoldable pub load_u64 : List ℕ → ℕ → ℕ
unfolding load_word
load_u64 b i = load_word 8 b i

unfoldable pub load_s32 : List ℕ → ℕ → ℤ
unfolding load_u32
load_s32 b i = signed_32 (load_u32 b i)

abbrev pub load_bool : List ℕ → ℕ → Bool
load_bool b i = not (get_or b i 0 == 0)

-- `n` bytes from `i` on.
unfoldable pub load_bytes : ℕ → List ℕ → ℕ → List ℕ
load_bytes zero b i = []
load_bytes (suc n) b i = get_or b i 0 ∷ load_bytes n b (i + 1)

-- struct fuse_out_header.
pub record OutHeader : Type 0 where
  pub len : ℕ
  pub error : ℤ
  pub unique : ℕ

abbrev pub out_header_size : ℕ
out_header_size = 16

unfoldable pub load_out_header : List ℕ → OutHeader
unfolding load_u32 load_s32 load_u64
load_out_header b = record { len = load_u32 b 0; error = load_s32 b 4; unique = load_u64 b 8 }

-- struct pxd_update_path_out.
pub record UpdatePathOut : Type 0 where
  pub dev_id : ℕ
  pub can_failover : Bool
  pub count : ℕ
  pub devpath : List (List ℕ)

-- struct pxd_add_ext_out; the first four fields are struct pxd_add_out.
pub record AddExtOut : Type 0 where
  pub dev_id : ℕ
  pub size : ℕ
  pub queue_depth : ℤ
  pub discard_size : ℤ
  pub open_mode : ℕ
  pub enable_fp : ℤ
  pub paths : UpdatePathOut

abbrev pub add_out_size : ℕ
add_out_size = 24

abbrev pub add_ext_out_size : ℕ
add_ext_out_size = 440

unfoldable pub load_path_out : List ℕ → ℕ → UpdatePathOut
unfolding load_u64 load_bytes
load_path_out b i = record {
  dev_id = load_u64 b i;
  can_failover = load_bool b (i + 8);
  count = load_u64 b (i + 16);
  devpath =
      load_bytes 128 b (i + 24) ∷ load_bytes 128 b (i + 152) ∷ load_bytes 128 b (i + 280) ∷ [];
}

-- Bytes that are missing are zero, as after memset.
unfoldable pub load_add_ext_out : List ℕ → AddExtOut
unfolding load_u32 load_s32 load_u64 load_path_out
load_add_ext_out b = record {
  dev_id = load_u64 b 0;
  size = load_u64 b 8;
  queue_depth = load_s32 b 16;
  discard_size = load_s32 b 20;
  open_mode = load_u32 b 24;
  enable_fp = load_s32 b 28;
  paths = load_path_out b 32;
}

-- struct pxd_remove_out.
pub record RemoveOut : Type 0 where
  pub dev_id : ℕ
  pub force : Bool

unfoldable pub load_remove_out : List ℕ → RemoveOut
unfolding load_u64
load_remove_out b = record { dev_id = load_u64 b 0; force = load_bool b 8 }

-- struct pxd_read_data_out.
pub record ReadDataOut : Type 0 where
  pub unique : ℕ
  pub iovcnt : ℤ
  pub offset : ℕ

unfoldable pub load_read_data_out : List ℕ → ReadDataOut
unfolding load_u32 load_s32 load_u64
load_read_data_out b = record {
  unique = load_u64 b 0;
  iovcnt = load_s32 b 8;
  offset = load_u32 b 12;
}

-- struct pxd_update_size.
pub record UpdateSize : Type 0 where
  pub dev_id : ℕ
  pub size : ℕ
  pub context_id : ℤ

unfoldable pub load_update_size : List ℕ → UpdateSize
unfolding load_s32 load_u64
load_update_size b = record {
  dev_id = load_u64 b 0;
  size = load_u64 b 8;
  context_id = load_s32 b 16;
}

-- struct pxd_suspend.
pub record SuspendOut : Type 0 where
  pub dev_id : ℕ
  pub skip_flush : Bool
  pub continue_on_error : Bool

unfoldable pub load_suspend : List ℕ → SuspendOut
unfolding load_u64
load_suspend b = record {
  dev_id = load_u64 b 0;
  skip_flush = load_bool b 8;
  continue_on_error = load_bool b 9;
}
