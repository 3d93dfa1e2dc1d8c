-- ===== src/Ioctl/Init.antt =====
-- pxd_read_init (pxd.c), and a process that reads what it is given.
use pxmod.Common.{
  ℕ, zero, suc, ◌+◌, ◌*◌, ◌^◌, ◌/◌, ◌%◌, ◌==◌, ◌<◌, ◌≡◌, Bool, true, false, List, [], ◌∷◌,
}
use native.Mathlib.Decide.{ℕ_discrete as dec_eq}
use pxmod.Device.State.{Device, Context}

-- A number of `n` bytes, and what follows it.
abbrev take_number : ℕ → List ℕ → ℕ × List ℕ
take_number zero bs = (0, bs)
take_number (suc n) [] = (0, [])
take_number (suc n) (b ∷ bs) = let (x, rest) = take_number n bs in (b + 256 * x, rest)

-- The bits of the flags, the lowest first.
pub record Entry : Type 0 where
  pub minor : ℕ
  pub pad : ℕ
  pub fastpath : Bool
  pub blkmq_device : Bool
  pub suspend : Bool
  pub dev_id : ℕ
  pub size : ℕ

abbrev is_odd : ℕ → Bool
is_odd n = n % 2 == 1

abbrev entry_with : ℕ → ℕ → ℕ → ℕ → ℕ → Entry
entry_with minor pad flags dev_id size = record {
  minor = minor;
  pad = pad;
  fastpath = is_odd flags;
  blkmq_device = is_odd (flags / 2);
  suspend = is_odd (flags / 4);
  dev_id = dev_id;
  size = size;
}

abbrev take_entry : List ℕ → Entry × List ℕ
take_entry bs =
    let (minor, bs) = take_number 4 bs in
    let (pad, bs) = take_number 3 bs in
    let (flags, bs) = take_number 1 bs in
    let (dev_id, bs) = take_number 8 bs in
    let (size, bs) = take_number 8 bs in (entry_with minor pad flags dev_id size, bs)

abbrev take_entries : ℕ → List ℕ → List Entry
take_entries zero bs = []
take_entries (suc n) bs = let (e, rest) = take_entry bs in e ∷ take_entries n rest

-- A process reads the version, the number of devices, and an entry for each of them.
abbrev pub read_by_process : List ℕ → ℕ × ℕ × List Entry
read_by_process bs =
    let (version, bs) = take_number 4 bs in
    let (num_devices, bs) = take_number 4 bs in (version, num_devices, take_entries num_devices bs)

abbrev pub entry_of : Device → Entry
entry_of d = record {
  minor = d.minor;
  pad = 0;
  fastpath = d.fp.fastpath;
  blkmq_device = true;
  suspend = false;
  dev_id = d.dev_id;
  size = 0;
}

-- The fields of a device are as wide as their types.
pub record Widths (d : Device) : Type 0 where
  pub minor : d.minor < 2 ^ 32
  pub dev_id : d.dev_id < 2 ^ 64

abbrev entry_and_rest : ℕ → ℕ → ℕ → ℕ → ℕ → List ℕ → Entry × List ℕ
entry_and_rest minor pad flags dev_id size rest = (entry_with minor pad flags dev_id size, rest)

module _ (devs : ℕ → Device) (widths : (p : ℕ) → Widths (devs p)) (ok : ℕ → Bool)
    (all_ok : (k : ℕ) → ok k ≡ true) where
  abbrev Told : Context → Type 0
  Told ctx = (p : ℕ) → entry_of (ctx.devs p) ≡ entry_of (devs p)
