-- ===== src/Device/Leave.antt =====
-- A device leaves the list of its context (pxd.c).
use pxmod.Common.{
  ℕ, sym, subst, ◌-◌, ◌<◌, ◌≡◌, ◌≢◌, arith, Bool, true, some, update, list_del, occurs,
  occurs-list_del, length-list_del,
}
use pxmod.Device.State.{Device, Context, set_dev, find_pxd_device}
use pxmod.Device.Laws.{Listed, DevicesInv, find_in-some}

-- What is left of a list without repetitions.

-- What is left of a list without repetitions.
pub list_del-Listed :
    (ctx : Context) (p q : ℕ)
    → DevicesInv ctx
    → 0 < occurs q (list_del p ctx.list)
    → Listed ctx q × (p ≢ q)
list_del-Listed ctx p q inv l = (
  ground (arith, occurs-list_del q p ctx.list),
  λ same. ground (arith, inv.once q, occurs-list_del q p ctx.list),
)

-- A listed device leaves the list, and may lose everything but its identity and give its minor back.
pub leave-Inv :
    (ctx : Context) (p : ℕ) (d : Device) (f : ℕ → Bool)
    → Listed ctx p
    → ((m : ℕ) → (ctx.devs p).minor ≢ m → ctx.minors m ≡ true → f m ≡ true)
    → DevicesInv ctx
    → DevicesInv (record (set_dev ctx p d) {
      list = list_del p ctx.list;
      num_devices = ctx.num_devices - 1;
      minors = f;
    })
leave-Inv ctx p d f l more inv = record {
  counted = omega (arith, inv.counted, length-list_del p ctx.list l);
  once = λ q. ground (arith, inv.once q, occurs-list_del q p ctx.list);
  ids = λ q r a b e.
      let (m, no_q) = list_del-Listed ctx p q inv a in
      let (k, no_r) = list_del-Listed ctx p r inv b in inv.ids q r m k (ground arith);
  minors = λ q r a b e.
      let (m, no_q) = list_del-Listed ctx p q inv a in
      let (k, no_r) = list_del-Listed ctx p r inv b in inv.minors q r m k (ground arith);
  taken = λ q a.
      let (m, no_q) = list_del-Listed ctx p q inv a in
      let at : update ctx.devs p d q ≡ ctx.devs q = ground arith in
      subst (λ x. f x.minor ≡ true) (sym at)
        (more (ctx.devs q).minor (λ e. no_q (inv.minors p q l m e)) (inv.taken q m));
}

pub found-Listed :
    (ctx : Context) (dev_id p : ℕ) → find_pxd_device ctx dev_id ≡ some p → Listed ctx p
unfolding find_pxd_device
found-Listed ctx dev_id p e = (find_in-some dev_id ctx.devs ctx.list p e).0
