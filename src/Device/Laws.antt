-- ===== src/Device/Laws.antt =====
-- The invariant of the devices of a context, and find_pxd_device (pxd.c).
use native.Mathlib.Decide.{ℕ_discrete as dec_eq}
use pxmod.Common.{
  ℕ, ap, ◌∙◌, sym, ◌+◌, ◌≤◌, ◌<◌, ◌≡◌, ◌≢◌, ◌↔◌, arith, Bool, true, false, none, some, inl, inr,
  List, [], ◌∷◌, ◌==◌, update, length, occurs, occurs-cons, occurs-nil, Bool-cases, Option-cases,
}
use pxmod.Common.Int.{is_zero}
use pxmod.Conn.Source.Layout.{AddExtOut}
use pxmod.Device.State.{Device, Context, set_dev, find_in, find_pxd_device}
use pxmod.Device.Ops.{FastpathOps, new_device, start_fastpath, add_new, bad_depth}

-- The pointer is in the list.
abbrev pub Listed : Context → ℕ → Type 0
Listed ctx p = 0 < occurs p ctx.list

pub record DevicesInv (ctx : Context) : Type 0 where
  pub counted : ctx.num_devices ≡ length ctx.list
  pub once : (p : ℕ) → occurs p ctx.list ≤ 1
  pub ids :
      (p q : ℕ) → Listed ctx p → Listed ctx q → (ctx.devs p).dev_id ≡ (ctx.devs q).dev_id → p ≡ q
  pub minors :
      (p q : ℕ) → Listed ctx p → Listed ctx q → (ctx.devs p).minor ≡ (ctx.devs q).minor → p ≡ q
  pub taken : (p : ℕ) → Listed ctx p → ctx.minors (ctx.devs p).minor ≡ true

pub find_in-some :
    (dev_id : ℕ) (devs : ℕ → Device) (ps : List ℕ) (p : ℕ)
    → find_in dev_id devs ps ≡ some p
    → (0 < occurs p ps) × ((devs p).dev_id ≡ dev_id)
unfolding find_in
find_in-some dev_id devs [] p h = cc
find_in-some dev_id devs (q ∷ ps) p h = elim (Bool-cases ((devs q).dev_id == dev_id)) [
  | inl here ↦ ground (arith, occurs-cons p q ps)
  | inr later ↦
      let (l, i) = find_in-some dev_id devs ps p (ground arith) in
      (ground (arith, occurs-cons p q ps), i)
]

find_in-none :
    (dev_id : ℕ) (devs : ℕ → Device) (ps : List ℕ)
    → find_in dev_id devs ps ≡ none
    → (p : ℕ) → 0 < occurs p ps
    → (devs p).dev_id ≢ dev_id
unfolding find_in
find_in-none dev_id devs [] h p l = absurd (omega (arith, occurs-nil p))
find_in-none dev_id devs (q ∷ ps) h p l = elim (dec_eq q p) [
  | yes same ↦ ground (arith, ap (λ x. (devs x).dev_id) same)
  | no other ↦ find_in-none dev_id devs ps (ground arith) p (ground (arith, occurs-cons p q ps))
]

-- The device that find_pxd_device returns is in the list and has the id; it is the only one.
pub find_pxd_device_lem :
    (ctx : Context) (dev_id p : ℕ)
    → DevicesInv ctx
    → (find_pxd_device ctx dev_id ≡ some p) ↔ (Listed ctx p × ((ctx.devs p).dev_id ≡ dev_id))
unfolding find_pxd_device
find_pxd_device_lem ctx dev_id p inv = (find_in-some dev_id ctx.devs ctx.list p, only)
  where
    only : Listed ctx p × ((ctx.devs p).dev_id ≡ dev_id) → find_in dev_id ctx.devs ctx.list ≡ some p
    only (l, i) = elim (Option-cases (find_in dev_id ctx.devs ctx.list)) [
      | inl e ↦ absurd (find_in-none dev_id ctx.devs ctx.list e p l i)
      | inr (q, e) ↦
          let (m, j) = find_in-some dev_id ctx.devs ctx.list q e in
          e ∙ ap some (inv.ids q p m l (j ∙ sym i))
    ]

-- A change of a device that keeps its id and its minor.
pub set_dev-Inv :
    (ctx : Context) (p : ℕ) (d : Device)
    → d.dev_id ≡ (ctx.devs p).dev_id
    → d.minor ≡ (ctx.devs p).minor
    → DevicesInv ctx
    → DevicesInv (set_dev ctx p d)
set_dev-Inv ctx p d same_id same_minor inv = record {
  counted = inv.counted;
  once = inv.once;
  ids = λ q r l m e. inv.ids q r l m (ground arith);
  minors = λ q r l m e. inv.minors q r l m (ground arith);
  taken = λ q l. ground (arith, inv.taken q l);
}

-- A device at a new pointer, with a new id and a minor that was not taken, enters the list.
enter-Inv :
    (ctx : Context) (p minor : ℕ) (d : Device)
    → occurs p ctx.list ≡ 0
    → ((q : ℕ) → Listed ctx q → (ctx.devs q).dev_id ≢ d.dev_id)
    → ctx.minors minor ≡ false
    → d.minor ≡ minor
    → DevicesInv ctx
    → DevicesInv (record (set_dev ctx p d) {
      list = p ∷ ctx.list;
      num_devices = ctx.num_devices + 1;
      minors = update ctx.minors minor true;
    })
enter-Inv ctx p minor d new other_ids free same inv = record {
  counted = omega (arith, inv.counted);
  once = λ q. ground (arith, inv.once q, occurs-cons q p ctx.list);
  ids = λ q r l m e. ground (
    arith,
    inv.ids q r,
    other_ids q,
    other_ids r,
    occurs-cons q p ctx.list,
    occurs-cons r p ctx.list,
  );
  minors = λ q r l m e. ground (
    arith,
    inv.minors q r,
    inv.taken q,
    inv.taken r,
    occurs-cons q p ctx.list,
    occurs-cons r p ctx.list,
  );
  taken = λ q l. ground (arith, inv.taken q, occurs-cons q p ctx.list);
}

-- A minor that no listed device has can be marked as taken or as free.
minor-Inv :
    (ctx : Context) (f : ℕ → Bool)
    → ((m : ℕ) → ctx.minors m ≡ true → f m ≡ true)
    → DevicesInv ctx
    → DevicesInv (record ctx { minors = f })
minor-Inv ctx f more inv = record {
  counted = inv.counted;
  once = inv.once;
  ids = inv.ids;
  minors = inv.minors;
  taken = λ p l. more (ctx.devs p).minor (inv.taken p l);
}

module _ (fp : FastpathOps) where
  start-same :
      (add : AddExtOut) (d : Device)
      → ((start_fastpath fp add d).1.dev_id ≡ d.dev_id)
        × ((start_fastpath fp add d).1.minor ≡ d.minor)
  unfolding start_fastpath
  start-same add d =
      ground (arith, fp.init_same d, fp.target_same add.paths (fp.pxd_fastpath_init d).1)

  pub add_new-Inv :
      (ctx : Context) (p minor : ℕ) (add : AddExtOut)
      → occurs p ctx.list ≡ 0
      → ctx.minors minor ≡ false
      → DevicesInv ctx
      → DevicesInv (add_new fp ctx p minor add).1
  unfolding add_new find_pxd_device new_device
  add_new-Inv ctx p minor add new free inv =
      let s = start_fastpath fp add (new_device minor add) in
      let same = start-same add (new_device minor add) in
      let on = minor-Inv ctx (update ctx.minors minor true) (λ m h. ground arith) inv in
      let off =
        minor-Inv ctx (update (update ctx.minors minor true) minor false) (λ m h. ground arith)
          inv in
      elim (Bool-cases (bad_depth add.queue_depth)) [
        | inl bad ↦ rw bad on
        | inr good ↦ elim (Bool-cases (is_zero s.0)) [
          | inr failed ↦ rw (good, failed) off
          | inl started ↦ elim (Option-cases (find_in add.dev_id ctx.devs ctx.list)) [
            | inr (q, e) ↦ rw (good, started, e) off
            | inl e ↦
                rw (good, started, e)
                  (enter-Inv ctx p minor s.1 new
                    (λ q l i.
                      find_in-none add.dev_id ctx.devs ctx.list e q l
                        (i ∙ same.0 ∙ new-id minor add))
                    free (same.1 ∙ new-minor minor add) inv)
          ]
        ]
      ]
    where
      new-id : (minor : ℕ) (add : AddExtOut) → (new_device minor add).dev_id ≡ add.dev_id
      new-id minor add = ground arith

      new-minor : (minor : ℕ) (add : AddExtOut) → (new_device minor add).minor ≡ minor
      new-minor minor add = ground arith
