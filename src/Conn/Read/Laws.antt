-- ===== src/Conn/Read/Laws.antt =====
-- What a read returns, and what it does to the two lists.
use pxmod.Common.{
  ℕ, ap, ◌∙◌, sym, subst, ◌+◌, ◌-◌, ◌≤◌, ◌<◌, ◌≡◌, ◌≢◌, refl, arith, Bool, true, false, not, ◌&&◌,
  Option, some, inl, inr, ◌⊎◌, List, [], ◌∷◌, ◌++◌, ◌==◌, if◌then◌else◌, occurs, occurs-append,
  is_empty, Bool-cases,
}
use mathlib.Core.Option.{some-injective}
use pxmod.Common.Int.{ℤ, pos, ◌+ℤ◌, is_zero, einval, eagain, enodev, erestartsys}
use pxmod.Conn.State.{FuseConn, FuseReq}
use pxmod.Conn.Requests.{request_pending}
use pxmod.Conn.Requests.Invariant.{ConnInv, IdsInv-cong}
use pxmod.Conn.Account.{Goes, Goes-refl, Goes-trans}
use pxmod.Conn.Iter.{IovIter, IsMapped}
use pxmod.Conn.Read.{select, Delivery, deliver, read_round, read_rounds, fuse_dev_do_read}
use pxmod.Conn.Read.Select.{lens, lens-cons, Stops, select_lem}
use pxmod.Conn.Read.Shown.{Copied}
use pxmod.Conn.Read.Deliver.{Within, Sized, deliver-runs, deliver-copies}

-- fc->pending is cut after the last request that is taken.
abbrev pub moved : FuseConn → ℕ → FuseConn
moved fc room =
    let s = select fc.reqs fc.pending room in
    record fc { pending = s.rest; processing = fc.processing ++ s.taken }

moved-occurs :
    (fc : FuseConn) (room s : ℕ)
    → occurs s (moved fc room).pending + occurs s (select fc.reqs fc.pending room).taken
      ≡ occurs s fc.pending
moved-occurs fc room s =
    let sel = select fc.reqs fc.pending room in
    omega (
      arith,
      occurs-append s sel.taken sel.rest,
      ap (occurs s) (select_lem fc.reqs fc.pending room).0,
    )

moved-Inv : (n room : ℕ) (fc : FuseConn) → ConnInv n fc → ConnInv n (moved fc room)
moved-Inv n room fc inv = record {
  ids = IdsInv-cong n fc (moved fc room) refl refl refl refl inv.ids;
  own_slot = inv.own_slot;
  listed = λ r. ground (
    arith,
    inv.listed r,
    moved-occurs fc room r,
    occurs-append r fc.processing (select fc.reqs fc.pending room).taken,
  );
}

moved-Goes : (n room : ℕ) (fc : FuseConn) → ConnInv n fc → Goes n fc (moved fc room)
moved-Goes n room fc inv = record {
  inv = moved-Inv n room fc inv;
  accounted = λ q. refl;
  whole = λ w r. omega (
    arith,
    w r,
    moved-occurs fc room r,
    occurs-append r fc.processing (select fc.reqs fc.pending room).taken,
  );
  connected = refl;
  allow_disconnected = refl;
}

moved-Within :
    (room : ℕ) (fc : FuseConn) → Within (select fc.reqs fc.pending room).taken (moved fc room)
moved-Within room fc s =
    omega (arith, occurs-append s fc.processing (select fc.reqs fc.pending room).taken)

Sized-append : (reqs : ℕ → FuseReq) (xs ys : List ℕ) → Sized reqs (xs ++ ys) → Sized reqs xs
Sized-append reqs [] ys z = tt
Sized-append reqs (x ∷ xs) ys z = (z.0, Sized-append reqs xs ys z.1)

-- Nothing is pending, or there is no room, after a round.
no_retry :
    (fc : FuseConn) (left : ℕ)
    → (fc.pending ≡ []) ⊎ (left ≡ 0)
    → (not (left == 0) && request_pending fc) ≡ false
unfolding request_pending
no_retry fc left h = ground arith

some-pending :
    (fc : FuseConn) (room : ℕ)
    → (select fc.reqs fc.pending room).taken ≢ []
    → request_pending fc ≡ true
unfolding request_pending select
some-pending fc room h = ground arith

pos-zero-add : (k : ℕ) → pos 0 +ℤ pos k ≡ pos k
pos-zero-add k = ground arith

-- A header is never empty.
Sized-nonzero :
    (reqs : ℕ → FuseReq) (rs : List ℕ)
    → Sized reqs rs
    → rs ≢ []
    → is_zero (pos 0 +ℤ pos (lens reqs rs)) ≡ false
Sized-nonzero reqs [] z h = absurd (h refl)
Sized-nonzero reqs (r ∷ rs) z h = ground (arith, lens-cons reqs r rs)

-- To split on a test that the proof does not need.
if-either {ℓ κ} :
    {A : Type ℓ} (P : A → Type κ) (b : Bool) {x y : A} → P x → P y → P (if b then x else y)
if-either P true px py = px
if-either P false px py = py

module _ (io : IovIter) (n cpu : ℕ) (here : cpu < n) (detect : Bool) where
  open io use {Iter, count, chunks}

  abbrev batch : ℤ → ℕ → Iter → FuseConn → Delivery io
  batch c room it fc = record { copied = c; err = pos 0; iter = it; fc = moved fc room }

  abbrev Returns : ℕ → Option (ℤ × Iter × FuseConn) → Type 0
  Returns m o =
      (result : ℤ) × (it' : Iter) × (fc' : FuseConn) × (o ≡ some (result, it', fc')) × ConnInv m fc'

  -- With no other thread at work there is one round, and it does not stop the kernel.
  rounds-run :
      (c : ℤ) (room : ℕ) (it : Iter) (fc : FuseConn)
      → ConnInv n fc
      → (result : ℤ) × (it' : Iter) × (fc' : FuseConn) × (read_rounds io detect cpu [] c room it fc
          ≡ some (result, it', fc'))
        × ConnInv n fc'
        × Goes n fc fc'
  unfolding read_rounds read_round
  rounds-run c room it fc inv =
      let s = select fc.reqs fc.pending room in
      let (d, e, inv', p, g) =
        deliver-runs io n cpu here detect s.taken (batch c room it fc) (moved-Inv n room fc inv)
          (moved-Within room fc) in
      elim (Bool-cases (is_empty s.taken)) [
        | inl nothing ↦
            ((if is_zero c then einval else c), it, fc, rw nothing, inv, Goes-refl n fc inv)
        | inr something ↦ (
          (if is_zero d.copied then d.err else d.copied),
          d.iter,
          d.fc,
          rw (
            something,
            e,
            no_retry d.fc s.remain (
                subst (λ l. (l ≡ []) ⊎ (s.remain ≡ 0)) (sym p)
                  (select_lem fc.reqs fc.pending room).3),
          ),
          inv',
          Goes-trans (moved-Goes n room fc inv) g,
        )
      ]

  returns :
      (c : ℤ) (room : ℕ) (it : Iter) (fc : FuseConn)
      → ConnInv n fc
      → Returns n (read_rounds io detect cpu [] c room it fc)
  returns c room it fc inv =
      let (result, it', fc', e, inv', g) = rounds-run c room it fc inv in
      (result, it', fc', e, inv')

  abbrev Going : FuseConn → Option (ℤ × Iter × FuseConn) → Type 0
  Going fc o =
      (result : ℤ) × (it' : Iter) × (fc' : FuseConn) × (o ≡ some (result, it', fc')) × Goes n fc fc'

  -- The read itself, without what others do while it waits.
  pub read-Goes :
      (nonblock : Bool) (it : Iter) (fc : FuseConn)
      → ConnInv n fc
      → (result : ℤ) × (it' : Iter) × (fc' : FuseConn) × (fuse_dev_do_read io detect cpu nonblock
            (λ fc. fc)
            []
            it
            fc
          ≡ some (result, it', fc'))
        × Goes n fc fc'
  unfolding fuse_dev_do_read
  read-Goes nonblock it fc inv =
      let (result, it', fc', e, inv', g) = rounds-run (pos 0) (count it) it fc inv in
      let still = Goes-refl n fc inv in
      if-either (Going fc) (request_pending fc) (result, it', fc', e, g)
        (if-either (Going fc) (nonblock && fc.connected) (eagain, it, fc, refl, still)
          (if-either (Going fc) (not fc.connected) (enodev, it, fc, refl, still)
            (if-either (Going fc) (not (request_pending fc)) (erestartsys, it, fc, refl, still)
              (result, it', fc', e, g))))

  -- A read that other threads leave alone returns, in a well-formed connection, whatever part of
  -- the buffer is mapped; for the time of the wait this is assumed of the other threads.
  pub read-runs :
      (nonblock : Bool) (wait : FuseConn → FuseConn) (it : Iter) (fc : FuseConn)
      → ConnInv n fc
      → ConnInv n (wait fc)
      → (result : ℤ) × (it' : Iter) × (fc' : FuseConn) × (fuse_dev_do_read io detect cpu nonblock
            wait [] it fc
          ≡ some (result, it', fc'))
        × ConnInv n fc'
  unfolding fuse_dev_do_read
  read-runs nonblock wait it fc inv inv_wait =
      if-either (Returns n) (request_pending fc) (returns (pos 0) (count it) it fc inv) (
        if-either (Returns n) (nonblock && fc.connected) (eagain, it, fc, refl, inv)
          (if-either (Returns n) (not (wait fc).connected) (enodev, it, wait fc, refl, inv_wait)
            (if-either (Returns n) (not (request_pending (wait fc)))
              (erestartsys, it, wait fc, refl, inv_wait)
              (returns (pos 0) (count it) it (wait fc) inv_wait))))

  rounds-once :
      (c : ℤ) (room : ℕ) (it : Iter) (fc : FuseConn) (d : Delivery io)
      → let s = select fc.reqs fc.pending room in
        is_empty s.taken ≡ false
        → deliver io detect cpu s.taken (batch c room it fc) ≡ some d
        → (not (s.remain == 0) && request_pending d.fc) ≡ false
        → is_zero d.copied ≡ false
        → read_rounds io detect cpu [] c room it fc ≡ some (d.copied, d.iter, d.fc)
  unfolding read_rounds read_round
  rounds-once c room it fc d something e once done = rw (something, e, done, once) refl

  -- One round over a mapped buffer, when at least one request fits: all that fit are copied, and
  -- the number of their bytes is added to what `copied` was before.
  pub rounds-copy :
      (c : ℤ) (room : ℕ) (it : Iter) (fc : FuseConn)
      → ConnInv n fc
      → IsMapped io
      → Sized fc.reqs fc.pending
      → room ≤ count it
      → let s = select fc.reqs fc.pending room in
        s.taken ≢ []
        → is_zero (c +ℤ pos (lens fc.reqs s.taken)) ≡ false
        → (it' : Iter) × (fc' : FuseConn) × (read_rounds io detect cpu [] c room it fc
            ≡ some (c +ℤ pos (lens fc.reqs s.taken), it', fc'))
          × ConnInv n fc'
          × (fc'.pending ≡ s.rest)
          × (fc'.processing ≡ fc.processing ++ s.taken)
          × (count it' + lens fc.reqs s.taken ≡ count it)
          × Copied fc.reqs s.taken (chunks it) (chunks it')
  rounds-copy c room it fc inv mapped_io sized enough some_fit nonzero =
      let s = select fc.reqs fc.pending room in
      let spec = select_lem fc.reqs fc.pending room in
      let (d, e, inv', p, g) =
        deliver-runs io n cpu here detect s.taken (batch c room it fc) (moved-Inv n room fc inv)
          (moved-Within room fc) in
      let (d', e', c', p', l', k') =
        deliver-copies io mapped_io cpu detect s.taken (batch c room it fc)
          (Sized-append fc.reqs s.taken s.rest (subst (Sized fc.reqs) (sym spec.0) sized))
          (omega (arith, spec.1)) in
      let same : d ≡ d' = some-injective d d' (sym e ∙ e') in
      let total_copied : d.copied ≡ c +ℤ pos (lens fc.reqs s.taken) =
        ap (λ x. x.copied) same ∙ c' in
      let something : is_empty s.taken ≡ false = ground arith in
      let done : is_zero d.copied ≡ false = ap is_zero total_copied ∙ nonzero in
      let once = no_retry d.fc s.remain (subst (λ l. (l ≡ []) ⊎ (s.remain ≡ 0)) (sym p) spec.3) in
      (
        d.iter,
        d.fc,
        rounds-once c room it fc d something e once done
            ∙ ap (λ x. some (x, d.iter, d.fc)) total_copied,
        inv',
        p,
        ap (λ x. x.fc.processing) same ∙ p',
        ap (λ x. count x.iter + lens fc.reqs s.taken) same ∙ l',
        subst (λ (x : Delivery io). Copied fc.reqs s.taken (chunks it) (chunks x.iter)) (sym same)
            k',
      )

  read-taken :
      (nonblock : Bool) (wait : FuseConn → FuseConn) (it : Iter) (fc : FuseConn)
      → ConnInv n fc
      → IsMapped io
      → Sized fc.reqs fc.pending
      → let s = select fc.reqs fc.pending (count it) in
        s.taken ≢ []
        → (it' : Iter) × (fc' : FuseConn) × (fuse_dev_do_read io detect cpu nonblock wait [] it fc
            ≡ some (pos (lens fc.reqs s.taken), it', fc'))
          × ConnInv n fc'
          × (fc'.pending ≡ s.rest)
          × (fc'.processing ≡ fc.processing ++ s.taken)
          × (count it' + lens fc.reqs s.taken ≡ count it)
          × Copied fc.reqs s.taken (chunks it) (chunks it')
  unfolding fuse_dev_do_read
  read-taken nonblock wait it fc inv mapped_io sized some_fit =
      let s = select fc.reqs fc.pending (count it) in
      let spec = select_lem fc.reqs fc.pending (count it) in
      let z = Sized-append fc.reqs s.taken s.rest (subst (Sized fc.reqs) (sym spec.0) sized) in
      let (it', fc', e, inv', p, q, l, k) =
        rounds-copy (pos 0) (count it) it fc inv mapped_io sized (omega arith) some_fit
          (Sized-nonzero fc.reqs s.taken z some_fit) in
      rw (some-pending fc (count it) some_fit) (
        it',
        fc',
        e ∙ ap (λ v. some (v, it', fc')) (pos-zero-add (lens fc.reqs s.taken)),
        inv',
        p,
        q,
        l,
        k,
      )

  select-first :
      (reqs : ℕ → FuseReq) (r : ℕ) (rs pending : List ℕ) (room : ℕ)
      → pending ≡ r ∷ rs
      → (reqs r).len ≤ room
      → (select reqs pending room).taken ≢ []
  unfolding select
  select-first reqs r rs pending room e fits = rw e (ground arith)

  -- A read of a mapped buffer, with pending requests whose headers say the length of the header and
  -- the one argument, and the first of which fits: it returns at once. The pending requests are
  -- `taken`, then `rest`: those of `taken` fit the buffer together, an exact fit included, and the
  -- next one would not fit with them. The result is the sum of the lengths of `taken`, which is how
  -- much less room the buffer has, and the buffer gets in order the header and the argument of each
  -- of them, as they are or with the opcode of a discard; `taken` are in order the last ones that are being processed,
  -- `rest` is what stays pending, and the connection is well-formed.
  pub read-copies :
      (nonblock : Bool) (wait : FuseConn → FuseConn) (it : Iter) (fc : FuseConn) (r : ℕ)
      (rs : List ℕ)
      → ConnInv n fc
      → IsMapped io
      → Sized fc.reqs fc.pending
      → fc.pending ≡ r ∷ rs
      → (fc.reqs r).len ≤ count it
      → (taken : List ℕ) × (rest : List ℕ) × (it' : Iter) × (fc' : FuseConn) × (fuse_dev_do_read io
            detect cpu nonblock wait [] it fc
          ≡ some (pos (lens fc.reqs taken), it', fc'))
        × (taken ++ rest ≡ fc.pending)
        × (lens fc.reqs taken ≤ count it)
        × Stops fc.reqs rest (count it - lens fc.reqs taken)
        × ConnInv n fc'
        × (fc'.pending ≡ rest)
        × (fc'.processing ≡ fc.processing ++ taken)
        × (count it' + lens fc.reqs taken ≡ count it)
        × Copied fc.reqs taken (chunks it) (chunks it')
  read-copies nonblock wait it fc r rs inv mapped_io sized first fits =
      let s = select fc.reqs fc.pending (count it) in
      let spec = select_lem fc.reqs fc.pending (count it) in
      let (it', fc', e, inv', p, q, l, k) =
        read-taken nonblock wait it fc inv mapped_io sized
          (select-first fc.reqs r rs fc.pending (count it) first fits) in
      (s.taken, s.rest, it', fc', e, spec.0, omega (arith, spec.1), spec.2, inv', p, q, l, k)
