-- ===== src/Boot/Laws.antt =====
-- pxd_init (pxd.c).
use pxmod.Common.{
  ℕ, zero, suc, ◌+◌, ◌≤◌, ◌≡◌, ◌⊎◌, inl, inr, refl, arith, true, false, ◌&&◌, none, some, List, [],
  ◌∷◌, ◌++◌, leb, ltb, length, length-append, Bool-cases,
}
use pxmod.Common.Int.{ℤ, pos, is_zero, enomem}
use pxmod.Conn.Lifecycle.{fuse_abort_conn, fuse_conn_put, fuse_conn_init, new_conn}
use pxmod.Control.{Control, Module, cancel_abort, pxd_context_destroy}
use pxmod.Boot.{Boot, Answers, new_context, drop, pxd_context_init, init_contexts, destroy_contexts}

-- No process has any of the contexts open.
abbrev pub AllClosed : List Control → Type 0
AllClosed [] = true ≡ true
AllClosed (c ∷ cs) = (c.fc.connected ≡ false) × AllClosed cs

AllClosed-append :
    (cs : List Control) (c : Control)
    → AllClosed cs
    → c.fc.connected ≡ false
    → AllClosed (cs ++ c ∷ [])
AllClosed-append [] c h e = (e, refl)
AllClosed-append (d ∷ cs) c h e = (h.0, AllClosed-append cs c h.1 e)

pub length-drop :
    {A : Type 0} (n : ℕ) (xs : List A) → n ≤ length xs → length (drop n xs) + n ≡ length xs
length-drop zero xs h = omega arith
length-drop (suc n) [] h = absurd (omega arith)
length-drop (suc n) (x ∷ xs) h = omega (arith, length-drop n xs (omega arith))

destroy-runs :
    (cpu : ℕ) (m : Module) (c : Control)
    → c.fc.connected ≡ false
    → (c' : Control) × (pxd_context_destroy cpu m c ≡ some c')
unfolding pxd_context_destroy fuse_abort_conn
destroy-runs cpu m c off = elim (Bool-cases (ltb c.id m.pxd_num_contexts_exported)) [
  | inl exported ↦ (record (cancel_abort c) { fc = fuse_conn_put c.fc }, simp (exported, off))
  | inr hidden ↦ (cancel_abort c, simp hidden)
]

module _ (m : Module) (a : Answers) where
  pub destroy-all :
      (cpu j : ℕ) (cs : List Control)
      → AllClosed cs
      → destroy_contexts m a cpu j cs ≡ some (drop j cs)
  unfolding destroy_contexts
  destroy-all cpu zero cs h = refl
  destroy-all cpu (suc j) [] h = refl
  destroy-all cpu (suc j) (c ∷ cs) h =
      let (c', e) = destroy-runs cpu m c h.0 in simp e (destroy-all cpu j cs h.1)

  context_init-closed :
      (i : ℕ)
      → a.zeroed.connected ≡ false
      → ((err : ℤ) × (pxd_context_init m a i ≡ (err, none)) × (is_zero err ≡ false))
        ⊎ ((c : Control) × (pxd_context_init m a i ≡ (pos 0, some c)) × (c.fc.connected ≡ false))
  unfolding pxd_context_init fuse_conn_init new_conn
  context_init-closed i off = elim (Bool-cases (leb m.pxd_num_contexts_exported i)) [
    | inl hidden ↦ inr (new_context a.zeroed a.empty 600 i, simp hidden, off)
    | inr exported ↦
        elim (Bool-cases
          ((a.allocs i).request_map && (a.allocs i).free_ids && (a.allocs i).per_cpu_ids)) [
            | inl all ↦
                inr (new_context (new_conn a.zeroed.reqs) a.empty 600 i, simp (exported, all), refl)
            | inr some_failed ↦ inl (enomem, simp (exported, some_failed), refl)
          ]
  ]

  -- The loop over the contexts has stopped before the context `j`, from the state `b`.
  pub record Stopped (b : Boot) (r : ℤ × ℕ × Boot) : Type 0 where
    pub closed : AllClosed r.2.contexts
    pub registered : length r.2.registered ≡ r.1
    pub contexts :
        ((is_zero r.0 ≡ true) × (length r.2.contexts ≡ r.1))
        ⊎ ((is_zero r.0 ≡ false) × (r.1 ≤ length r.2.contexts) × (length r.2.contexts ≤ suc r.1))
    pub frame : r.2 ≡ record b { contexts = r.2.contexts; registered = r.2.registered }

  pub loop-Stopped :
      (n i : ℕ) (b : Boot)
      → a.zeroed.connected ≡ false
      → AllClosed b.contexts
      → length b.contexts ≡ i
      → length b.registered ≡ i
      → Stopped b (init_contexts m a n i b)
        × (is_zero (init_contexts m a n i b).0 ≡ true → (init_contexts m a n i b).1 ≡ i + n)
  unfolding init_contexts
  loop-Stopped zero i b off closed p q = (
    record { closed = closed; registered = q; contexts = inl (refl, p); frame = refl },
    λ e. omega arith,
  )
  loop-Stopped (suc n) i b off closed p q = elim (context_init-closed i off) [
    | inl (err, e, bad) ↦ simp e (
      record {
        closed = closed;
        registered = q;
        contexts = inr (bad, omega arith, omega arith);
        frame = refl;
      },
      λ z. cc,
    )
    | inr (c, e, off_c) ↦
        let more = AllClosed-append b.contexts c closed off_c in
        let len = length-append b.contexts (c ∷ []) in
        elim (Bool-cases (is_zero (a.misc_register i))) [
          | inr bad ↦
              simp (e, bad)
                (
                  record {
                    closed = more;
                    registered = q;
                    contexts = inr (bad, omega (arith, len), omega (arith, len));
                    frame = refl;
                  },
                  λ z. cc,
                )
          | inl good ↦
              let b' = record b {
                contexts = b.contexts ++ c ∷ [];
                registered = b.registered ++ i ∷ [];
              } in
              let (s, last) =
                loop-Stopped n (suc i) b' off more (omega (arith, len))
                  (omega (arith, length-append b.registered (i ∷ []))) in
              simp (e, good)
                (
                  record {
                    closed = s.closed;
                    registered = s.registered;
                    contexts = s.contexts;
                    frame = s.frame;
                  },
                  λ z. omega (arith, last z),
                )
        ]
  ]
