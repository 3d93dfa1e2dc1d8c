-- ===== src/Fastpath/Paths/Held.antt =====
-- The files that an array of pointers holds, and the loops that open and close them.
use native.Mathlib.Decide.{dec_lt, ℕ_discrete as dec_eq}
use mathlib.Core.Path.{ap₂}
use pxmod.Common.{
  ℕ, zero, suc, ◌+◌, ◌-◌, ◌≤◌, ◌<◌, ◌≡◌, ◌≢◌, refl, ◌∙◌, ap, sym, subst, fun_ext, arith, ◌==◌, Bool,
  true, false, Option, none, some, List, [], ◌∷◌, update, one_if, occurs, occurs-cons,
  occurs-list_del, occurs-nil, Bool-cases, Option-cases, inl, inr, ◌⊎◌,
}
use pxmod.Device.State.{Fastpath}
use pxmod.Fastpath.Files.{FileOps}
use pxmod.Fastpath.Paths.{open_path, open_one, open_all, close_all, drop_files, close_file}

abbrev pub holds : Option ℕ → ℕ → ℕ
holds none h = 0
holds (some f) h = one_if (f == h)

-- How often the file `h` stands among the pointers `i`, …, `i` + `n` - 1.
unfoldable pub held : (ℕ → Option ℕ) → ℕ → ℕ → ℕ → ℕ
held file i zero h = 0
held file i (suc n) h = holds (file i) h + held file (suc i) n h

pub held-split :
    (file : ℕ → Option ℕ) (i m n h : ℕ)
    → held file i (m + n) h ≡ held file i m h + held file (i + m) n h
unfolding held
held-split file i zero n h =
    let e : 0 + n ≡ n = omega arith in let e' : i + 0 ≡ i = omega arith in rw (e, e') (omega arith)
held-split file i (suc m) n h =
    let e : suc m + n ≡ suc (m + n) = omega arith in
    let e' : i + suc m ≡ suc i + m = omega arith in
    rw (e, e') (omega (arith, held-split file (suc i) m n h))

pub held-none :
    (file : ℕ → Option ℕ) (i n h : ℕ) → ((j : ℕ) → i ≤ j → file j ≡ none) → held file i n h ≡ 0
unfolding held
held-none file i zero h empty = refl
held-none file i (suc n) h empty =
    let rest = held-none file (suc i) n h (λ j p. empty j (omega arith)) in
    rw (empty i (omega arith)) (omega (arith, rest))

pub held-update :
    (file : ℕ → Option ℕ) (k : ℕ) (v : Option ℕ) (i n h : ℕ)
    → ((j : ℕ) → i ≤ j → j < i + n → k ≢ j)
    → held (update file k v) i n h ≡ held file i n h
unfolding held
held-update file k v i zero h apart = refl
held-update file k v i (suc n) h apart =
    let rest = held-update file k v (suc i) n h (λ j p q. apart j (omega arith) (omega arith)) in
    ground (arith, apart i (omega arith) (omega arith), rest)

held-one : (file : ℕ → Option ℕ) (i h : ℕ) → held file i 1 h ≡ holds (file i) h
unfolding held
held-one file i h = omega arith

pub held-snoc :
    (file : ℕ → Option ℕ) (n h : ℕ) → held file 0 (suc n) h ≡ held file 0 n h + holds (file n) h
held-snoc file n h = omega (
  arith,
  ap (λ k. held file 0 k h) (let e : suc n ≡ n + 1 = omega arith in e),
  held-split file 0 n 1 h,
  ap (λ i. held file i 1 h) (let e : 0 + n ≡ n = omega arith in e),
  held-one file n h,
)

-- A list in which nothing occurs is empty.
pub occurs-zero : (xs : List ℕ) → ((h : ℕ) → occurs h xs ≡ 0) → xs ≡ []
occurs-zero [] none_there = refl
occurs-zero (x ∷ xs) none_there = absurd (ground (arith, none_there x, occurs-cons x x xs))

-- The first `k` pointers are the open files, each of them once, and the others are NULL.
pub record Opened (k : ℕ) (fp : Fastpath) : Type 0 where
  pub files : (h : ℕ) → occurs h fp.open_files ≡ held fp.file 0 k h
  pub beyond : (j : ℕ) → k ≤ j → fp.file j ≡ none
  pub there : (j : ℕ) → j < k → fp.file j ≢ none

-- Of `fp` only the pointers and the open files have changed.
abbrev pub reopened : Fastpath → (ℕ → Option ℕ) → List ℕ → Fastpath
reopened fp file open_files = record fp { file = file; open_files = open_files }

-- The loop that opens the files ends with a prefix of them open, and with all of them if it says so.
pub record OpenRun (files : FileOps) (mode : ℕ) (force : Bool) (i n : ℕ) (fp : Fastpath)
    : Type 0 where
  pub good : Bool
  pub file : ℕ → Option ℕ
  pub open_files : List ℕ
  pub upto : ℕ
  pub runs : open_all files mode force i n fp ≡ (good, reopened fp file open_files)
  pub within : upto ≤ i + n
  pub opened : Opened upto (reopened fp file open_files)
  pub all : (good ≡ false) ⊎ (upto ≡ i + n)
  pub kept : (j : ℕ) → j < i → file j ≡ fp.file j
  pub from_paths :
      (good ≡ false)
      ⊎ ((j : ℕ) → i ≤ j → j < i + n → files.filp_open (fp.device_path j) mode ≡ file j)

module _ (files : FileOps) (mode : ℕ) (force : Bool) (i : ℕ) (fp : Fastpath)
    (empty : fp.file i ≡ none) where
  open_one-none :
      files.filp_open (fp.device_path i) mode ≡ none → open_one files mode force i fp ≡ (false, fp)
  unfolding open_one open_path
  open_one-none e = ground arith

  open_one-some :
      (f : ℕ)
      → files.filp_open (fp.device_path i) mode ≡ some f
      → open_one files mode force i fp
        ≡ (files.is_backing f, reopened fp (update fp.file i (some f)) (f ∷ fp.open_files))
  unfolding open_one open_path
  open_one-some f e = ground arith

open-Opened :
    (i f : ℕ) (fp : Fastpath)
    → Opened i fp
    → Opened (suc i) (reopened fp (update fp.file i (some f)) (f ∷ fp.open_files))
open-Opened i f fp o = record {
  files = λ h. ground (
    arith,
    o.files h,
    occurs-cons h f fp.open_files,
    held-snoc (update fp.file i (some f)) i h,
    held-update fp.file i (some f) 0 i h (λ j p q. omega arith),
  );
  beyond = λ j p. ground (arith, o.beyond j (omega arith));
  there = λ j p. elim (dec_eq i j) [
    | yes e ↦ ground arith
    | no e ↦ ground (arith, o.there j (omega arith))
  ];
}

update-below :
    (file : ℕ → Option ℕ) (i : ℕ) (v : Option ℕ) (j : ℕ) → j < i → update file i v j ≡ file j
update-below file i v j p = ground arith

update-at : (file : ℕ → Option ℕ) (i : ℕ) (v : Option ℕ) → update file i v i ≡ v
update-at file i v = ground arith

pub open_all_lem :
    (files : FileOps) (mode : ℕ) (force : Bool) (i n : ℕ) (fp : Fastpath)
    → Opened i fp
    → OpenRun files mode force i n fp
unfolding open_all
open_all_lem files mode force i zero fp o = record {
  good = true;
  file = fp.file;
  open_files = fp.open_files;
  upto = i;
  runs = refl;
  within = omega arith;
  opened = o;
  all = inr (omega arith);
  kept = λ j p. refl;
  from_paths = inr (λ j p q. absurd (omega arith));
}
open_all_lem files mode force i (suc n) fp o =
    let empty = o.beyond i (omega arith) in
    elim (Option-cases (files.filp_open (fp.device_path i) mode)) [
      | inl e ↦ record {
        good = false;
        file = fp.file;
        open_files = fp.open_files;
        upto = i;
        runs = rw (open_one-none files mode force i fp empty e) refl;
        within = omega arith;
        opened = o;
        all = inl refl;
        kept = λ j p. refl;
        from_paths = inl refl;
      }
      | inr (f, e) ↦
          let fp' = reopened fp (update fp.file i (some f)) (f ∷ fp.open_files) in
          let one = open_one-some files mode force i fp empty f e in
          let o' = open-Opened i f fp o in
          elim (Bool-cases (files.is_backing f)) [
            | inr odd ↦ record {
              good = false;
              file = fp'.file;
              open_files = fp'.open_files;
              upto = suc i;
              runs = rw (one, odd) refl;
              within = omega arith;
              opened = o';
              all = inl refl;
              kept = λ j p. update-below fp.file i (some f) j p;
              from_paths = inl refl;
            }
            | inl backing ↦
                let rest = open_all_lem files mode force (suc i) n fp' o' in
                record {
                  good = rest.good;
                  file = rest.file;
                  open_files = rest.open_files;
                  upto = rest.upto;
                  runs = rw (one, backing) rest.runs;
                  within = omega (arith, rest.within);
                  opened = rest.opened;
                  all = elim rest.all [ inl b ↦ inl b | inr u ↦ inr (omega arith) ];
                  kept = λ j p. rest.kept j (omega arith) ∙ update-below fp.file i (some f) j p;
                  from_paths = elim rest.from_paths [
                    | inl b ↦ inl b
                    | inr later ↦ inr (λ j p q. elim (dec_eq i j) [
                      | no other ↦ later j (omega arith) (omega arith)
                      | yes here ↦
                          subst (λ k. files.filp_open (fp.device_path k) mode ≡ rest.file k) here
                            (e ∙ sym (rest.kept i (omega arith) ∙ update-at fp.file i (some f)))
                    ])
                  ];
                }
          ]
    ]

-- The open files are those of the pointers `i`, …, `i` + `n` - 1; closing them leaves none, and
-- changes nothing else.
pub close_all_lem :
    (i n : ℕ) (fp : Fastpath)
    → ((h : ℕ) → occurs h fp.open_files ≡ held fp.file i n h)
    → close_all i n fp ≡ record fp { open_files = [] }
unfolding close_all held
close_all_lem i zero fp mine =
    ap (λ (l : List ℕ). record fp { open_files = l }) (occurs-zero fp.open_files mine)
close_all_lem i (suc n) fp mine = elim (Option-cases (fp.file i)) [
  | inl e ↦ rw (e, close_all) (close_all_lem (suc i) n fp (λ h. ground (arith, mine h)))
  | inr (f, e) ↦
      rw (e, close_all)
        (close_all_lem (suc i) n (close_file f fp)
          (λ h. ground (arith, mine h, occurs-list_del h f fp.open_files)))
]

pub drop_files_lem :
    (i n : ℕ) (fp : Fastpath)
    → ((h : ℕ) → occurs h fp.open_files ≡ held fp.file i n h)
    → ((j : ℕ) → j < i → fp.file j ≡ none)
    → ((j : ℕ) → i + n ≤ j → fp.file j ≡ none)
    → drop_files i n fp ≡ reopened fp (λ j. none) []
unfolding drop_files held
drop_files_lem i zero fp mine before after =
    ap₂ (reopened fp)
      (fun_ext (λ j. elim (dec_lt j i) [ yes p ↦ before j p | no p ↦ after j (omega arith) ]))
      (occurs-zero fp.open_files mine)
drop_files_lem i (suc n) fp mine before after = elim (Option-cases (fp.file i)) [
  | inl e ↦
      rw (e, drop_files)
        (drop_files_lem (suc i) n fp (λ h. ground (arith, mine h))
          (λ j p. elim (dec_eq i j) [ yes q ↦ rw (← q) e | no q ↦ before j (omega arith) ])
          (λ j p. after j (omega arith)))
  | inr (f, e) ↦
      rw (e, drop_files)
        (drop_files_lem (suc i) n (record (close_file f fp) { file = update fp.file i none })
          (λ h. ground (
            arith,
            mine h,
            occurs-list_del h f fp.open_files,
            held-update fp.file i none (suc i) n h (λ j p q. omega arith),
          ))
          (λ j p. elim (dec_eq i j) [
            | yes q ↦ ground arith
            | no q ↦ ground (arith, before j (omega arith))
          ])
          (λ j p. ground (arith, after j (omega arith))))
]

-- No file is open.
pub Off-Opened : (fp : Fastpath) → fp.open_files ≡ [] → ((j : ℕ) → fp.file j ≡ none) → Opened 0 fp
unfolding held
Off-Opened fp no_files no_pointers = record {
  files = λ h. ap (occurs h) no_files ∙ occurs-nil h;
  beyond = λ j p. no_pointers j;
  there = λ j p. absurd (omega arith);
}

-- A prefix of the first `n` pointers is open, and the others are NULL.
pub Opened-held :
    (k n : ℕ) (fp : Fastpath)
    → k ≤ n
    → Opened k fp
    → (h : ℕ) → occurs h fp.open_files ≡ held fp.file 0 n h
Opened-held k n fp p o h =
    let e : n ≡ k + (n - k) = omega arith in
    omega (
      arith,
      o.files h,
      ap (λ m. held fp.file 0 m h) e,
      held-split fp.file 0 k (n - k) h,
      held-none fp.file (0 + k) (n - k) h (λ j q. o.beyond j (omega arith)),
    )
