-- ===== src/Sysfs/Paths.antt =====
-- The paths that pxd_fastpath_update finds in a text (pxd.c).
use pxmod.Common.{
  ℕ, ◌≡◌, refl, arith, Bool, true, false, none, some, List, [], ◌∷◌, ◌++◌, ◌==◌, ◌||◌, ◌&&◌, not,
}
use pxmod.Sysfs.{Ctype, scan, strtok_r, strip_nl, tokens, paths_of}

-- No character of the string is a comma or ends it.
abbrev pub plain : List ℕ → Bool
plain [] = true
plain (c ∷ cs) = not (c == 0 || c == 44) && plain cs

scan-comma : (t rest : List ℕ) → plain t ≡ true → scan 44 (t ++ 44 ∷ rest) ≡ some (t, some rest)
unfolding scan
scan-comma [] rest h = refl
scan-comma (c ∷ t) rest h =
    let a : (c == 0) ≡ false = ground arith in
    let b : (c == 44) ≡ false = ground arith in simp (a, b, scan-comma t rest (ground arith))

scan-nul : (t rest : List ℕ) → plain t ≡ true → scan 44 (t ++ 0 ∷ rest) ≡ some (t, none)
unfolding scan
scan-nul [] rest h = refl
scan-nul (c ∷ t) rest h =
    let a : (c == 0) ≡ false = ground arith in
    let b : (c == 44) ≡ false = ground arith in simp (a, b, scan-nul t rest (ground arith))

scan-past : (t : List ℕ) → plain t ≡ true → scan 44 t ≡ none
unfolding scan
scan-past [] h = refl
scan-past (c ∷ t) h =
    let a : (c == 0) ≡ false = ground arith in
    let b : (c == 44) ≡ false = ground arith in simp (a, b, scan-past t (ground arith))

module _ (ctype : Ctype) (p q r s₀ s₁ s₂ : List ℕ) (plain_p : plain p ≡ true)
    (plain_q : plain q ≡ true) (plain_r : plain r ≡ true) (e₀ : strip_nl ctype 256 p ≡ some s₀)
    (e₁ : strip_nl ctype 256 q ≡ some s₁) (e₂ : strip_nl ctype 256 r ≡ some s₂) where
  -- Three paths with commas between them, and the end of the string after them, are found, each
  -- stripped; of two paths the second is found twice.
  pub paths_of_lem :
      (rest : List ℕ)
      → (paths_of ctype (p ++ 44 ∷ (q ++ 44 ∷ (r ++ 0 ∷ rest))) ≡ some (s₀ ∷ s₁ ∷ s₂ ∷ []))
        × (paths_of ctype (p ++ 44 ∷ (q ++ 0 ∷ rest)) ≡ some (s₀ ∷ s₁ ∷ s₁ ∷ []))
  unfolding paths_of tokens strtok_r
  paths_of_lem rest = (
    simp (
      scan-comma p (q ++ 44 ∷ (r ++ 0 ∷ rest)) plain_p,
      scan-comma q (r ++ 0 ∷ rest) plain_q,
      scan-nul r rest plain_r,
      e₀,
      e₁,
      e₂,
    ),
    simp (scan-comma p (q ++ 0 ∷ rest) plain_p, scan-nul q rest plain_q, e₀, e₁),
  )

  -- Up to three paths, in a text that no 0 ends, are read past the end of the text.
  pub paths-unterminated :
      (paths_of ctype p ≡ none)
      × (paths_of ctype (p ++ 44 ∷ q) ≡ none)
      × (paths_of ctype (p ++ 44 ∷ (q ++ 44 ∷ r)) ≡ none)
  unfolding paths_of tokens strtok_r
  paths-unterminated = (
    simp (scan-past p plain_p),
    simp (scan-comma p q plain_p, scan-past q plain_q, e₀),
    simp (scan-comma p (q ++ 44 ∷ r) plain_p, scan-comma q r plain_q, scan-past r plain_r, e₀, e₁),
  )
