-- ===== src/Sysfs/Strip.antt =====
-- __strip_nl (pxd.c).
use pxmod.Common.{
  ℕ, zero, suc, ap, ◌∙◌, ◌+◌, ◌-◌, ◌≤◌, ◌<◌, ◌≡◌, refl, arith, true, false, none, some, List, [],
  ◌∷◌, ◌++◌, length, length-append, leb, ◌&&◌, Bool-cases, inl, inr,
}
use pxmod.Common.Int.{pos, negsuc, ◌+ℤ◌}
use pxmod.Sysfs.{Ctype, blank, take, all_blank, strip_end, strip_front, strip_nl}

take-length : (xs : List ℕ) → take (length xs) xs ≡ xs
take-length [] = refl
take-length (x ∷ xs) = ap (λ l. x ∷ l) (take-length xs)

pos-dec : (n : ℕ) → pos (suc n) +ℤ negsuc 0 ≡ pos n
pos-dec n = ground arith

pos-dec_add : (a k : ℕ) → pos (suc a + k) +ℤ negsuc 0 ≡ pos (a + k)
pos-dec_add a k = ground arith

neg-dec : (n : ℕ) → negsuc n +ℤ negsuc 0 ≡ negsuc (suc n)
neg-dec n = ground arith

-- The last character is no blank.
abbrev pub EndsBare : Ctype → List ℕ → Type 0
EndsBare ctype [] = true ≡ false
EndsBare ctype (c ∷ []) = blank ctype c ≡ false
EndsBare ctype (c ∷ d ∷ cs) = EndsBare ctype (d ∷ cs)

-- A string that starts and ends with a character that is no blank, or that is empty.
abbrev pub Trimmed : Ctype → List ℕ → Type 0
Trimmed ctype [] = true ≡ true
Trimmed ctype (c ∷ cs) = (blank ctype c ≡ false) × EndsBare ctype (c ∷ cs)

module _ (ctype : Ctype) where
  all_blank-append :
      (xs ys : List ℕ) → all_blank ctype ys ≡ true → all_blank ctype (xs ++ ys) ≡ all_blank ctype xs
  all_blank-append [] ys h = h
  all_blank-append (x ∷ xs) ys h = ap (λ b. blank ctype x && b) (all_blank-append xs ys h)

  strip_end-blank : (ys : List ℕ) → all_blank ctype ys ≡ true → strip_end ctype ys ≡ []
  unfolding strip_end
  strip_end-blank [] h = refl
  strip_end-blank (y ∷ ys) h = simp h

  strip_end-append :
      (xs ys : List ℕ) → all_blank ctype ys ≡ true → strip_end ctype (xs ++ ys) ≡ strip_end ctype xs
  unfolding strip_end
  strip_end-append [] ys h = strip_end-blank ys h
  strip_end-append (x ∷ xs) ys h = simp (all_blank-append xs ys h, strip_end-append xs ys h)

  EndsBare-bare : (c : ℕ) (cs : List ℕ) → EndsBare ctype (c ∷ cs) → all_blank ctype (c ∷ cs) ≡ false
  EndsBare-bare c [] h = ground arith
  EndsBare-bare c (d ∷ cs) h =
      let more : all_blank ctype (d ∷ cs) ≡ false = EndsBare-bare d cs h in ground arith

  -- Blanks inside are kept.
  strip_end-EndsBare :
      (c : ℕ) (cs : List ℕ) → EndsBare ctype (c ∷ cs) → strip_end ctype (c ∷ cs) ≡ c ∷ cs
  unfolding strip_end
  strip_end-EndsBare c [] h = simp h
  strip_end-EndsBare c (d ∷ cs) h =
      let keeps : (blank ctype c && all_blank ctype (d ∷ cs)) ≡ false =
        (let more = EndsBare-bare d cs h in ground arith) in
      simp keeps (ap (λ l. c ∷ l) (strip_end-EndsBare d cs h))

  -- The blanks in front are counted.
  front-skips :
      (pre s : List ℕ) (k : ℕ)
      → all_blank ctype pre ≡ true
      → strip_front ctype (pre ++ s) (pos (length pre + k)) ≡ strip_front ctype s (pos k)
  unfolding strip_front
  front-skips [] s k h = ap (λ n. strip_front ctype s (pos n)) (omega arith)
  front-skips (c ∷ pre) s k h =
      let b : blank ctype c ≡ true = ground arith in
      simp (b, pos-dec_add (length pre) k) (front-skips pre s k (ground arith))

  front-blank :
      (s : List ℕ) → all_blank ctype s ≡ true → strip_front ctype s (pos (length s)) ≡ some []
  unfolding strip_front
  front-blank [] h = refl
  front-blank (c ∷ s) h =
      let b : blank ctype c ≡ true = ground arith in
      simp (b, pos-dec (length s)) (front-blank s (ground arith))

  front-negative : (s : List ℕ) (k : ℕ) → strip_front ctype s (negsuc k) ≡ none
  unfolding strip_front
  front-negative [] k = refl
  front-negative (c ∷ s) k = elim (Bool-cases (blank ctype c)) [
    | inl b ↦ simp (b, neg-dec k) (front-negative s (suc k))
    | inr b ↦ simp b
  ]

  front-short :
      (pre rest : List ℕ) (k : ℕ)
      → all_blank ctype pre ≡ true
      → k < length pre
      → strip_front ctype (pre ++ rest) (pos k) ≡ none
  unfolding strip_front
  front-short [] rest k h p = absurd (omega arith)
  front-short (c ∷ pre) rest zero h p =
      let b : blank ctype c ≡ true = ground arith in simp b (front-negative (pre ++ rest) 0)
  front-short (c ∷ pre) rest (suc k) h p =
      let b : blank ctype c ≡ true = ground arith in
      simp (b, pos-dec k) (front-short pre rest k (ground arith) (omega arith))

  front-Trimmed :
      (t post : List ℕ)
      → Trimmed ctype t
      → all_blank ctype post ≡ true
      → strip_front ctype (t ++ post) (pos (length (t ++ post))) ≡ some t
  unfolding strip_front
  front-Trimmed [] post trimmed h = front-blank post h
  front-Trimmed (c ∷ cs) post (b, e) h = simp b (
      ap some (
        ap (strip_end ctype) (take-length ((c ∷ cs) ++ post))
        ∙ strip_end-append (c ∷ cs) post h
        ∙ strip_end-EndsBare c cs e))

  fits-run :
      (maxlen : ℕ) (s : List ℕ)
      → length s < maxlen
      → strip_nl ctype maxlen s ≡ strip_front ctype s (pos (length s))
  unfolding strip_nl strip_front
  fits-run maxlen [] h = refl
  fits-run maxlen (c ∷ cs) h =
      let short : leb maxlen (length (c ∷ cs)) ≡ false = ground arith in simp short

  -- A string that is shorter than the buffer: blanks, a text that starts and ends with a character
  -- that is no blank or that is empty, and blanks again. What is left is the text, with the blanks
  -- that stand inside it.
  pub strip_nl_lem :
      (maxlen : ℕ) (pre t post : List ℕ)
      → all_blank ctype pre ≡ true
      → Trimmed ctype t
      → all_blank ctype post ≡ true
      → length (pre ++ (t ++ post)) < maxlen
      → strip_nl ctype maxlen (pre ++ (t ++ post)) ≡ some t
  strip_nl_lem maxlen pre t post h trimmed h' short =
      fits-run maxlen (pre ++ (t ++ post)) short
      ∙ ap (λ k. strip_front ctype (pre ++ (t ++ post)) (pos k)) (length-append pre (t ++ post))
      ∙ front-skips pre (t ++ post) (length (t ++ post)) h
      ∙ front-Trimmed t post trimmed h'

  -- A string that starts with at least as many blanks as the buffer has room for makes the function
  -- copy a negative number of characters, or read before the buffer.
  pub strip_nl-overruns :
      (maxlen : ℕ) (pre rest : List ℕ)
      → all_blank ctype pre ≡ true
      → 0 < maxlen
      → maxlen ≤ length pre
      → strip_nl ctype maxlen (pre ++ rest) ≡ none
  unfolding strip_nl
  strip_nl-overruns maxlen [] rest h p q = absurd (omega arith)
  strip_nl-overruns maxlen (c ∷ pre) rest h p q =
      let long : leb maxlen (length (c ∷ pre ++ rest)) ≡ true =
        ground (arith, length-append pre rest) in
      simp long (front-short (c ∷ pre) rest (maxlen - 1) h (omega arith))
