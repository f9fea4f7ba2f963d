-- ===== src/PowMon/Detect/Tally.antt =====
-- One table of `detect_topology`: what a file's lines make of it.
use mathlib.Core.Path.{subst, fun_ext}
use powmon.Base.{
  ℕ, zero, suc, ◌+◌, ◌≡◌, refl, sym, ap, ◌∙◌, inl, inr, Bool, false, Bool-cases, ◌||◌, List, [],
  ◌∷◌, if◌then◌else◌, arith, length, length-replicate, replicate, ℤ, pos, minus_one,
}
use powmon.Clib.{
  ok, matched, unmatched, out_of_range, Scanned, ok-injective, >>=-eq-ok, ◌>>=◌, has_prefix,
  scan_after, assign,
}
use powmon.PowMon.Detect.{Table, mark, note_line, fresh}
use powmon.PowMon.Detect.Marks.{
  flagged, count_below, count_flags, note_lines, numbers, contains, mark-Marked, Noted, Noted-cons,
}

module _ (tag : List ℕ) (words : ℕ) where
  -- a line whose number is `z`
  note_number :
      (z : ℤ) (ls : List (List ℕ)) (t t' : Table)
      → ((u u' : Table)
          → note_lines tag words ls u ≡ ok u'
          → Noted (numbers tag words ls u.number) u u')
      → (mark z (record t { number = z }) >>= note_lines tag words ls) ≡ ok t'
      → Noted (z ∷ numbers tag words ls z) t t'
  note_number z ls t t' more h =
      let (t₁, first, rest) =
        >>=-eq-ok (mark z (record t { number = z })) (note_lines tag words ls) h in
      let m = mark-Marked z (record t { number = z }) t₁ first in
      Noted-cons z (numbers tag words ls z) m
        (subst (λ k. Noted (numbers tag words ls k) t₁ t') m.number (more t₁ t' rest))

  -- After any lines that `detect_topology` gets past, the table has exactly the flags of the numbers.
  note_lines-Noted :
      (ls : List (List ℕ)) (t t' : Table)
      → note_lines tag words ls t ≡ ok t'
      → Noted (numbers tag words ls t.number) t t'
  unfolding note_lines note_line
  note_lines-Noted [] t t' h =
      subst (Noted [] t) (ok-injective t t' h)
        (record { counted = λ c. c; size = refl; flags = λ j. refl })
  note_lines-Noted (line ∷ ls) t t' h = elim (Bool-cases (has_prefix tag line)) [
    | inr other ↦ rw other (note_lines-Noted ls t t' (rw other at h))
    | inl hit ↦ rw hit (by_scan (scan_after words line) (note_lines-Noted ls) (rw hit at h))
  ]
    where
      by_scan :
          (sc : Scanned)
          → ((u u' : Table)
              → note_lines tag words ls u ≡ ok u'
              → Noted (numbers tag words ls u.number) u u')
          → (assign sc t.number
              >>= (λ n. mark n (record t { number = n }))
              >>= note_lines tag words ls)
            ≡ ok t'
          → Noted
              (elim sc [
                | matched z ↦ z ∷ numbers tag words ls z
                | unmatched ↦ t.number ∷ numbers tag words ls t.number
                | out_of_range ↦ []
              ])
              t
              t'
      by_scan (matched z) more e = note_number z ls t t' more e
      by_scan unmatched more e = note_number t.number ls t t' more e
      by_scan out_of_range more e = cc

count_below-shift :
    (n : ℕ) (p : ℕ → Bool)
    → count_below (suc n) p ≡ (if p 0 then 1 else 0) + count_below n (λ i. p (suc i))
count_below-shift zero p = refl
count_below-shift (suc n) p = omega (arith, count_below-shift n p)

count_below-ext :
    (n : ℕ) (p q : ℕ → Bool) → ((i : ℕ) → p i ≡ q i) → count_below n p ≡ count_below n q
count_below-ext n p q e = ap (count_below n) (fun_ext e)

count_flags-below : (zs : List ℤ) → count_flags zs ≡ count_below (length zs) (flagged zs)
count_flags-below [] = refl
count_flags-below (z ∷ zs) =
    ground (arith, count_flags-below zs, count_below-shift (length zs) (flagged (z ∷ zs)))

flagged-fresh : (size j : ℕ) → flagged (replicate size minus_one) j ≡ false
flagged-fresh zero j = refl
flagged-fresh (suc size) zero = refl
flagged-fresh (suc size) (suc j) = flagged-fresh size j

count_flags-fresh : (size : ℕ) → count_flags (replicate size minus_one) ≡ 0
count_flags-fresh zero = refl
count_flags-fresh (suc size) = omega (arith, count_flags-fresh size)

or_false : (b : Bool) → (b || false) ≡ b
or_false b = ground arith

-- From a fresh table, the total is how many indices below the size occur among the numbers.
pub note_lines-total :
    (tag : List ℕ) (words size : ℕ) (ls : List (List ℕ)) (t : Table)
    → note_lines tag words ls (fresh size) ≡ ok t
    → t.total ≡ count_below size (λ j. contains j (numbers tag words ls (pos 0)))
note_lines-total tag words size ls t h =
    let n = note_lines-Noted tag words ls (fresh size) t h in
    let zs = numbers tag words ls (pos 0) in
    n.counted (sym (count_flags-fresh size))
    ∙ count_flags-below t.flags
    ∙ ap (λ k. count_below k (flagged t.flags)) (n.size ∙ length-replicate size minus_one)
    ∙ count_below-ext size (flagged t.flags) (λ j. contains j zs)
        λ j.
          n.flags j ∙ ap (λ b. contains j zs || b) (flagged-fresh size j) ∙ or_false (contains j zs)
