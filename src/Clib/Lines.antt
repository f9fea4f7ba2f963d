-- ===== src/Clib/Lines.antt =====
-- The buffers of the reading loop put together are the file.
use powmon.Base.{
  ℕ, zero, suc, ◌-◌, ◌≤◌, ◌≡◌, refl, ap, ◌∙◌, Bool-cases, inl, inr, List, [], ◌∷◌, ◌++◌, length,
  ◌==◌, arith,
}
use powmon.Clib.{fgets, lines_fuel, lines, bufsiz}

fgets-append : (room : ℕ) (s : List ℕ) → (fgets room s).0 ++ (fgets room s).1 ≡ s
unfolding fgets
fgets-append zero s = refl
fgets-append (suc room) [] = refl
fgets-append (suc room) (c ∷ s) = elim (Bool-cases (c == 10)) [
  | inl e ↦ rw e refl
  | inr e ↦ rw e (ap (λ r. c ∷ r) (fgets-append room s))
]

fgets-le : (room : ℕ) (s : List ℕ) → length (fgets room s).1 ≤ length s
unfolding fgets
fgets-le zero s = omega arith
fgets-le (suc room) [] = omega arith
fgets-le (suc room) (c ∷ s) = elim (Bool-cases (c == 10)) [
  | inl e ↦ rw e (omega arith)
  | inr e ↦ rw e (omega (arith, fgets-le room s))
]

-- Where there is a byte and room for one, it is taken.
fgets-lt : (room c : ℕ) (s : List ℕ) → length (fgets (suc room) (c ∷ s)).1 ≤ length s
unfolding fgets
fgets-lt room c s = elim (Bool-cases (c == 10)) [
  | inl e ↦ rw e (omega arith)
  | inr e ↦ rw e (fgets-le room s)
]

abbrev concat : List (List ℕ) → List ℕ
concat [] = []
concat (l ∷ ls) = l ++ concat ls

concat-lines_fuel : (fuel : ℕ) (s : List ℕ) → length s ≤ fuel → concat (lines_fuel fuel s) ≡ s
unfolding lines_fuel
concat-lines_fuel zero [] h = refl
concat-lines_fuel zero (c ∷ s) h = absurd (omega arith)
concat-lines_fuel (suc fuel) [] h = refl
concat-lines_fuel (suc fuel) (c ∷ s) h =
    ap (λ r. (fgets (bufsiz - 1) (c ∷ s)).0 ++ r)
      (concat-lines_fuel fuel (fgets (bufsiz - 1) (c ∷ s)).1 (omega (arith, fgets-lt 8190 c s)))
    ∙ fgets-append (bufsiz - 1) (c ∷ s)

-- The buffers that the reading loop sees, one after the other, are the whole file: no byte is lost
-- or read twice, however long the lines are.
concat-lines : (s : List ℕ) → concat (lines s) ≡ s
unfolding lines
concat-lines s = concat-lines_fuel (length s) s (omega arith)
