-- ===== src/Clib/Decimal.antt =====
-- `fprintf` with `%d` for a number that is not negative: its decimal digits. An `int` has ten at most,
-- so that is the fuel.
use powmon.Base.{
  ℕ, zero, suc, ◌+◌, ◌*◌, ◌/◌, ◌%◌, ◌<◌, ◌≤◌, ◌≡◌, refl, ap, ◌∙◌, inl, inr, Bool-cases, List, [],
  ◌∷◌, ◌++◌, ltb, if◌then◌else◌, length, arith,
}
use powmon.Clib.Numbers.{value, AllDigits, written, ltb-true}
use mathlib.Core.Path.{subst}

pub digits_fuel : ℕ → ℕ → List ℕ
digits_fuel zero n = []
digits_fuel (suc fuel) n =
    let rest = digits_fuel fuel (n / 10) ++ n % 10 ∷ [] in if ltb n 10 then n ∷ [] else rest

unfoldable pub decimal : ℕ → List ℕ
unfolding digits_fuel
decimal n = written (digits_fuel 10 n)

-- the numbers of so many digits
abbrev pub bound : ℕ → ℕ
bound zero = 1
bound (suc n) = 10 * bound n

value-snoc : (acc : ℕ) (ds : List ℕ) (d : ℕ) → value acc (ds ++ d ∷ []) ≡ value acc ds * 10 + d
value-snoc acc [] d = refl
value-snoc acc (e ∷ ds) d = value-snoc (acc * 10 + e) ds d

AllDigits-snoc : (ds : List ℕ) (d : ℕ) → AllDigits ds → d < 10 → AllDigits (ds ++ d ∷ [])
AllDigits-snoc [] d h small = (small, tt)
AllDigits-snoc (e ∷ ds) d h small = (h.0, AllDigits-snoc ds d h.1 small)

length-snoc : (ds : List ℕ) (d : ℕ) → length (ds ++ d ∷ []) ≡ suc (length ds)
length-snoc [] d = refl
length-snoc (e ∷ ds) d = ap suc (length-snoc ds d)

-- The digits of a number.
pub record Spells (n fuel : ℕ) (ds : List ℕ) : Type 0 where
  pub first : ℕ
  pub others : List ℕ
  pub is : ds ≡ first ∷ others
  pub digits : AllDigits ds
  pub number : value 0 ds ≡ n
  pub short : length ds ≤ fuel

Spells-snoc :
    {n fuel d : ℕ} {ds : List ℕ}
    → d < 10
    → Spells n fuel ds
    → Spells (n * 10 + d) (suc fuel) (ds ++ d ∷ [])
Spells-snoc {d = d} {ds} small s = record {
  first = s.first;
  others = s.others ++ d ∷ [];
  is = ap (λ xs. xs ++ d ∷ []) s.is;
  digits = AllDigits-snoc ds d s.digits small;
  number = value-snoc 0 ds d ∙ ap (λ k. k * 10 + d) s.number;
  short = omega (arith, length-snoc ds d, s.short);
}

pub digits_fuel-Spells :
    (fuel n : ℕ) → n < bound (suc fuel) → Spells n (suc fuel) (digits_fuel (suc fuel) n)
unfolding digits_fuel
digits_fuel-Spells zero n h = rw (ltb-true {a = n} {b = 10} (omega arith)) (record {
  first = n;
  others = [];
  is = refl;
  digits = (omega arith, tt);
  number = omega arith;
  short = omega arith;
})
digits_fuel-Spells (suc fuel) n h = elim (Bool-cases (ltb n 10)) [
  | inl e ↦ rw e (record {
    first = n;
    others = [];
    is = refl;
    digits = (ground arith, tt);
    number = omega arith;
    short = omega arith;
  })
  | inr e ↦ rw e (
      subst (λ k. Spells k (suc (suc fuel)) (digits_fuel (suc fuel) (n / 10) ++ n % 10 ∷ []))
        {x = n / 10 * 10 + n % 10} {y = n} (omega arith)
        (Spells-snoc (omega arith) (digits_fuel-Spells fuel (n / 10) (omega arith))))
]
