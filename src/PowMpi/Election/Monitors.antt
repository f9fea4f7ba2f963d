-- ===== src/PowMpi/Election/Monitors.antt =====
-- The processes of a colour that monitor.
use native.Mathlib.Decide.{dec_lt}
use powmon.Base.{
  ℕ, zero, suc, ◌<◌, ◌≤◌, ◌≡◌, refl, sym, ap, ◌∙◌, ◌⊎◌, inl, inr, Bool, true, Bool-cases, ==→eq,
  eq→==, ℤ, pos, negsuc, arith,
}
use powmon.PowMon.Detect.Marks.{count_below}
use powmon.PowMpi.Election.{same_color, Splits, imonitor}

pub same_color-eq : (a b : ℤ) → same_color a b ≡ true → a ≡ b
same_color-eq (pos a) (pos b) e = ap pos (==→eq a b e)
same_color-eq (pos a) (negsuc b) e = absurd (cc e)
same_color-eq (negsuc a) (pos b) e = absurd (cc e)
same_color-eq (negsuc a) (negsuc b) e = ap negsuc (==→eq a b e)

pub same_color_refl : (a : ℤ) → same_color a a ≡ true
same_color_refl (pos a) = eq→== a a refl
same_color_refl (negsuc a) = eq→== a a refl

-- the first number below `n` that passes, if any does
first_below :
    (n : ℕ) (p : ℕ → Bool)
    → (count_below n p ≡ 0) ⊎ ((m : ℕ) × (m < n) × (p m ≡ true) × (count_below m p ≡ 0))
first_below zero p = inl refl
first_below (suc n) p = elim (first_below n p) [
  | inr (m, lt, hit, clear) ↦ inr (m, omega arith, hit, clear)
  | inl clear ↦ elim (Bool-cases (p n)) [
    | inl e ↦ inr (n, omega arith, e, clear)
    | inr e ↦ inl (rw e (omega (arith, clear)))
  ]
]

count_below-hit : (n m : ℕ) (p : ℕ → Bool) → m < n → p m ≡ true → 0 < count_below n p
count_below-hit zero m p lt e = absurd (omega arith)
count_below-hit (suc n) m p lt e = elim (dec_lt m n) [
  | yes h ↦ omega (arith, count_below-hit n m p h e)
  | no h ↦ let last : p n ≡ true = ap p {x = n} {y = m} (omega arith) ∙ e in rw last (omega arith)
]

imonitor-zero : (n : ℕ) → imonitor n ≡ 1 → n ≡ 0
imonitor-zero n e = ground arith

-- Whatever the colours are, each colour that a process has is that of exactly one process that
-- monitors, and this process is the first of that colour.
pub imonitor-one :
    (split : (ℕ → ℤ) → ℕ → ℕ) (colors : ℕ → ℤ) (rank : ℕ)
    → Splits split
    → (m : ℕ) × (m ≤ rank)
      × (colors m ≡ colors rank)
      × (imonitor (split colors m) ≡ 1)
      × ((q : ℕ) → colors q ≡ colors rank → imonitor (split colors q) ≡ 1 → q ≡ m)
imonitor-one split colors rank law = elim (first_below (suc rank) alike) [
  | inl clear ↦ absurd (
      omega (
        arith,
        clear,
        count_below-hit (suc rank) rank alike (omega arith) (same_color_refl (colors rank)),
      ))
  | inr (m, lt, hit, clear) ↦
      let same = same_color-eq (colors m) (colors rank) hit in
      (
        m,
        omega arith,
        same,
        rw (split-alike m same, clear) refl,
        λ q e mon.
            let zero_q = sym (split-alike q e) ∙ imonitor-zero (split colors q) mon in
            let hit_m = λ (lt : m < q). count_below-hit q m alike lt hit in
            let hit_q = λ (lt : q < m).
              count_below-hit m q alike lt
                (ap (λ c. same_color c (colors rank)) e ∙ same_color_refl (colors rank)) in
            elim (dec_lt m q) [
              | yes h ↦ absurd (omega (arith, hit_m h, zero_q))
              | no h ↦ elim (dec_lt q m) [
                | yes h' ↦ absurd (omega (arith, hit_q h', clear))
                | no h' ↦ omega arith
              ]
            ],
      )
]
  where
    alike : ℕ → Bool
    alike q = same_color (colors q) (colors rank)

    split-alike : (q : ℕ) → colors q ≡ colors rank → split colors q ≡ count_below q alike
    split-alike q e = law colors q ∙ ap (λ c. count_below q (λ i. same_color (colors i) c)) e
