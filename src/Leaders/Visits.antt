-- ===== src/Leaders/Visits.antt =====
-- Which packages a sweep over the cores samples, and how often.
use native.Mathlib.Nat.{div-lt_iff_lt-mul, div-eq_of_lt, div-eq_of_eq-mul_left, zero-add}
use mathlib.Core.Path.{ap₂}
use powmon.Base.{
  ℕ, zero, suc, ◌+◌, ◌*◌, ◌-◌, ◌/◌, ◌≤◌, ◌<◌, ◌≡◌, ◌≢◌, refl, sym, ap, ◌∙◌, ◌⊎◌, inl, inr, true,
  false, ◌&&◌, ◌==◌, if◌then◌else◌, arith,
}
use powmon.Leaders.{is_leader, package_of}

-- 1 if the round of `core` samples the package `j`, and 0 if not
abbrev pub hit : ℕ → ℕ → ℕ → ℕ → ℕ
hit j ncpu ncore core = if is_leader core ncore && package_of core ncpu ncore == j then 1 else 0

-- how often the rounds from `core` on sample the package `j`
unfoldable pub visits : ℕ → ℕ → ℕ → ℕ → ℕ → ℕ
visits j ncpu ncore zero core = 0
visits j ncpu ncore (suc rounds) core =
    hit j ncpu ncore core + visits j ncpu ncore rounds (core + 1)

visits-add :
    (j ncpu ncore a b core : ℕ)
    → visits j ncpu ncore (a + b) core
      ≡ visits j ncpu ncore a core + visits j ncpu ncore b (core + a)
unfolding visits
visits-add j ncpu ncore zero b core =
    ap₂ (visits j ncpu ncore) (omega arith) (omega arith) ∙ sym (zero-add _)
visits-add j ncpu ncore (suc a) b core =
    let here = hit j ncpu ncore core in
    let shift : visits j ncpu ncore b (core + 1 + a) ≡ visits j ncpu ncore b (core + suc a) =
      ap (visits j ncpu ncore b) (omega arith) in
    ap (λ n. visits j ncpu ncore n core) {y = suc (a + b)} (omega arith)
    ∙ omega (arith, visits-add j ncpu ncore a b (core + 1), shift)

-- Rounds that miss core 0 and the middle core sample no package.
visits-quiet :
    (j ncpu ncore rounds core : ℕ)
    → 0 < core
    → (core + rounds ≤ ncore / 2) ⊎ (ncore / 2 < core)
    → visits j ncpu ncore rounds core ≡ 0
unfolding visits
visits-quiet j ncpu ncore zero core pos side = refl
visits-quiet j ncpu ncore (suc rounds) core pos side =
    ground (arith, visits-quiet j ncpu ncore rounds (core + 1))

visits-one : (j ncpu ncore core : ℕ) → visits j ncpu ncore 1 core ≡ hit j ncpu ncore core
unfolding visits
visits-one j ncpu ncore core = omega arith

-- A whole sweep samples packages on core 0 and on the middle core, and on no other.
visits_total :
    (j ncpu ncore : ℕ)
    → 2 ≤ ncore
    → visits j ncpu ncore ncore 0 ≡ hit j ncpu ncore 0 + hit j ncpu ncore (ncore / 2)
visits_total j ncpu ncore h =
    let half = ncore / 2 in
    let rest = ncore - half - 1 in
    let split : visits j ncpu ncore ncore 0
        ≡ visits j ncpu ncore (1 + ((half - 1) + (1 + rest))) 0 =
      ap (λ n. visits j ncpu ncore n 0) (omega arith) in
    omega (
      arith,
      split,
      visits-add j ncpu ncore 1 ((half - 1) + (1 + rest)) 0,
      visits-add j ncpu ncore (half - 1) (1 + rest) (0 + 1),
      visits-add j ncpu ncore 1 rest (0 + 1 + (half - 1)),
      visits-one j ncpu ncore 0,
      visits-quiet j ncpu ncore (half - 1) (0 + 1) (omega arith) (inl (omega arith)),
      visits-quiet j ncpu ncore rest (0 + 1 + (half - 1) + 1) (omega arith) (inr (omega arith)),
      ap (visits j ncpu ncore 1) {x = 0 + 1 + (half - 1)} {y = half} (omega arith),
      visits-one j ncpu ncore half,
    )

-- A leader's package is in range.
pub package_of-lt :
    (core ncpu ncore : ℕ) → core < ncore → 0 < ncpu → package_of core ncpu ncore < ncpu
package_of-lt core ncpu ncore h p = (div-lt_iff_lt-mul {k = ncore} (omega arith)).1 (grind arith)

-- With one socket, both rounds that sample a package sample package 0.
pub visits_single : (ncore : ℕ) → 2 ≤ ncore → visits 0 1 ncore ncore 0 ≡ 2
visits_single ncore h =
    let low : 0 * 1 / ncore ≡ 0 = div-eq_of_lt (omega arith) in
    let mid : ncore / 2 * 1 / ncore ≡ 0 = div-eq_of_lt (omega arith) in
    ground (arith, visits_total 0 1 ncore h, low, mid)

-- With two sockets of equally many cores, each package is sampled once.
pub visits_dual : (j half : ℕ) → j < 2 → 1 ≤ half → visits j 2 (2 * half) (2 * half) 0 ≡ 1
visits_dual j half small h =
    let low : 0 * 2 / (2 * half) ≡ 0 = div-eq_of_lt (omega arith) in
    let halves : 2 * half / 2 ≡ half = omega arith in
    let mid : half * 2 / (2 * half) ≡ 1 = div-eq_of_eq-mul_left (omega arith) (omega arith) in
    ground (arith, visits_total j 2 (2 * half) (omega arith), low, halves, mid)

-- With more than two sockets of equally many cores, at most two packages are ever sampled.
pub visits_rest :
    (j ncpu ncore : ℕ)
    → 2 ≤ ncore
    → 0 < j
    → j ≢ package_of (ncore / 2) ncpu ncore
    → visits j ncpu ncore ncore 0 ≡ 0
visits_rest j ncpu ncore h pos ne =
    let low : 0 * ncpu / ncore ≡ 0 = div-eq_of_lt (omega arith) in
    ground (arith, visits_total j ncpu ncore h, low)

module _ (j ncpu ncore core : ℕ) where
  pub hit-other :
      is_leader core ncore ≡ true → hit j ncpu ncore core ≡ 0 → package_of core ncpu ncore ≢ j
  hit-other e h = ground arith

  pub hit-same :
      is_leader core ncore ≡ true → hit j ncpu ncore core ≡ 1 → package_of core ncpu ncore ≡ j
  hit-same e h = ground arith

  pub hit-idle : is_leader core ncore ≡ false → hit j ncpu ncore core ≢ 1
  hit-idle e h = ground arith

  pub hit-cases : (hit j ncpu ncore core ≡ 0) ⊎ (hit j ncpu ncore core ≡ 1)
  hit-cases = ground arith
