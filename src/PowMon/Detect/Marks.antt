-- ===== src/PowMon/Detect/Marks.antt =====
-- What marking an id in the tables of `detect_topology` does.
use mathlib.Core.Path.{subst}
use powmon.Base.{
  ℕ, zero, suc, ◌+◌, ◌≡◌, refl, sym, ap, ◌∙◌, inl, inr, Bool, true, false, Bool-cases, ◌||◌, not,
  Option-cases, some, List, [], ◌∷◌, ◌==◌, if◌then◌else◌, arith, get_elem?, set, length, length-set,
  ℤ, pos, negsuc, is,
}
use powmon.Clib.{
  Outcome, ok, matched, unmatched, out_of_range, ok-injective, ◌>>=◌, has_prefix, scan_after,
}
use powmon.PowMon.Detect.{Table, is_minus_one, mark_at, mark, note_line}

-- the flag of `i` is set
abbrev pub flagged : List ℤ → ℕ → Bool
flagged [] i = false
flagged (z ∷ zs) zero = not (is_minus_one z)
flagged (z ∷ zs) (suc i) = flagged zs i

abbrev pub count_below : ℕ → (ℕ → Bool) → ℕ
count_below zero p = 0
count_below (suc n) p = (if p n then 1 else 0) + count_below n p

-- how many flags are set
abbrev pub count_flags : List ℤ → ℕ
count_flags [] = 0
count_flags (z ∷ zs) = (if is_minus_one z then 0 else 1) + count_flags zs

-- The table after its lines, one after the other.
unfoldable pub note_lines : List ℕ → ℕ → List (List ℕ) → Table → Outcome Table
note_lines tag words [] t = ok t
note_lines tag words (line ∷ rest) t = note_line tag words line t >>= note_lines tag words rest

-- The values of the variable at the lines with the tag, from the value `last` before them.
abbrev pub numbers : List ℕ → ℕ → List (List ℕ) → ℤ → List ℤ
numbers tag words [] last = []
numbers tag words (line ∷ rest) last =
    if has_prefix tag line
    then elim (scan_after words line) [
      | matched z ↦ z ∷ numbers tag words rest z
      | unmatched ↦ last ∷ numbers tag words rest last
      | out_of_range ↦ []
    ]
    else numbers tag words rest last

abbrev pub contains : ℕ → List ℤ → Bool
contains i [] = false
contains i (z ∷ zs) = is z i || contains i zs

-- A flag set where there was none is counted.
count_flags-set :
    (zs : List ℤ) (i : ℕ) {z : ℤ}
    → get_elem? zs i ≡ some z
    → is_minus_one z ≡ true
    → count_flags (set zs i (pos 1)) ≡ count_flags zs + 1
count_flags-set [] i e h = cc
count_flags-set (z ∷ zs) zero e h = ground arith
count_flags-set (z ∷ zs) (suc i) e h = omega (arith, count_flags-set zs i e h)

flagged-set :
    (zs : List ℤ) (i : ℕ) {z : ℤ} (j : ℕ)
    → get_elem? zs i ≡ some z
    → flagged (set zs i (pos 1)) j ≡ (i == j || flagged zs j)
flagged-set [] i j e = cc
flagged-set (z ∷ zs) zero zero e = refl
flagged-set (z ∷ zs) zero (suc j) e = ground arith
flagged-set (z ∷ zs) (suc i) zero e = ground arith
flagged-set (z ∷ zs) (suc i) (suc j) e = flagged-set zs i j e ∙ ground arith

flagged_old :
    (zs : List ℤ) (i : ℕ) {z : ℤ} (j : ℕ)
    → get_elem? zs i ≡ some z
    → is_minus_one z ≡ false
    → flagged zs j ≡ (i == j || flagged zs j)
flagged_old [] i j e h = cc
flagged_old (z ∷ zs) zero zero e h = ground arith
flagged_old (z ∷ zs) zero (suc j) e h = ground arith
flagged_old (z ∷ zs) (suc i) zero e h = ground arith
flagged_old (z ∷ zs) (suc i) (suc j) e h = flagged_old zs i j e h ∙ ground arith

-- The total is the number of flags set.
abbrev pub Counted : Table → Type 0
Counted t = t.total ≡ count_flags t.flags

pub record Marked (z : ℤ) (t t' : Table) : Type 0 where
  pub counted : Counted t → Counted t'
  pub size : length t'.flags ≡ length t.flags
  pub flags : (j : ℕ) → flagged t'.flags j ≡ (is z j || flagged t.flags j)
  pub number : t'.number ≡ t.number

mark_at-Marked :
    (i : ℕ) (z : ℤ) (t t' : Table)
    → get_elem? t.flags i ≡ some z
    → mark_at (some z) i t ≡ ok t'
    → Marked (pos i) t t'
unfolding mark_at
mark_at-Marked i z t t' e h = elim (Bool-cases (is_minus_one z)) [
  | inl new ↦ subst (Marked (pos i) t) (ok-injective _ t' (rw new at h)) (record {
    counted = λ c. omega (arith, count_flags-set t.flags i e new);
    size = length-set t.flags i (pos 1);
    flags = λ j. flagged-set t.flags i j e;
    number = refl;
  })
  | inr old ↦ subst (Marked (pos i) t) (ok-injective _ t' (rw old at h)) (record {
    counted = λ c. c;
    size = refl;
    flags = λ j. flagged_old t.flags i j e old;
    number = refl;
  })
]

pub mark-Marked : (z : ℤ) (t t' : Table) → mark z t ≡ ok t' → Marked z t t'
unfolding mark mark_at
mark-Marked (negsuc i) t t' h = cc
mark-Marked (pos i) t t' h = elim (Option-cases (get_elem? t.flags i)) [
  | inl e ↦ cc (ap (λ o. mark_at o i t) (sym e) ∙ h)
  | inr (z, e) ↦ mark_at-Marked i z t t' e (ap (λ o. mark_at o i t) (sym e) ∙ h)
]

or_shuffle : (a b c : Bool) → (a || (b || c)) ≡ ((b || a) || c)
or_shuffle true b c = ground arith
or_shuffle false b c = ground arith

-- The flags set are those set before and those of the numbers.
pub record Noted (zs : List ℤ) (t t' : Table) : Type 0 where
  pub counted : Counted t → Counted t'
  pub size : length t'.flags ≡ length t.flags
  pub flags : (j : ℕ) → flagged t'.flags j ≡ (contains j zs || flagged t.flags j)

pub Noted-cons :
    (z : ℤ) (zs : List ℤ) {t t₁ t' : Table}
    → Marked z (record t { number = z }) t₁
    → Noted zs t₁ t'
    → Noted (z ∷ zs) t t'
Noted-cons z zs {t} {t₁} m n = record {
  counted = λ c. n.counted (m.counted c);
  size = n.size ∙ m.size;
  flags = λ j.
      n.flags j
      ∙ ap (λ b. contains j zs || b) (m.flags j)
      ∙ or_shuffle (contains j zs) (is z j) (flagged t.flags j);
}
