-- ===== src/Clib/Numbers.antt =====
-- What `sscanf` finds: a written number is read back.
use powmon.Base.{
  ℕ, ◌+◌, ◌-◌, ◌*◌, ◌<◌, ◌^◌, ap, ◌≡◌, refl, ◌∙◌, true, false, List, [], ◌∷◌, ◌++◌, ltb, ◌==◌,
  arith, pos,
}
use powmon.Clib.{is_digit, is_space, scan_digits, matched, scan_int}

-- a number by its digits, after those read already
abbrev pub value : ℕ → List ℕ → ℕ
value acc [] = acc
value acc (d ∷ ds) = value (acc * 10 + d) ds

abbrev pub AllDigits : List ℕ → Type 0
AllDigits [] = Unit
AllDigits (d ∷ ds) = (d < 10) × AllDigits ds

-- the characters of the digits
abbrev pub written : List ℕ → List ℕ
written [] = []
written (d ∷ ds) = (d + b'0') ∷ written ds

digit_char : (d : ℕ) → d < 10 → is_digit (d + b'0') ≡ true
digit_char d h = ground arith

pub not_space : (d : ℕ) → d < 10 → is_space (d + b'0') ≡ false
not_space d h = ground arith

not_minus : (d : ℕ) → d < 10 → (d + b'0' == b'-') ≡ false
not_minus d h = ground arith

not_plus : (d : ℕ) → d < 10 → (d + b'0' == b'+') ≡ false
not_plus d h = ground arith

pub ltb-true : {a b : ℕ} → a < b → ltb a b ≡ true
ltb-true h = ground arith

scan_digits-written :
    (acc : ℕ) (ds rest : List ℕ) (c : ℕ)
    → AllDigits ds
    → is_digit c ≡ false
    → scan_digits acc (written ds ++ (c ∷ rest)) ≡ value acc ds
unfolding scan_digits
scan_digits-written acc [] rest c h stop = rw stop refl
scan_digits-written acc (d ∷ ds) rest c h stop = rw (digit_char d h.0) (
    ap (λ n. scan_digits (acc * 10 + n) (written ds ++ (c ∷ rest))) {x = d + b'0' - b'0'} {y = d}
      (omega arith)
    ∙ scan_digits-written (acc * 10 + d) ds rest c h.1 stop)

-- `%d` reads back a decimal number that fits an `int`, up to the first byte that is no digit.
pub scan_int-written :
    (d : ℕ) (ds rest : List ℕ) (c : ℕ)
    → AllDigits (d ∷ ds)
    → is_digit c ≡ false
    → value 0 (d ∷ ds) < 2 ^ 31
    → scan_int (written (d ∷ ds) ++ (c ∷ rest)) ≡ matched (pos (value 0 (d ∷ ds)))
unfolding scan_int
scan_int-written d ds rest c h stop small =
    let first : scan_digits (d + b'0' - b'0') (written ds ++ (c ∷ rest)) ≡ value (0 * 10 + d) ds =
      ap (λ n. scan_digits n (written ds ++ (c ∷ rest))) {y = 0 * 10 + d} (omega arith)
      ∙ scan_digits-written (0 * 10 + d) ds rest c h.1 stop in
    rw (not_space d h.0) (
      rw (not_minus d h.0)
        (rw (not_plus d h.0) (rw (digit_char d h.0) (rw first (rw (ltb-true small) refl)))))

scan_digits-all :
    (acc : ℕ) (ds : List ℕ) → AllDigits ds → scan_digits acc (written ds) ≡ value acc ds
unfolding scan_digits
scan_digits-all acc [] h = refl
scan_digits-all acc (d ∷ ds) h = rw (digit_char d h.0) (
    ap (λ n. scan_digits (acc * 10 + n) (written ds)) {x = d + b'0' - b'0'} {y = d} (omega arith)
    ∙ scan_digits-all (acc * 10 + d) ds h.1)

-- The same where the text ends with the number.
pub scan_int-all :
    (d : ℕ) (ds : List ℕ)
    → AllDigits (d ∷ ds)
    → value 0 (d ∷ ds) < 2 ^ 31
    → scan_int (written (d ∷ ds)) ≡ matched (pos (value 0 (d ∷ ds)))
unfolding scan_int
scan_int-all d ds h small =
    let first : scan_digits (d + b'0' - b'0') (written ds) ≡ value (0 * 10 + d) ds =
      ap (λ n. scan_digits n (written ds)) {y = 0 * 10 + d} (omega arith)
      ∙ scan_digits-all (0 * 10 + d) ds h.1 in
    rw (not_space d h.0) (
      rw (not_minus d h.0)
        (rw (not_plus d h.0) (rw (digit_char d h.0) (rw first (rw (ltb-true small) refl)))))

-- `%d` passes over a space.
pub scan_int-space : (s : List ℕ) → scan_int (b' ' ∷ s) ≡ scan_int s
unfolding scan_int
scan_int-space s = refl
