-- ===== src/Fpu.antt =====
-- The floating-point arithmetic of the monitors. What the compiler, the processor and the mathematics
-- library make of it is a parameter; the formulas that the programs share are here.
use powmon.Base.{ℕ, ℤ, Bool}

-- a `float`, as the number that its 32 bits spell
abbrev pub Float : Type 0
Float = ℕ

-- a `double`, as the number that its 64 bits spell
abbrev pub Double : Type 0
Double = ℕ

-- What the compiler and the processor make of the floating-point operations.
pub record Fpu : Type 0 where
  -- the literal with these digits and so many of them after the point
  pub decimal : ℕ → ℕ → Double
  pub double_of_u64 : ℕ → Double
  pub double_of_float : Float → Double
  pub float_of_double : Double → Float
  pub float_of_u64 : ℕ → Float
  pub sub : Double → Double → Double
  pub less : Double → Double → Bool
  pub mul : Double → Double → Double
  pub div : Double → Double → Double
  pub div_float : Float → Float → Float
  pub double_of_int : ℤ → Double
  pub float_of_int : ℤ → Float
  pub pow : Double → Double → Double

module _ (fpu : Fpu) where
  abbrev million : Double
  million = fpu.double_of_u64 1000000

  -- a count times a factor, for each second of the interval `dt`
  abbrev pub times_per_dt : Float → ℕ → Double → Float
  times_per_dt dt count factor =
      fpu.float_of_double
        (fpu.div (fpu.mul (fpu.double_of_u64 count) factor) (fpu.double_of_float dt))

  -- `(factor * count) / base`
  abbrev pub ratio : Double → ℕ → ℕ → Double
  ratio factor count base =
      fpu.div (fpu.mul factor (fpu.double_of_u64 count)) (fpu.double_of_u64 base)

  -- `(1.0 * count / base) * nom_freq / 1000000`
  abbrev pub mhz : Float → ℕ → ℕ → Float
  mhz nom_freq count base = fpu.float_of_double (
      fpu.div (fpu.mul (ratio (fpu.decimal 10 1) count base) (fpu.double_of_float nom_freq))
        million)

  -- `(diff / dt) / 1000000`
  abbrev pub uclk_rate : Float → ℕ → Float
  uclk_rate dt diff =
      fpu.div_float (fpu.div_float (fpu.float_of_u64 diff) dt) (fpu.float_of_u64 1000000)
