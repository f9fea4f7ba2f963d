-- ===== src/EnergyApp/Report.antt =====
-- The command line that energy-app puts together, and the lines that `show_result` prints, with the
-- floating-point unit as a parameter.
use powmon.Base.{ℕ, ◌||◌, ◌==◌, if◌then◌else◌, List, [], ◌∷◌, ◌++◌, ℤ, pos, negsuc, ◌+◌, ◌-◌, ltb}
use powmon.Clib.{Outcome, ok, quit, ◌>>=◌, bytes}
use powmon.ForEach.{for_each}
use powmon.Fpu.{Fpu, Float}
use powmon.PowMon.Options.{same, fits}
use powmon.EnergyApp.{pkg_diff, dram_diff}
use powmon.EnergyApp.Data.{PerCpuData, SysData}

-- The loop over the arguments, with the line so far in its buffer of 8192 bytes.
unfoldable collect : List ℕ → List (List ℕ) → Outcome (List ℕ)
collect line [] = ok line
collect line (a ∷ args) =
    if same a (bytes "-v") || same a (bytes "-h")
    then quit 0
    else (do line' ← fits 8192 (line ++ a ++ bytes " "); collect line' args)

unfoldable pub command_line : List (List ℕ) → Outcome (List ℕ)
unfolding collect
command_line args = collect [] args

-- the values of a printed line
pub record PackageLine : Type 0 where
  pub drampow : Float
  pub pkgpow : Float
  pub dramerg : Float
  pub pkgerg : Float

-- `time_us_final - time_us_init`
abbrev pub minus : ℤ → ℤ → ℤ
minus (pos a) (pos b) = if ltb a b then negsuc (b - a - 1) else pos (a - b)
minus (pos a) (negsuc b) = pos (a + b + 1)
minus (negsuc a) (pos b) = negsuc (a + b)
minus (negsuc a) (negsuc b) = if ltb b a then negsuc (a - b - 1) else pos (b - a)

module _ (fpu : Fpu) where
  -- a count of the energy counter in the unit of the register: `diff * pow(0.5, unit)`
  abbrev pub energy : ℕ → ℕ → Float
  energy diff unit =
      fpu.float_of_double
        (fpu.mul (fpu.double_of_u64 diff) (fpu.pow (fpu.decimal 5 1) (fpu.double_of_u64 unit)))

  -- `erg / elapsed * 1e6`
  abbrev pub power : ℤ → Float → Float
  power elapsed erg = fpu.float_of_double (
      fpu.mul (fpu.double_of_float (fpu.div_float erg (fpu.float_of_int elapsed)))
        (fpu.decimal 1000000 0))

  unfoldable pub package_line : SysData → PerCpuData → PackageLine
  package_line s c =
      let elapsed = minus s.time_us_final s.time_us_init in
      let pkgerg = energy (pkg_diff c) c.erg_u in
      if s.dram_supp == 1 || s.dram_supp == 2
      then (let dramerg = energy (dram_diff c) c.erg_dram in
          record {
            drampow = power elapsed dramerg;
            pkgpow = power elapsed pkgerg;
            dramerg = dramerg;
            pkgerg = pkgerg;
          })
      else record {
        drampow = fpu.float_of_u64 0;
        pkgpow = power elapsed pkgerg;
        dramerg = fpu.float_of_u64 0;
        pkgerg = pkgerg;
      }

  abbrev pub show_package :
      SysData → ℕ → Unit {0} → PerCpuData → Unit {0} × PerCpuData × PackageLine
  show_package s cpuid l c = (tt, c, package_line s c)

  unfoldable pub show_result : SysData → Outcome (List PackageLine)
  unfolding for_each package_line
  show_result s = do (_, _, shown) ← for_each (show_package s) s.ncpu 0 tt s.cpu_data; ok shown
