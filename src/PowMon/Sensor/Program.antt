-- ===== src/PowMon/Sensor/Program.antt =====
-- `program_msr`, which switches the uncore clocks on before the first sampling.
use powmon.Base.{ℕ, zero, suc, ◌+◌, ◌≡◌, refl, inr, Bool, true, false, arith, length}
use powmon.Machine.{Machine, Trace}
use powmon.Machine.Rules
use powmon.Machine.Rules.{Runs, returns}
use powmon.Msr.Events.{open_fds, IsSafe}
use powmon.Msr.Laws.{Stopped, open_msr-bind, read_msr-bind, write_msr-Runs, set_cpu_affinity-Runs}
use powmon.PowMon.Data.{SysData}
use powmon.PowMon.Sensor.{enable_uclk, program_loop, program_msr}

-- The trace may have grown, and `count` more descriptors are open.
abbrev pub Leaked : ℕ → Trace → Trace → Type 0
Leaked count t t' = (length (open_fds t') ≡ length (open_fds t) + count) × IsSafe t'

pub enable_uclk-Runs :
    (m : Machine) (fd : ℕ) (has_uclk : Bool) (t : Trace)
    → IsSafe t
    → Runs (λ _. Leaked 0 t) (Stopped m) (enable_uclk m fd has_uclk t)
unfolding enable_uclk
enable_uclk-Runs m fd true t safe =
    read_msr-bind m fd _ t _ safe
      λ v p. write_msr-Runs m fd _ _ _ p (omega arith, ((refl, refl, inr (refl, refl)), p))
enable_uclk-Runs m fd false t safe = returns (omega arith, safe)

program_loop-Runs :
    (m : Machine) (rounds core : ℕ) (s : SysData) (t : Trace)
    → IsSafe t
    → Runs (λ r t'. (r ≡ 0) × Leaked rounds t t') (Stopped m) (program_loop m rounds core s t)
unfolding program_loop
program_loop-Runs m zero core s t safe = returns (refl, (omega arith, safe))
program_loop-Runs m (suc rounds) core s t safe =
    Rules.bind
      (set_cpu_affinity-Runs {Q = λ _. Leaked 0 t} m core t (omega arith, (tt, safe))
        (omega arith, safe))
      λ _ t₀ (same, safe₀). open_msr-bind m core t₀ _ safe₀ λ fd p.
        Rules.bind (enable_uclk-Runs m fd _ _ p) λ _ t₁ (kept, safe₁).
          Rules.mono (program_loop-Runs m rounds (core + 1) s t₁ safe₁)
            λ r t₂ rest. (rest.0, (omega (arith, rest.1.0), rest.1.1))

-- A `program_msr` that returns gives 0 and has left one descriptor open for every core; every write
-- set only the enable bit over the value just read. If it exits, a register access was refused.
pub program_msr-Leaked :
    (m : Machine) (s : SysData) (t : Trace)
    → IsSafe t
    → Runs (λ r t'. (r ≡ 0) × Leaked s.ncore t t') (Stopped m) (program_msr m s t)
unfolding program_msr
program_msr-Leaked m s t safe = program_loop-Runs m s.ncore 0 s t safe
