-- ===== src/EnergyApp/Program.antt =====
-- The loop of `program_msr` in energy-app/sensor_read_lib.c and in powmpi/sensor_read_lib.c, where
-- `before` is what is done before the registers of a core are opened. The descriptors are not closed.
use powmon.Base.{ℕ, zero, suc, ◌+◌, ◌≡◌, refl, Bool, ◌&&◌, is, arith}
use powmon.Machine.{Machine, Trace, Cmd, pure, ◌>>=◌, ◌>>◌}
use powmon.Machine.Rules
use powmon.Machine.Rules.{Runs, returns}
use powmon.Msr.{open_msr}
use powmon.Msr.Addresses.{haswell_ep}
use powmon.Msr.Events.{IsSafe}
use powmon.Msr.Laws.{Stopped, open_msr-bind, set_cpu_affinity-Runs}
use powmon.Leaders.{is_leader}
use powmon.PowMon.Sensor.{enable_uclk}
use powmon.PowMon.Sensor.Program.{Leaked, enable_uclk-Runs}
use powmon.EnergyApp.{pin}
use powmon.EnergyApp.Data.{SysData}

module _ (m : Machine) (before : ℕ → Cmd (Unit {0})) (ncore : ℕ) (has_uclk : Bool) where
  unfoldable pub program_cores : ℕ → ℕ → Cmd ℕ
  program_cores zero core = pure 0
  program_cores (suc rounds) core = do
    before core
    fd ← open_msr m core
    enable_uclk m fd (is_leader core ncore && has_uclk)
    program_cores rounds (core + 1)

  module _
      (quiet : (core : ℕ) (t : Trace)
        → IsSafe t
        → Runs (λ _. Leaked 0 t) (Stopped m) (before core t)) where
    pub program_cores-Leaked :
        (rounds core : ℕ) (t : Trace)
        → IsSafe t
        → Runs (λ r t'. (r ≡ 0) × Leaked rounds t t') (Stopped m) (program_cores rounds core t)
    unfolding program_cores
    program_cores-Leaked zero core t safe = returns (refl, (omega arith, safe))
    program_cores-Leaked (suc rounds) core t safe =
        Rules.bind (quiet core t safe) λ _ t₀ (same, safe₀). open_msr-bind m core t₀ _ safe₀ λ fd p.
          Rules.bind (enable_uclk-Runs m fd _ _ p) λ _ t₁ (kept, safe₁).
            Rules.mono (program_cores-Leaked rounds (core + 1) t₁ safe₁)
              λ r t₂ rest. (rest.0, (omega (arith, rest.1.0), rest.1.1))

unfoldable pub program_msr : Machine → SysData → Cmd ℕ
unfolding program_cores
program_msr m s = program_cores m (pin m) s.ncore (is s.cpu_model haswell_ep) s.ncore 0

pub program_msr-Leaked :
    (m : Machine) (s : SysData) (t : Trace)
    → IsSafe t
    → Runs (λ r t'. (r ≡ 0) × Leaked s.ncore t t') (Stopped m) (program_msr m s t)
unfolding program_msr
program_msr-Leaked m s t safe =
    program_cores-Leaked m (pin m) s.ncore (is s.cpu_model haswell_ep)
      (λ core t safe.
        Rules.bind
          (set_cpu_affinity-Runs {Q = λ _. Leaked 0 t} m core t (omega arith, (tt, safe))
            (omega arith, safe))
          λ _ t' kept. returns kept)
      s.ncore 0 t safe
