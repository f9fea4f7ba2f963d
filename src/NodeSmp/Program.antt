-- ===== src/NodeSmp/Program.antt =====
-- `program_msr` of pow_node_smp/sensor_read_lib.c. The descriptors are not closed.
use powmon.Base.{ℕ, zero, suc, ◌+◌, ◌≡◌, refl, ◌&&◌, is, arith}
use powmon.Machine.{Machine, Trace, Cmd, pure, ◌>>=◌, ◌>>◌}
use powmon.Machine.Rules
use powmon.Machine.Rules.{Runs, returns}
use powmon.Msr.{open_msr, set_cpu_affinity}
use powmon.Msr.Addresses.{haswell_ep}
use powmon.Msr.Events.{IsSafe}
use powmon.Msr.Laws.{Stopped, open_msr-bind, set_cpu_affinity-Runs}
use powmon.Leaders.{is_leader}
use powmon.PowMon.Sensor.{enable_uclk}
use powmon.PowMon.Sensor.Program.{Leaked, enable_uclk-Runs}
use powmon.NodeSmp.Data.{SysData}

unfoldable pub program_loop : Machine → ℕ → ℕ → SysData → Cmd ℕ
program_loop m zero core s = pure 0
program_loop m (suc rounds) core s = do
  _ ← set_cpu_affinity m core
  fd ← open_msr m core
  enable_uclk m fd (is_leader core s.ncore && is s.cpu_model haswell_ep)
  program_loop m rounds (core + 1) s

unfoldable pub program_msr : Machine → SysData → Cmd ℕ
unfolding program_loop
program_msr m s = program_loop m s.ncore 0 s

program_loop-Leaked :
    (m : Machine) (rounds core : ℕ) (s : SysData) (t : Trace)
    → IsSafe t
    → Runs (λ r t'. (r ≡ 0) × Leaked rounds t t') (Stopped m) (program_loop m rounds core s t)
unfolding program_loop
program_loop-Leaked m zero core s t safe = returns (refl, (omega arith, safe))
program_loop-Leaked m (suc rounds) core s t safe =
    Rules.bind
      (set_cpu_affinity-Runs {Q = λ _. Leaked 0 t} m core t (omega arith, (tt, safe))
        (omega arith, safe))
      λ _ t₀ (same, safe₀). open_msr-bind m core t₀ _ safe₀ λ fd p.
        Rules.bind (enable_uclk-Runs m fd _ _ p) λ _ t₁ (kept, safe₁).
          Rules.mono (program_loop-Leaked m rounds (core + 1) s t₁ safe₁)
            λ r t₂ rest. (rest.0, (omega (arith, rest.1.0), rest.1.1))

-- A `program_msr` that returns gives 0 and has left one descriptor open for every core. Otherwise it
-- has stopped at a refused access.
pub program_msr-opens :
    (m : Machine) (s : SysData) (t : Trace)
    → IsSafe t
    → Runs (λ r t'. (r ≡ 0) × Leaked s.ncore t t') (Stopped m) (program_msr m s t)
unfolding program_msr
program_msr-opens m s t safe = program_loop-Leaked m s.ncore 0 s t safe
