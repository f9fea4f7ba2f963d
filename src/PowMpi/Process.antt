-- ===== src/PowMpi/Process.antt =====
-- `poli_init` and `poli_finalize` of powmpi/powmpi.c, which an MPI program calls within `MPI_Init` and
-- `MPI_Finalize`, and the detection of powmpi/sensor_read_lib.c. MPI is a parameter. The barriers and
-- what `show_result` prints are left out.
pub mod Energy
use powmon.Base.{
  ℕ, zero, suc, ◌≡◌, Bool, true, false, ◌||◌, ◌==◌, if◌then◌else◌, Option, none, some, List, [],
  ◌∷◌, length, ℤ, pos, is, is_positive, is_negative, minus_one,
}
use powmon.Machine.{Machine, Trace, Cmd, ret, exit, pure, ◌>>=◌, ◌>>◌}
use powmon.PowMon.Start.{command}
use powmon.EnergyApp.Data.{SysData}
use powmon.EnergyApp.Main.{Node, allocated, init_pow_mon}
use powmon.PowMpi.Election.{imonitor}
use powmon.PowMpi.Detect.{detect_cpu_model, detect_topology}
use powmon.PowMpi.{init_msr_data, final_msr_energy, program_msr}

module _ (node : Node) where
  abbrev pub timed : Trace → SysData → SysData
  timed t s = record s { time_us_init = node.now t }

  unfoldable pub first_reading : SysData → Cmd SysData
  first_reading s = do _ ← program_msr node.machine s; λ t. init_msr_data node.machine (timed t s) t

  -- the branch of `poli_init` for the process that monitors
  unfoldable pub monitor_init : Cmd SysData
  unfolding first_reading
  monitor_init = do
    (model, s₁) ← command (detect_cpu_model (some node.model_file) init_pow_mon)
    if is_negative model then exit 1 else (do
      (status, s₂) ← command (detect_topology (some node.topology_file) s₁)
      if is status 0 then first_reading (allocated node s₂) else exit 1)

-- A process from `MPI_Init` to `MPI_Finalize`, with the data at its end if it monitors.
unfoldable pub process : Node → ℕ → Cmd (Unit {0}) → Cmd (Option SysData)
unfolding monitor_init
process node node_rank program =
    if imonitor node_rank == 1
    then (do s ← monitor_init node; program; s' ← final_msr_energy node.machine s; pure (some s'))
    else (do program; pure none)
