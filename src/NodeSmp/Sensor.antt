-- ===== src/NodeSmp/Sensor.antt =====
-- `read_msr_data` and `read_msr_data_first` of pow_node_smp/sensor_read_lib.c. The two differ in
-- two reads each: only the first sampling reads the power unit, and only the later ones read the
-- actual and the maximum performance counters. No sampling moves those two to their `_last` fields.
pub mod Parts
pub mod Sampling
use powmon.Base.{
  ℕ, ◌/◌, ◌^◌, bit_and, bit_or, Bool, true, false, ◌&&◌, ◌==◌, if◌then◌else◌, get_elem?, set, u32,
  is,
}
use powmon.Machine.{Machine, Cmd, pure, ◌>>=◌, ◌>>◌, checked}
use powmon.Msr.{read_msr, write_msr}
use powmon.Msr.Addresses.{
  msr_rapl_power_unit, msr_pkg_energy_status, msr_dram_energy_status, ia32_temperature_target,
  msr_ia32_therm_status, msr_ia32_package_therm_status, msr_core_perf_fixed_ctr0,
  msr_core_perf_fixed_ctr1, msr_core_perf_fixed_ctr2, msr_core_perf_fixed_ctr_ctrl, msr_mperf,
  msr_aperf, u_msr_pmon_uclk_fixed_ctr, haswell_ep,
}
use powmon.PowMon.Sensor.{temperature}
use powmon.Sweep.{every_core}
use powmon.NodeSmp.Data.{PerCoreData, PerCpuData, SysData}

module _ (m : Machine) where
  unfoldable pub read_die_temp : ℕ → ℕ → SysData → Cmd SysData
  read_die_temp fd cpuid s = do
    enabled ← checked (get_elem? s.die_temp_en cpuid)
    if enabled == 0
        then (do
          result ← read_msr m fd ia32_temperature_target
          pure (record s {
            die_temp = set s.die_temp cpuid (bit_and (result / 2 ^ 16) 0xff);
            die_temp_en = set s.die_temp_en cpuid 1;
          }))
        else pure s

  unfoldable pub read_unit : Bool → ℕ → PerCpuData → Cmd PerCpuData
  read_unit first fd c =
      if first
      then (do unit ← read_msr m fd msr_rapl_power_unit; pure (record c { erg_u = u32 unit }))
      else pure c

  unfoldable pub read_dram : ℕ → ℕ → PerCpuData → Cmd PerCpuData
  read_dram fd dram_supp c =
      if dram_supp == 1
      then (do
        value ← read_msr m fd msr_dram_energy_status
        pure (record c { pow_dram_c_last = c.pow_dram_c; pow_dram_c = u32 value }))
      else pure (record c { pow_dram_c = 0 })

  unfoldable pub read_uclk : ℕ → Bool → PerCpuData → Cmd PerCpuData
  read_uclk fd has_uclk c =
      if has_uclk
      then (do
        uclk ← read_msr m fd u_msr_pmon_uclk_fixed_ctr
        pure (record c { uclk_last = c.uclk; uclk = uclk }))
      else pure c

  unfoldable pub read_package : Bool → ℕ → ℕ → ℕ → SysData → Cmd SysData
  read_package first fd tsc cpuid s₀ = do
    c ← checked (get_elem? s₀.cpu_data cpuid)
    s ← read_die_temp fd cpuid s₀
    c₁ ← read_unit first fd (record c { tsc = tsc })
    pow_pkg ← read_msr m fd msr_pkg_energy_status
    result ← read_msr m fd msr_ia32_package_therm_status
    die_temp ← checked (get_elem? s.die_temp cpuid)
    c₂ ← read_dram fd s.dram_supp (record c₁ {
      pow_pkg_last = c₁.pow_pkg;
      pow_pkg = u32 pow_pkg;
      temp_pkg = temperature die_temp result;
    })
    c₃ ← read_uclk fd (s.extra_counters == 1 && is s.cpu_model haswell_ep) c₂
    pure (record s { cpu_data = set s.cpu_data cpuid c₃ })

  unfoldable pub read_performance : Bool → ℕ → PerCoreData → Cmd PerCoreData
  read_performance first fd c = if first then pure c else (do
    aperf ← read_msr m fd msr_aperf
    mperf ← read_msr m fd msr_mperf
    pure (record c { aperf = aperf; mperf = mperf }))

  unfoldable pub read_core : Bool → ℕ → ℕ → ℕ → ℕ → SysData → Cmd SysData
  read_core first fd tsc core cpuid s = do
    control ← read_msr m fd msr_core_perf_fixed_ctr_ctrl
    write_msr m fd msr_core_perf_fixed_ctr_ctrl (bit_or control 0x333)
    c ← checked (get_elem? s.core_data core)
    result ← read_msr m fd msr_ia32_therm_status
    die_temp ← checked (get_elem? s.die_temp cpuid)
    instr ← read_msr m fd msr_core_perf_fixed_ctr0
    clk_curr ← read_msr m fd msr_core_perf_fixed_ctr1
    clk_ref ← read_msr m fd msr_core_perf_fixed_ctr2
    c' ← read_performance first fd (record c {
      tsc_last = c.tsc;
      tsc = tsc;
      temp = temperature die_temp result;
      instr_last = c.instr;
      instr = instr;
      clk_curr_last = c.clk_curr;
      clk_curr = clk_curr;
      clk_ref_last = c.clk_ref;
      clk_ref = clk_ref;
    })
    pure (record s { core_data = set s.core_data core c' })

  unfoldable pub read_msr_data : SysData → Cmd SysData
  read_msr_data s = every_core m s.ncpu s.ncore (read_package false) (read_core false) s.ncore 0 0 s

  unfoldable pub read_msr_data_first : SysData → Cmd SysData
  read_msr_data_first s =
      every_core m s.ncpu s.ncore (read_package true) (read_core true) s.ncore 0 0 s
