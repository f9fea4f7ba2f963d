-- ===== src/PowMon/Sensor.antt =====
-- The sampling of the registers by powmon/bin/sensor_read_lib.c: `read_msr_data`,
-- `read_msr_data_first` and `program_msr`. The loop over the cores runs on the rounds left, and
-- `cpuid` is carried from one round to the next as in the source.
pub mod Counters
pub mod Package
pub mod Program
pub mod Core
pub mod Sweep
pub mod Rounds
pub mod Step
pub mod Sampling
use powmon.Base.{
  ℕ, zero, suc, ◌+◌, ◌*◌, ◌/◌, ◌^◌, bit_and, bit_or, Bool, ◌&&◌, ◌||◌, ◌==◌, if◌then◌else◌,
  get_elem?, set, u32, sub_u64, is,
}
use powmon.Machine.{Machine, Cmd, pure, ◌>>=◌, ◌>>◌, checked}
use powmon.Msr.{open_msr, read_msr, write_msr, close_msr, read_tsc, set_cpu_affinity}
use powmon.Msr.Addresses.{
  msr_rapl_power_unit, msr_pkg_energy_status, msr_dram_energy_status, msr_core_c3_residency,
  msr_core_c6_residency, msr_pkg_c2_residency, msr_pkg_c3_residency, msr_pkg_c6_residency,
  ia32_temperature_target, msr_ia32_therm_status, msr_ia32_package_therm_status, temp_mask,
  msr_core_perf_fixed_ctr0, msr_core_perf_fixed_ctr1, msr_core_perf_fixed_ctr2,
  msr_core_perf_fixed_ctr_ctrl, msr_mperf, msr_aperf, u_msr_pmon_uclk_fixed_ctl,
  u_msr_pmon_uclk_fixed_ctr, haswell_ep,
}
use powmon.Leaders.{is_leader, package_of}
use powmon.PowMon.Data.{PerCoreData, PerCpuData, SysData}

-- `dieTemp - ((result & TEMP_MASK) >> 16)`, computed on 64 bits and stored in an `unsigned int`
abbrev pub temperature : ℕ → ℕ → ℕ
temperature die_temp result = u32 (sub_u64 die_temp (bit_and result temp_mask / 2 ^ 16))

module _ (m : Machine) where
  unfoldable pub read_die_temp : ℕ → ℕ → SysData → Cmd SysData
  read_die_temp fd cpuid s = do
    enabled ← checked (get_elem? s.die_temp_en cpuid)
    if enabled == 0
        then (do
          result ← read_msr m fd ia32_temperature_target
          pure (record s {
            die_temp = set s.die_temp cpuid (bit_and (result / 2 ^ 16) 0xff);
            die_temp_en = set s.die_temp_en cpuid 1;
          }))
        else pure s

  unfoldable pub read_dram : ℕ → ℕ → PerCpuData → Cmd PerCpuData
  read_dram fd dram_supp c =
      if dram_supp == 1
      then (do
        value ← read_msr m fd msr_dram_energy_status
        pure (record c { pow_dram_c_last = c.pow_dram_c; pow_dram_c = u32 value }))
      else pure (record c { pow_dram_c = 0 })

  unfoldable pub read_uclk : ℕ → Bool → PerCpuData → Cmd PerCpuData
  read_uclk fd has_uclk c =
      if has_uclk
      then (do
        uclk ← read_msr m fd u_msr_pmon_uclk_fixed_ctr
        pure (record c { uclk_last = c.uclk; uclk = uclk }))
      else pure c

  unfoldable pub read_residency : ℕ → SysData → PerCpuData → Cmd PerCpuData
  read_residency fd s c =
      if s.extra_counters == 1
      then (do
        c2 ← read_msr m fd msr_pkg_c2_residency
        c3 ← read_msr m fd msr_pkg_c3_residency
        c6 ← read_msr m fd msr_pkg_c6_residency
        read_uclk fd (is s.cpu_model haswell_ep) (record c {
          c2_last = c.c2;
          c2 = c2;
          c3_last = c.c3;
          c3 = c3;
          c6_last = c.c6;
          c6 = c6;
        }))
      else pure c

  -- the part of a round that samples the package `cpuid`
  unfoldable pub read_package : ℕ → ℕ → ℕ → SysData → Cmd SysData
  read_package fd tsc cpuid s₀ = do
    c ← checked (get_elem? s₀.cpu_data cpuid)
    s ← read_die_temp fd cpuid s₀
    erg_u ← read_msr m fd msr_rapl_power_unit
    pow_pkg ← read_msr m fd msr_pkg_energy_status
    result ← read_msr m fd msr_ia32_package_therm_status
    die_temp ← checked (get_elem? s.die_temp cpuid)
    c' ← read_dram fd s.dram_supp (record c {
      tsc = tsc;
      erg_u = u32 erg_u;
      pow_pkg_last = c.pow_pkg;
      pow_pkg = u32 pow_pkg;
      temp_pkg = temperature die_temp result;
    })
    c'' ← read_residency fd s c'
    pure (record s { cpu_data = set s.cpu_data cpuid c'' })

  -- the part of a round that samples the core, with the fixed counters switched on first
  unfoldable pub read_core : ℕ → ℕ → ℕ → ℕ → SysData → Cmd SysData
  read_core fd tsc core cpuid s = do
    control ← read_msr m fd msr_core_perf_fixed_ctr_ctrl
    write_msr m fd msr_core_perf_fixed_ctr_ctrl (bit_or control 0x333)
    c ← checked (get_elem? s.core_data core)
    result ← read_msr m fd msr_ia32_therm_status
    die_temp ← checked (get_elem? s.die_temp cpuid)
    instr ← read_msr m fd msr_core_perf_fixed_ctr0
    clk_curr ← read_msr m fd msr_core_perf_fixed_ctr1
    clk_ref ← read_msr m fd msr_core_perf_fixed_ctr2
    c3 ← read_msr m fd msr_core_c3_residency
    c6 ← read_msr m fd msr_core_c6_residency
    aperf ← read_msr m fd msr_aperf
    mperf ← read_msr m fd msr_mperf
    pure (record s {
      core_data = set s.core_data core (record c {
        tsc_last = c.tsc;
        tsc = tsc;
        temp = temperature die_temp result;
        instr_last = c.instr;
        instr = instr;
        clk_curr_last = c.clk_curr;
        clk_curr = clk_curr;
        clk_ref_last = c.clk_ref;
        clk_ref = clk_ref;
        c3_last = c.c3;
        c3 = c3;
        c6_last = c.c6;
        c6 = c6;
        aperf_last = c.aperf;
        mperf_last = c.mperf;
        aperf = aperf;
        mperf = mperf;
      });
    })

  -- `cpuid` and the data after the package part of a round
  unfoldable pub visit_package : ℕ → ℕ → ℕ → ℕ → SysData → Cmd (ℕ × SysData)
  visit_package fd tsc core cpuid s =
      if is_leader core s.ncore
      then (do
        let own = package_of core s.ncpu s.ncore
        s' ← read_package fd tsc own s
        pure (own, s'))
      else pure (cpuid, s)

  unfoldable pub sweep : ℕ → ℕ → ℕ → SysData → Cmd SysData
  sweep zero core cpuid s = pure s
  sweep (suc rounds) core cpuid s = do
    _ ← set_cpu_affinity m core
    fd ← open_msr m core
    tsc ← read_tsc m
    (cpuid', s') ← visit_package fd tsc core cpuid s
    s'' ← read_core fd tsc core cpuid' s'
    close_msr fd
    sweep rounds (core + 1) cpuid' s''

  unfoldable pub read_msr_data : SysData → Cmd SysData
  unfolding sweep
  read_msr_data s = sweep s.ncore 0 0 s

  -- The source repeats the text of `read_msr_data`.
  unfoldable pub read_msr_data_first : SysData → Cmd SysData
  unfolding sweep
  read_msr_data_first s = sweep s.ncore 0 0 s

  -- the uncore clock's enable bit, set once for each package that has one
  unfoldable pub enable_uclk : ℕ → Bool → Cmd (Unit {0})
  enable_uclk fd has_uclk =
      if has_uclk
      then (do
        result ← read_msr m fd u_msr_pmon_uclk_fixed_ctl
        write_msr m fd u_msr_pmon_uclk_fixed_ctl (bit_or result 0x400000))
      else pure tt

  -- The descriptors are not closed.
  unfoldable pub program_loop : ℕ → ℕ → SysData → Cmd ℕ
  program_loop zero core s = pure 0
  program_loop (suc rounds) core s = do
    _ ← set_cpu_affinity m core
    fd ← open_msr m core
    enable_uclk fd (is_leader core s.ncore && is s.cpu_model haswell_ep)
    program_loop rounds (core + 1) s

  unfoldable pub program_msr : SysData → Cmd ℕ
  unfolding program_loop
  program_msr s = program_loop s.ncore 0 s
