-- ===== src/PowMon/Broker.antt =====
-- The metrics of `push_to_broker` in powmon/bin/pow_mon.c. The floating-point unit is a parameter.
pub mod Metrics
pub mod Step
use Prim.Native.String.{String}
use powmon.Base.{
  ℕ, zero, suc, ◌+◌, ◌^◌, Bool, ◌==◌, if◌then◌else◌, is, ℤ, to_int, true, false, ◌&&◌, ◌++◌, length,
  ltb, sub_u32, sub_u64, Option, none, some, List, [], ◌∷◌, get_elem?, set,
}
use powmon.Clib.{Outcome, ok, undefined, ◌>>=◌, bytes}
use powmon.Clib.Decimal.{decimal}
use powmon.Msr.Addresses.{haswell_ep}
use powmon.ForEach.{for_each}
use powmon.Fpu.{Fpu, Float, times_per_dt, ratio, mhz, uclk_rate}
use powmon.PowMon.Data.{PerCoreData, PerCpuData, SysData}

-- The local variables that a round may use without setting them. Before the first round they are
-- whatever the stack holds.
pub record CpuLocals : Type 0 where
  pub uclk_mhz : Float
  pub drampow : Float

pub record CoreLocals : Type 0 where
  pub aperf_diff : ℕ
  pub mperf_diff : ℕ

pub record CpuMessage : Type 0 where
  pub topic : Option (List ℕ)
  pub cpuid : ℕ
  pub cpu_temp : ℕ
  pub nomfreq_mhz : Float
  pub uclk_mhz : Float
  pub drampow : Float
  pub pkgpow : Float
  pub tmpstr : String
  pub qos : ℤ

pub record CoreMessage : Type 0 where
  pub topic : Option (List ℕ)
  pub coreid : ℕ
  pub core_temp : ℤ
  pub cpi : Float
  pub ips : Float
  pub core_load : Float
  pub mclk_mhz : Float
  pub rclk_mhz : Float
  pub tmpstr : String
  pub qos : ℤ

module _ (fpu : Fpu) (s : SysData) where
  unfoldable pub push_uclk : CpuLocals → PerCpuData → CpuLocals × PerCpuData
  push_uclk l c =
      let diff = sub_u64 c.uclk c.uclk_last in
      if is s.cpu_model haswell_ep
      then (
        record l { uclk_mhz = uclk_rate fpu s.dt diff },
        record c { uclk_diff = diff; uclk_mhz = uclk_rate fpu s.dt diff },
      )
      else (l, c)

  unfoldable pub push_residency : CpuLocals → PerCpuData → CpuLocals × PerCpuData
  unfolding push_uclk
  push_residency l c =
      if s.extra_counters == 1
      then push_uclk l (record c {
        c2_diff = sub_u64 c.c2 c.c2_last;
        c3_diff = sub_u64 c.c3 c.c3_last;
        c6_diff = sub_u64 c.c6 c.c6_last;
      })
      else (l, c)

  unfoldable pub push_dram : CpuLocals → PerCpuData → CpuLocals × PerCpuData
  push_dram l c =
      let diff = sub_u32 c.pow_dram_c c.pow_dram_c_last in
      let power = times_per_dt fpu s.dt diff (fpu.decimal 153 7) in
      if s.dram_supp == 1
      then (record l { drampow = power }, record c { pow_dram_c_diff = diff; drampow = power })
      else (l, c)

  -- one round of the loop over the packages
  unfoldable pub push_cpu : ℕ → CpuLocals → PerCpuData → CpuLocals × PerCpuData × CpuMessage
  unfolding push_residency push_dram
  push_cpu cpuid l₀ c₀ =
      let diff = sub_u32 c₀.pow_pkg c₀.pow_pkg_last in
      let (l₁, c₁) = push_residency l₀ (record c₀ {
        pow_pkg_diff = diff;
        pkgpow = times_per_dt fpu s.dt diff (fpu.decimal 61 6);
      }) in
      let (l, c) = push_dram l₁ c₁ in
      (
        l,
        c,
        record {
          topic = s.topic;
          cpuid = cpuid;
          cpu_temp = c.temp_pkg;
          nomfreq_mhz = fpu.div_float s.nom_freq (fpu.float_of_u64 1000000);
          uclk_mhz = l.uclk_mhz;
          drampow = l.drampow;
          pkgpow = c.pkgpow;
          tmpstr = s.tmpstr;
          qos = s.qos;
        },
      )

  -- `c6_diff` is never stored: `c3_diff` is set twice.
  unfoldable pub push_extra : CoreLocals → PerCoreData → CoreLocals × PerCoreData
  push_extra l c =
      if s.extra_counters == 1
      then (
        record {
          aperf_diff = sub_u64 c.aperf c.aperf_last;
          mperf_diff = sub_u64 c.mperf c.mperf_last;
        },
        record c {
          c3_diff = sub_u64 c.c3 c.c3_last;
          aperf_diff = sub_u64 c.aperf c.aperf_last;
          mperf_diff = sub_u64 c.mperf c.mperf_last;
        },
      )
      else (l, c)

  -- one round of the loop over the cores
  unfoldable pub push_core : ℕ → CoreLocals → PerCoreData → CoreLocals × PerCoreData × CoreMessage
  unfolding push_extra
  push_core coreid l₀ c₀ =
      let tsc = sub_u64 c₀.tsc c₀.tsc_last in
      let (l, c₁) = push_extra l₀ (record c₀ { tsc_diff = tsc }) in
      let instr = sub_u64 c₁.instr c₁.instr_last in
      let clk_curr = sub_u64 c₁.clk_curr c₁.clk_curr_last in
      let clk_ref = sub_u64 c₁.clk_ref c₁.clk_ref_last in
      let one = fpu.decimal 10 1 in
      let c = record c₁ {
        instr_diff = instr;
        clk_curr_diff = clk_curr;
        clk_ref_diff = clk_ref;
        cpi = fpu.float_of_double (ratio fpu one clk_curr instr);
        ips =
            fpu.float_of_double
              (fpu.div (fpu.mul one (fpu.double_of_u64 instr)) (fpu.double_of_float s.dt));
        core_load = fpu.float_of_double (ratio fpu (fpu.decimal 1000 1) clk_ref tsc);
        mclk_mhz = mhz fpu s.nom_freq l.aperf_diff l.mperf_diff;
        rclk_mhz = mhz fpu s.nom_freq clk_curr clk_ref;
      } in
      (
        l,
        c,
        record {
          topic = s.topic;
          coreid = coreid;
          core_temp = to_int c.temp;
          cpi = c.cpi;
          ips = c.ips;
          core_load = c.core_load;
          mclk_mhz = c.mclk_mhz;
          rclk_mhz = c.rclk_mhz;
          tmpstr = s.tmpstr;
          qos = s.qos;
        },
      )

-- Whether the topics with that word and the numbers below `n` fit the buffer of 255 bytes. A null
-- pointer is not to be printed.
unfoldable pub topics_fit : List ℕ → Option (List ℕ) → ℕ → Bool
unfolding decimal
topics_fit kind topic zero = true
topics_fit kind none (suc n) = false
topics_fit kind (some topic) (suc n) =
    ltb (length (topic ++ bytes "/" ++ kind ++ decimal n)) 255 && topics_fit kind (some topic) n

-- all topics of a call
abbrev pub room : SysData → Bool
room s = topics_fit (bytes "cpu") s.topic s.ncpu && topics_fit (bytes "core") s.topic s.ncore

-- The data and the messages sent, the packages' before the cores'. Whether a message is accepted
-- changes only the log. If the log cannot be opened, `fclose` gets a null pointer; and a topic that does
-- not fit its buffer overruns it.
unfoldable pub push_to_broker :
    Fpu
    → Bool
    → CpuLocals
    → CoreLocals
    → SysData
    → Outcome (SysData × List CpuMessage × List CoreMessage)
unfolding for_each push_cpu push_core topics_fit
push_to_broker fpu log_opens cpu_locals core_locals s = do
  (_, cpu_data, cpus) ← for_each (push_cpu fpu s) s.ncpu 0 cpu_locals s.cpu_data
  (_, core_data, cores) ← for_each (push_core fpu s) s.ncore 0 core_locals s.core_data
  if log_opens && room s
      then ok (record s { cpu_data = cpu_data; core_data = core_data }, cpus, cores)
      else undefined
