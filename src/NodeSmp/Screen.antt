-- ===== src/NodeSmp/Screen.antt =====
-- `push_to_broker` of pow_node_smp/pow_mon.c, which prints a line for each package and each core on
-- the screen. The floating-point unit is a parameter, and so are the bytes of /proc/meminfo, or `none`
-- where `fopen` fails, which the code does not test.
pub mod Shown
use Prim.Native.String.{String}
use powmon.Base.{
  ℕ, zero, suc, Bool, ◌==◌, ◌&&◌, if◌then◌else◌, is, sub_u32, sub_u64, Option, none, some, List, [],
  ◌∷◌, ℤ, to_int,
}
use powmon.Clib.{Outcome, ok, undefined, ◌>>=◌, fgets}
use powmon.ForEach.{for_each}
use powmon.Fpu.{Fpu, Float, times_per_dt, ratio, mhz, uclk_rate}
use powmon.Msr.Addresses.{haswell_ep}
use powmon.PowMon.Broker.{CpuLocals}
use powmon.NodeSmp.Data.{PerCoreData, PerCpuData, SysData}

-- the values of a printed line, under the names that it gives them
pub record CpuLine : Type 0 where
  pub cpuid : ℕ
  pub cpu_temp : ℤ
  pub nomfreq_mhz : Float
  pub uclk_mhz : Float
  pub drampow : Float
  pub pkgpow : Float
  pub timestamp : String

pub record CoreLine : Type 0 where
  pub coreid : ℕ
  pub core_temp : ℤ
  pub cpi : Float
  pub ips : Float
  pub core_load : Float
  pub rclk_mhz : Float
  pub timestamp : String

-- a text without its last byte
unfoldable pub chopped : List ℕ → List ℕ
chopped [] = []
chopped (c ∷ []) = []
chopped (c ∷ d ∷ s) = c ∷ chopped (d ∷ s)

-- `fgets(line, 80, mem)`, then the last byte cut off. Where the file has ended the buffer is not set.
abbrev cut_line : List ℕ × List ℕ → Outcome (List ℕ × List ℕ)
cut_line ([], rest) = undefined
cut_line (c ∷ s, rest) = ok (chopped (c ∷ s), rest)

unfoldable pub memory_lines : Option (List ℕ) → Outcome (List ℕ × List ℕ)
unfolding fgets chopped
memory_lines none = undefined
memory_lines (some file) = do
  (memtotal, rest) ← cut_line (fgets 79 file)
  (memfree, _) ← cut_line (fgets 79 rest)
  ok (memtotal, memfree)

module _ (fpu : Fpu) (s : SysData) where
  unfoldable pub push_uclk : CpuLocals → PerCpuData → CpuLocals × PerCpuData
  push_uclk l c =
      let diff = sub_u64 c.uclk c.uclk_last in
      let rate = uclk_rate fpu s.dt diff in
      if s.extra_counters == 1 && is s.cpu_model haswell_ep
      then (record l { uclk_mhz = rate }, record c { uclk_diff = diff; uclk_mhz = rate })
      else (l, c)

  unfoldable pub push_dram : CpuLocals → PerCpuData → CpuLocals × PerCpuData
  push_dram l c =
      let diff = sub_u32 c.pow_dram_c c.pow_dram_c_last in
      let power = times_per_dt fpu s.dt diff (fpu.decimal 153 7) in
      if s.dram_supp == 1
      then (record l { drampow = power }, record c { pow_dram_c_diff = diff; drampow = power })
      else (l, c)

  unfoldable pub push_cpu : ℕ → CpuLocals → PerCpuData → CpuLocals × PerCpuData × CpuLine
  unfolding push_uclk push_dram
  push_cpu cpuid l₀ c₀ =
      let diff = sub_u32 c₀.pow_pkg c₀.pow_pkg_last in
      let (l₁, c₁) = push_uclk l₀ (record c₀ {
        pow_pkg_diff = diff;
        pkgpow = times_per_dt fpu s.dt diff (fpu.decimal 61 6);
      }) in
      let (l, c) = push_dram l₁ c₁ in
      (
        l,
        c,
        record {
          cpuid = cpuid;
          cpu_temp = to_int c.temp_pkg;
          nomfreq_mhz = fpu.div_float s.nom_freq (fpu.float_of_u64 1000000);
          uclk_mhz = l.uclk_mhz;
          drampow = l.drampow;
          pkgpow = c.pkgpow;
          timestamp = s.tmpstr;
        },
      )

  -- The line gives as `rclk_MHz` the rate of the other pair of counters, which no field keeps.
  unfoldable pub push_core : ℕ → Unit {0} → PerCoreData → Unit {0} × PerCoreData × CoreLine
  push_core coreid l c₀ =
      let aperf = sub_u64 c₀.aperf c₀.aperf_last in
      let mperf = sub_u64 c₀.mperf c₀.mperf_last in
      let tsc = sub_u64 c₀.tsc c₀.tsc_last in
      let instr = sub_u64 c₀.instr c₀.instr_last in
      let clk_curr = sub_u64 c₀.clk_curr c₀.clk_curr_last in
      let clk_ref = sub_u64 c₀.clk_ref c₀.clk_ref_last in
      let one = fpu.decimal 10 1 in
      let c = record c₀ {
        aperf_diff = aperf;
        mperf_diff = mperf;
        tsc_diff = tsc;
        instr_diff = instr;
        clk_curr_diff = clk_curr;
        clk_ref_diff = clk_ref;
        cpi = fpu.float_of_double (ratio fpu one clk_curr instr);
        ips =
            fpu.float_of_double
              (fpu.div (fpu.mul one (fpu.double_of_u64 instr)) (fpu.double_of_float s.dt));
        core_load = fpu.float_of_double (ratio fpu (fpu.decimal 1000 1) clk_ref tsc);
        rclk_mhz = mhz fpu s.nom_freq clk_curr clk_ref;
      } in
      (
        tt,
        c,
        record {
          coreid = coreid;
          core_temp = to_int c.temp;
          cpi = c.cpi;
          ips = c.ips;
          core_load = c.core_load;
          rclk_mhz = mhz fpu s.nom_freq aperf mperf;
          timestamp = s.tmpstr;
        },
      )

-- The data and the lines printed, those of the packages before those of the cores.
unfoldable pub push_to_broker :
    Fpu → Option (List ℕ) → CpuLocals → SysData → Outcome (SysData × List CpuLine × List CoreLine)
unfolding for_each push_cpu push_core memory_lines
push_to_broker fpu meminfo cpu_locals s = do
  _ ← memory_lines meminfo
  (_, cpu_data, cpus) ← for_each (push_cpu fpu s) s.ncpu 0 cpu_locals s.cpu_data
  (_, core_data, cores) ← for_each (push_core fpu s) s.ncore 0 tt s.core_data
  ok (record s { cpu_data = cpu_data; core_data = core_data }, cpus, cores)
