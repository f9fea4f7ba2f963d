-- ===== src/NodeSmp/Screen/Shown.antt =====
-- What `push_to_broker` of pow_node_smp stores and prints.
use powmon.Base.{
  ℕ, ◌<◌, ◌≡◌, refl, sym, ap, ◌∙◌, some, Option, List, length, get_elem?, sub_u32, sub_u64,
  Bool-cases, inl, inr, true, is, to_int, ◌==◌, arith,
}
use powmon.Clib.{ok}
use powmon.ForEach.Rounds.{for_each-Each}
use powmon.Fpu.{Fpu, times_per_dt, mhz, ratio, uclk_rate}
use powmon.Msr.Addresses.{haswell_ep}
use powmon.PowMon.Broker.{CpuLocals}
use powmon.NodeSmp.Data.{PerCoreData, PerCpuData, SysData}
use powmon.NodeSmp.Screen.{
  CpuLine, CoreLine, memory_lines, push_uclk, push_dram, push_cpu, push_core, push_to_broker,
}

-- A core after the round, and its line. The rate that the line calls `rclk_mhz` is made of the other
-- two counters.
pub record CoreShown (fpu : Fpu) (s : SysData) (core : ℕ) (old new : PerCoreData) (line : CoreLine)
    : Type 0 where
  pub index : line.coreid ≡ core
  pub instr : new.instr_diff ≡ sub_u64 old.instr old.instr_last
  pub aperf : new.aperf_diff ≡ sub_u64 old.aperf old.aperf_last
  pub mperf : new.mperf_diff ≡ sub_u64 old.mperf old.mperf_last
  clk :
      (new.clk_curr_diff ≡ sub_u64 old.clk_curr old.clk_curr_last)
      × (new.clk_ref_diff ≡ sub_u64 old.clk_ref old.clk_ref_last)
  pub rate : new.rclk_mhz ≡ mhz fpu s.nom_freq new.clk_curr_diff new.clk_ref_diff
  line_rate : line.rclk_mhz ≡ mhz fpu s.nom_freq new.aperf_diff new.mperf_diff
  temp : line.core_temp ≡ to_int old.temp
  stamp : line.timestamp ≡ s.tmpstr
  cpi :
      new.cpi ≡ fpu.float_of_double (ratio fpu (fpu.decimal 10 1) new.clk_curr_diff new.instr_diff)
  ips :
      new.ips
      ≡ fpu.float_of_double (
          fpu.div
            (fpu.mul (fpu.decimal 10 1) (fpu.double_of_u64 new.instr_diff))
            (fpu.double_of_float s.dt))
  core_load :
      new.core_load
      ≡ fpu.float_of_double (ratio fpu (fpu.decimal 1000 1) new.clk_ref_diff new.tsc_diff)
  tsc : new.tsc_diff ≡ sub_u64 old.tsc old.tsc_last
  line_rest : (line.cpi ≡ new.cpi) × (line.ips ≡ new.ips) × (line.core_load ≡ new.core_load)
  pub kept : (new.aperf_last ≡ old.aperf_last) × (new.mperf_last ≡ old.mperf_last)
  pub counters : (new.instr ≡ old.instr) × (new.aperf ≡ old.aperf) × (new.mperf ≡ old.mperf)

push_core-CoreShown :
    (fpu : Fpu) (s : SysData) (core : ℕ) (l : Unit {0}) (c : PerCoreData)
    → CoreShown fpu s core c (push_core fpu s core l c).1 (push_core fpu s core l c).2
unfolding push_core
push_core-CoreShown fpu s core l c = record {
  index = refl;
  instr = refl;
  aperf = refl;
  mperf = refl;
  clk = (refl, refl);
  rate = refl;
  line_rate = refl;
  temp = refl;
  stamp = refl;
  cpi = refl;
  ips = refl;
  core_load = refl;
  tsc = refl;
  line_rest = (refl, refl, refl);
  kept = (refl, refl);
  counters = (refl, refl, refl);
}

-- A package after the round, and its line.
pub record CpuShown (fpu : Fpu) (s : SysData) (cpu : ℕ) (old new : PerCpuData) (line : CpuLine)
    : Type 0 where
  pub index : line.cpuid ≡ cpu
  pub pkg : new.pow_pkg_diff ≡ sub_u32 old.pow_pkg old.pow_pkg_last
  pub power : line.pkgpow ≡ times_per_dt fpu s.dt new.pow_pkg_diff (fpu.decimal 61 6)
  pub dram :
      s.dram_supp ≡ 1
      → (line.drampow ≡ new.drampow)
        × (new.drampow
            ≡ times_per_dt fpu s.dt
                (sub_u32 old.pow_dram_c old.pow_dram_c_last)
                (fpu.decimal 153 7))
  pub uclk :
      s.extra_counters ≡ 1
      → is s.cpu_model haswell_ep ≡ true
      → line.uclk_mhz ≡ uclk_rate fpu s.dt (sub_u64 old.uclk old.uclk_last)
  pub temp : line.cpu_temp ≡ to_int old.temp_pkg
  pub stamp : line.timestamp ≡ s.tmpstr
  pub nomfreq : line.nomfreq_mhz ≡ fpu.div_float s.nom_freq (fpu.float_of_u64 1000000)
  pub kept : (new.pow_pkg ≡ old.pow_pkg) × (new.pow_dram_c ≡ old.pow_dram_c)

-- the parts of the round
module _ (fpu : Fpu) (s : SysData) (l : CpuLocals) (c : PerCpuData) where
  push_uclk-kept :
      ((push_uclk fpu s l c).1.pow_pkg_diff ≡ c.pow_pkg_diff)
      × ((push_uclk fpu s l c).1.pkgpow ≡ c.pkgpow)
      × ((push_uclk fpu s l c).1.pow_pkg ≡ c.pow_pkg)
      × ((push_uclk fpu s l c).1.pow_dram_c ≡ c.pow_dram_c)
      × ((push_uclk fpu s l c).1.pow_dram_c_last ≡ c.pow_dram_c_last)
      × ((push_uclk fpu s l c).1.temp_pkg ≡ c.temp_pkg)
  unfolding push_uclk
  push_uclk-kept = ground arith

  push_uclk-rate :
      s.extra_counters ≡ 1
      → is s.cpu_model haswell_ep ≡ true
      → (push_uclk fpu s l c).0.uclk_mhz ≡ uclk_rate fpu s.dt (sub_u64 c.uclk c.uclk_last)
  unfolding push_uclk
  push_uclk-rate extra haswell = rw (extra, haswell) refl

  push_dram-kept :
      ((push_dram fpu s l c).1.pow_pkg_diff ≡ c.pow_pkg_diff)
      × ((push_dram fpu s l c).1.pkgpow ≡ c.pkgpow)
      × ((push_dram fpu s l c).1.pow_pkg ≡ c.pow_pkg)
      × ((push_dram fpu s l c).1.pow_dram_c ≡ c.pow_dram_c)
      × (s.dram_supp ≡ 1
          → ((push_dram fpu s l c).0.drampow ≡ (push_dram fpu s l c).1.drampow)
            × ((push_dram fpu s l c).1.drampow
                ≡ times_per_dt fpu s.dt
                    (sub_u32 c.pow_dram_c c.pow_dram_c_last)
                    (fpu.decimal 153 7)))
      × ((push_dram fpu s l c).0.uclk_mhz ≡ l.uclk_mhz)
      × ((push_dram fpu s l c).1.temp_pkg ≡ c.temp_pkg)
  unfolding push_dram
  push_dram-kept = elim (Bool-cases (s.dram_supp == 1)) [
    | inl e ↦ rw e (refl, refl, refl, refl, λ _. (refl, refl), refl, refl)
    | inr e ↦ rw e (refl, refl, refl, refl, λ h. absurd (ground arith), refl, refl)
  ]

push_cpu-CpuShown :
    (fpu : Fpu) (s : SysData) (cpu : ℕ) (l : CpuLocals) (c : PerCpuData)
    → CpuShown fpu s cpu c (push_cpu fpu s cpu l c).1 (push_cpu fpu s cpu l c).2
unfolding push_cpu
push_cpu-CpuShown fpu s cpu l c₀ =
    let diff = sub_u32 c₀.pow_pkg c₀.pow_pkg_last in
    let c = record c₀ {
      pow_pkg_diff = diff;
      pkgpow = times_per_dt fpu s.dt diff (fpu.decimal 61 6);
    } in
    let u = push_uclk-kept fpu s l c in
    let d = push_dram-kept fpu s (push_uclk fpu s l c).0 (push_uclk fpu s l c).1 in
    let pkg = d.0 ∙ u.0 in
    record {
      index = refl;
      pkg = pkg;
      power = d.1 ∙ u.1 ∙ ap (λ n. times_per_dt fpu s.dt n (fpu.decimal 61 6)) (sym pkg);
      dram = λ one.
          let p = d.4 one in
          (
            p.0,
            p.1
                ∙ ap
                    (λ n.
                      times_per_dt fpu s.dt (sub_u32 n (push_uclk fpu s l c).1.pow_dram_c_last)
                        (fpu.decimal 153 7))
                    u.3
                ∙ ap (λ n. times_per_dt fpu s.dt (sub_u32 c.pow_dram_c n) (fpu.decimal 153 7)) u.4,
          );
      uclk = λ extra haswell. d.5 ∙ push_uclk-rate fpu s l c extra haswell;
      temp = ap to_int (d.6 ∙ u.5);
      stamp = refl;
      nomfreq = refl;
      kept = (d.2 ∙ u.2, d.3 ∙ u.3);
    }

-- Package `cpu` and its line.
pub record CpuPrinted (fpu : Fpu) (s : SysData) (cpu : ℕ) (s' : SysData) (cpus : List CpuLine)
    : Type 0 where
  pub old : PerCpuData
  pub new : PerCpuData
  pub line : CpuLine
  pub was : get_elem? s.cpu_data cpu ≡ some old
  pub now : get_elem? s'.cpu_data cpu ≡ some new
  pub printed : get_elem? cpus cpu ≡ some line
  pub shown : CpuShown fpu s cpu old new line

-- Core `core` and its line.
pub record CorePrinted (fpu : Fpu) (s : SysData) (core : ℕ) (s' : SysData) (cores : List CoreLine)
    : Type 0 where
  pub old : PerCoreData
  pub new : PerCoreData
  pub line : CoreLine
  pub was : get_elem? s.core_data core ≡ some old
  pub now : get_elem? s'.core_data core ≡ some new
  pub printed : get_elem? cores core ≡ some line
  pub shown : CoreShown fpu s core old new line

pub record Printed (fpu : Fpu) (s s' : SysData) (cpus : List CpuLine) (cores : List CoreLine)
    : Type 0 where
  pub cpu_count : length cpus ≡ s.ncpu
  pub core_count : length cores ≡ s.ncore
  pub sizes : (length s'.cpu_data ≡ s.ncpu) × (length s'.core_data ≡ s.ncore)
  pub frame : s' ≡ record s { cpu_data = s'.cpu_data; core_data = s'.core_data }
  pub cpu : (i : ℕ) → i < s.ncpu → CpuPrinted fpu s i s' cpus
  pub core : (i : ℕ) → i < s.ncore → CorePrinted fpu s i s' cores

-- With a record for every package and core, and a /proc/meminfo that can be read and has two lines,
-- `push_to_broker` of pow_node_smp returns. It prints a line for each package and each core, in
-- their order. The line of a core gives as `rclk_MHz` the rate made of the actual and the maximum
-- performance counter, while the record keeps the rate of the unhalted clocks; the rest of the line
-- is the record's temperature as an `int`, the rates made of its differences, and the time. The line
-- of a package has its temperature, the power, that of the DRAM where it is sampled, and the rate of
-- the uncore clock where that is. No counter changes, and nothing but the packages and the cores.
pub push_to_broker-Printed :
    (fpu : Fpu) (meminfo : Option (List ℕ)) (memory : List ℕ × List ℕ) (cpu_locals : CpuLocals)
    (s : SysData)
    → memory_lines meminfo ≡ ok memory
    → length s.cpu_data ≡ s.ncpu
    → length s.core_data ≡ s.ncore
    → (s' : SysData) × (cpus : List CpuLine) × (cores : List CoreLine) × (push_to_broker fpu meminfo
          cpu_locals s
        ≡ ok (s', cpus, cores))
      × Printed fpu s s' cpus cores
unfolding push_to_broker
push_to_broker-Printed fpu meminfo memory cpu_locals s readable cpu_size core_size =
    let (_, cpu_data, cpus, run, done) =
      for_each-Each (push_cpu fpu s) s.ncpu 0 cpu_locals s.cpu_data (omega arith) in
    let (_, core_data, cores, run', done') =
      for_each-Each (push_core fpu s) s.ncore 0 tt s.core_data (omega arith) in
    (
      record s { cpu_data = cpu_data; core_data = core_data },
      cpus,
      cores,
      rw (readable, run, run') refl,
      record {
        cpu_count = done.count;
        core_count = done'.count;
        sizes = (done.size ∙ cpu_size, done'.size ∙ core_size);
        frame = refl;
        cpu = λ i lt.
            let p = done.each i i (omega arith) lt in
            record {
              old = p.old;
              new = (push_cpu fpu s i p.locals p.old).1;
              line = (push_cpu fpu s i p.locals p.old).2;
              was = p.was;
              now = p.now;
              printed = p.sent;
              shown = push_cpu-CpuShown fpu s i p.locals p.old;
            };
        core = λ i lt.
            let p = done'.each i i (omega arith) lt in
            record {
              old = p.old;
              new = (push_core fpu s i p.locals p.old).1;
              line = (push_core fpu s i p.locals p.old).2;
              was = p.was;
              now = p.now;
              printed = p.sent;
              shown = push_core-CoreShown fpu s i p.locals p.old;
            };
      },
    )
