-- ===== src/PowMon/Broker/Step.antt =====
-- One step of the two loops of `push_to_broker` in powmon/bin/pow_mon.c: the metrics of a package or
-- a core, and the message made of them.
use powmon.Base.{
  ℕ, ◌≡◌, refl, Bool-cases, inl, inr, ◌==◌, sub_u32, sub_u64, is, true, to_int, arith,
}
use powmon.Msr.Addresses.{haswell_ep}
use powmon.PowMon.Data.{PerCoreData, PerCpuData, SysData}
use powmon.Fpu.{Fpu, times_per_dt, mhz, ratio, uclk_rate}
use powmon.PowMon.Broker.{
  CpuLocals, CoreLocals, CpuMessage, CoreMessage, push_cpu, push_core, push_residency, push_uclk,
  push_dram, push_extra,
}

-- The record of a core after the round: each difference is that of the counter and its last value,
-- and the counters are as they were.
pub record CoreMetrics (fpu : Fpu) (s : SysData) (old new : PerCoreData) : Type 0 where
  pub tsc : new.tsc_diff ≡ sub_u64 old.tsc old.tsc_last
  pub instr : new.instr_diff ≡ sub_u64 old.instr old.instr_last
  pub clk_curr : new.clk_curr_diff ≡ sub_u64 old.clk_curr old.clk_curr_last
  pub clk_ref : new.clk_ref_diff ≡ sub_u64 old.clk_ref old.clk_ref_last
  pub c3 : new.c3_diff ≡ sub_u64 old.c3 old.c3_last
  pub aperf : new.aperf_diff ≡ sub_u64 old.aperf old.aperf_last
  pub mperf : new.mperf_diff ≡ sub_u64 old.mperf old.mperf_last
  pub cpi :
      new.cpi ≡ fpu.float_of_double (ratio fpu (fpu.decimal 10 1) new.clk_curr_diff new.instr_diff)
  pub ips :
      new.ips
      ≡ fpu.float_of_double (
          fpu.div
            (fpu.mul (fpu.decimal 10 1) (fpu.double_of_u64 new.instr_diff))
            (fpu.double_of_float s.dt))
  pub core_load :
      new.core_load
      ≡ fpu.float_of_double (ratio fpu (fpu.decimal 1000 1) new.clk_ref_diff new.tsc_diff)
  c6_lost : new.c6_diff ≡ old.c6_diff
  mclk :
      new.mclk_mhz
      ≡ mhz fpu s.nom_freq (sub_u64 old.aperf old.aperf_last) (sub_u64 old.mperf old.mperf_last)
  rclk : new.rclk_mhz ≡ mhz fpu s.nom_freq new.clk_curr_diff new.clk_ref_diff
  counters_kept :
      (new.tsc ≡ old.tsc)
      × (new.instr ≡ old.instr)
      × (new.c6 ≡ old.c6)
      × (new.temp ≡ old.temp)
      × (new.aperf ≡ old.aperf)
      × (new.mperf ≡ old.mperf)
      × (new.clk_curr ≡ old.clk_curr)
      × (new.clk_ref ≡ old.clk_ref)

-- What the message says is what the record holds.
pub record CoreSent (s : SysData) (core : ℕ) (new : PerCoreData) (m : CoreMessage) : Type 0 where
  pub index : m.coreid ≡ core
  pub topic : m.topic ≡ s.topic
  stamp : m.tmpstr ≡ s.tmpstr
  pub temp : m.core_temp ≡ to_int new.temp
  pub rates : (m.cpi ≡ new.cpi) × (m.ips ≡ new.ips) × (m.core_load ≡ new.core_load)
  pub clocks : (m.mclk_mhz ≡ new.mclk_mhz) × (m.rclk_mhz ≡ new.rclk_mhz)

pub push_core-CoreMetrics :
    (fpu : Fpu) (s : SysData) (core : ℕ) (l : CoreLocals) (c : PerCoreData)
    → s.extra_counters ≡ 1
    → CoreMetrics fpu s c (push_core fpu s core l c).1
unfolding push_core push_extra
push_core-CoreMetrics fpu s core l c extra = rw extra (record {
  tsc = refl;
  instr = refl;
  clk_curr = refl;
  clk_ref = refl;
  c3 = refl;
  aperf = refl;
  mperf = refl;
  cpi = refl;
  ips = refl;
  core_load = refl;
  c6_lost = refl;
  mclk = refl;
  rclk = refl;
  counters_kept = (refl, refl, refl, refl, refl, refl, refl, refl);
})

pub push_core-CoreSent :
    (fpu : Fpu) (s : SysData) (core : ℕ) (l : CoreLocals) (c : PerCoreData)
    → CoreSent s core (push_core fpu s core l c).1 (push_core fpu s core l c).2
unfolding push_core
push_core-CoreSent fpu s core l c = record {
  index = refl;
  topic = refl;
  stamp = refl;
  temp = refl;
  rates = (refl, refl, refl);
  clocks = (refl, refl);
}

-- The record of a package after the round.
pub record CpuMetrics (fpu : Fpu) (s : SysData) (old new : PerCpuData) : Type 0 where
  pub pkg : new.pow_pkg_diff ≡ sub_u32 old.pow_pkg old.pow_pkg_last
  pub power : new.pkgpow ≡ times_per_dt fpu s.dt new.pow_pkg_diff (fpu.decimal 61 6)
  pub c2 : new.c2_diff ≡ sub_u64 old.c2 old.c2_last
  pub c3 : new.c3_diff ≡ sub_u64 old.c3 old.c3_last
  pub c6 : new.c6_diff ≡ sub_u64 old.c6 old.c6_last
  counters_kept :
      (new.pow_pkg ≡ old.pow_pkg) × (new.pow_dram_c ≡ old.pow_dram_c) × (new.uclk ≡ old.uclk)
  pub dram :
      s.dram_supp ≡ 1
      → (new.pow_dram_c_diff ≡ sub_u32 old.pow_dram_c old.pow_dram_c_last)
        × (new.drampow ≡ times_per_dt fpu s.dt new.pow_dram_c_diff (fpu.decimal 153 7))
  pub uclk :
      is s.cpu_model haswell_ep ≡ true
      → (new.uclk_diff ≡ sub_u64 old.uclk old.uclk_last)
        × (new.uclk_mhz ≡ uclk_rate fpu s.dt new.uclk_diff)

pub record CpuSent (fpu : Fpu) (s : SysData) (cpu : ℕ) (new : PerCpuData) (m : CpuMessage)
    : Type 0 where
  pub index : m.cpuid ≡ cpu
  pub topic : m.topic ≡ s.topic
  stamp : m.tmpstr ≡ s.tmpstr
  pub temp : m.cpu_temp ≡ new.temp_pkg
  pub power : m.pkgpow ≡ new.pkgpow
  pub dram_power : s.dram_supp ≡ 1 → m.drampow ≡ new.drampow
  pub uclk_rate : is s.cpu_model haswell_ep ≡ true → m.uclk_mhz ≡ new.uclk_mhz
  pub nomfreq : m.nomfreq_mhz ≡ fpu.div_float s.nom_freq (fpu.float_of_u64 1000000)

module _ (fpu : Fpu) (s : SysData) where
  unfoldable pub CpuRound : PerCpuData → ℕ → CpuLocals × PerCpuData × CpuMessage → Type 0
  CpuRound old cpu (l, new, m) = CpuMetrics fpu s old new × CpuSent fpu s cpu new m

  pub push_cpu-CpuRound :
      (cpu : ℕ) (l : CpuLocals) (c : PerCpuData)
      → s.extra_counters ≡ 1
      → CpuRound c cpu (push_cpu fpu s cpu l c)
  unfolding CpuRound push_cpu push_residency push_uclk push_dram
  push_cpu-CpuRound cpu l c extra = rw extra (elim (Bool-cases (s.dram_supp == 1)) [
    | inl dram ↦ elim (Bool-cases (is s.cpu_model haswell_ep)) [
      | inl e ↦
          rw (dram, e)
            (
              record {
                pkg = refl;
                power = refl;
                c2 = refl;
                c3 = refl;
                c6 = refl;
                counters_kept = (refl, refl, refl);
                dram = λ _. (refl, refl);
                uclk = λ _. (refl, refl);
              },
              record {
                index = refl;
                topic = refl;
                stamp = refl;
                temp = refl;
                power = refl;
                dram_power = λ _. refl;
                uclk_rate = λ _. refl;
                nomfreq = refl;
              },
            )
      | inr e ↦
          rw (dram, e)
            (
              record {
                pkg = refl;
                power = refl;
                c2 = refl;
                c3 = refl;
                c6 = refl;
                counters_kept = (refl, refl, refl);
                dram = λ _. (refl, refl);
                uclk = λ haswell. absurd (cc (e, haswell));
              },
              record {
                index = refl;
                topic = refl;
                stamp = refl;
                temp = refl;
                power = refl;
                dram_power = λ _. refl;
                uclk_rate = λ haswell. absurd (cc (e, haswell));
                nomfreq = refl;
              },
            )
    ]
    | inr no_dram ↦ elim (Bool-cases (is s.cpu_model haswell_ep)) [
      | inl e ↦
          rw (no_dram, e)
            (
              record {
                pkg = refl;
                power = refl;
                c2 = refl;
                c3 = refl;
                c6 = refl;
                counters_kept = (refl, refl, refl);
                dram = λ one. absurd (ground arith);
                uclk = λ _. (refl, refl);
              },
              record {
                index = refl;
                topic = refl;
                stamp = refl;
                temp = refl;
                power = refl;
                dram_power = λ one. absurd (ground arith);
                uclk_rate = λ _. refl;
                nomfreq = refl;
              },
            )
      | inr e ↦
          rw (no_dram, e)
            (
              record {
                pkg = refl;
                power = refl;
                c2 = refl;
                c3 = refl;
                c6 = refl;
                counters_kept = (refl, refl, refl);
                dram = λ one. absurd (ground arith);
                uclk = λ haswell. absurd (cc (e, haswell));
              },
              record {
                index = refl;
                topic = refl;
                stamp = refl;
                temp = refl;
                power = refl;
                dram_power = λ one. absurd (ground arith);
                uclk_rate = λ haswell. absurd (cc (e, haswell));
                nomfreq = refl;
              },
            )
    ]
  ])
