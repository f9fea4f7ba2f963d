-- ===== src/NodeSmp/Sensor/Parts.antt =====
-- What the parts of a round do to the data of pow_node_smp and to the machine.
use powmon.Base.{
  ℕ, ◌<◌, ◌≡◌, refl, ◌∙◌, inl, Bool, true, false, Bool-cases, inr, some, length, length-set,
  get_elem?, set, ◌==◌, arith,
}
use powmon.Machine.{Machine, Trace}
use powmon.Machine.Rules
use powmon.Machine.Rules.{Runs, returns}
use powmon.Msr.Events.{IsSafe}
use powmon.Msr.Laws.{Stopped, read_msr-bind, write_msr-bind, checked-bind}
use powmon.Sweep.Invariant.{Tidy}
use powmon.NodeSmp.Data.{PerCoreData, PerCpuData, SysData}
use powmon.NodeSmp.Sensor.{
  read_die_temp, read_unit, read_dram, read_uclk, read_package, read_performance, read_core,
}

-- The package part changes the die temperatures and the packages, and no size.
pub record PackageStep (s s' : SysData) : Type 0 where
  pub frame :
      s' ≡ record s { die_temp = s'.die_temp; die_temp_en = s'.die_temp_en; cpu_data = s'.cpu_data }
  pub dies : length s'.die_temp ≡ length s.die_temp
  pub dies_en : length s'.die_temp_en ≡ length s.die_temp_en
  pub cpus : length s'.cpu_data ≡ length s.cpu_data

module _ (m : Machine) (fd : ℕ) (t : Trace) (safe : IsSafe t) where
  read_unit-Tidy :
      (first : Bool) (c : PerCpuData)
      → Runs (λ c' t'. (c'.pow_pkg ≡ c.pow_pkg) × Tidy t t') (Stopped m) (read_unit m first fd c t)
  unfolding read_unit
  read_unit-Tidy true c = read_msr-bind m fd _ t _ safe λ v p. returns (refl, (refl, p))
  read_unit-Tidy false c = returns (refl, (refl, safe))

  read_dram-Tidy :
      (supp : ℕ) (c : PerCpuData) → Runs (λ _. Tidy t) (Stopped m) (read_dram m fd supp c t)
  unfolding read_dram
  read_dram-Tidy supp c = elim (Bool-cases (supp == 1)) [
    | inl e ↦ rw e (read_msr-bind m fd _ t _ safe λ v p. returns (refl, p))
    | inr e ↦ rw e (returns (refl, safe))
  ]

  read_uclk-Tidy :
      (b : Bool) (c : PerCpuData) → Runs (λ _. Tidy t) (Stopped m) (read_uclk m fd b c t)
  unfolding read_uclk
  read_uclk-Tidy true c = read_msr-bind m fd _ t _ safe λ v p. returns (refl, p)
  read_uclk-Tidy false c = returns (refl, safe)

  read_die_temp-PackageStep :
      (cpuid : ℕ) (s : SysData)
      → cpuid < length s.die_temp_en
      → Runs (λ s' t'. PackageStep s s' × Tidy t t') (Stopped m) (read_die_temp m fd cpuid s t)
  unfolding read_die_temp
  read_die_temp-PackageStep cpuid s h = checked-bind s.die_temp_en cpuid t _ h λ n was.
      elim (Bool-cases (n == 0)) [
        | inl e ↦ rw e (
            read_msr-bind m fd _ t _ safe λ v p. returns (
              record {
                frame = refl;
                dies = length-set s.die_temp cpuid _;
                dies_en = length-set s.die_temp_en cpuid 1;
                cpus = refl;
              },
              (refl, p),
            ))
        | inr e ↦ rw e (
            returns
              (record { frame = refl; dies = refl; dies_en = refl; cpus = refl }, (refl, safe)))
      ]

module _ (m : Machine) (fd : ℕ) (t : Trace) (safe : IsSafe t) where
  pub read_package-PackageStep :
      (first : Bool) (tsc cpuid : ℕ) (s : SysData)
      → cpuid < length s.cpu_data
      → cpuid < length s.die_temp
      → cpuid < length s.die_temp_en
      → Runs
          (λ s' t'. PackageStep s s' × Tidy t t')
          (Stopped m)
          (read_package m first fd tsc cpuid s t)
  unfolding read_package
  read_package-PackageStep first tsc cpuid s in_cpu in_die in_en =
      checked-bind s.cpu_data cpuid t _ in_cpu λ c was.
        Rules.bind (read_die_temp-PackageStep m fd t safe cpuid s in_en) λ s₁ t₁ (d, tidy₁).
          Rules.bind (read_unit-Tidy m fd t₁ tidy₁.1 first _) λ c₁ t₂ (kept, tidy₂).
            read_msr-bind m fd _ t₂ _ tidy₂.1 λ energy p₃. read_msr-bind m fd _ _ _ p₃ λ therm p₄.
              checked-bind s₁.die_temp cpuid _ _ (omega (arith, d.dies)) λ die die_is.
                Rules.bind (read_dram-Tidy m fd _ p₄ s₁.dram_supp _) λ c₂ t₅ tidy₅.
                  Rules.bind (read_uclk-Tidy m fd t₅ tidy₅.1 _ c₂) λ c₃ t₆ tidy₆. returns (
                    record {
                      frame = rw d.frame refl;
                      dies = d.dies;
                      dies_en = d.dies_en;
                      cpus = length-set s₁.cpu_data cpuid c₃ ∙ d.cpus;
                    },
                    (tidy₆.0 ∙ tidy₅.0 ∙ tidy₂.0 ∙ tidy₁.0, tidy₆.1),
                  )

-- A sampling of a core: four counters move to their last values, the two performance counters do not.
pub record Moved (old new : PerCoreData) : Type 0 where
  pub tsc : new.tsc_last ≡ old.tsc
  pub instr : new.instr_last ≡ old.instr
  pub clk_curr : new.clk_curr_last ≡ old.clk_curr
  pub clk_ref : new.clk_ref_last ≡ old.clk_ref
  pub aperf_kept : new.aperf_last ≡ old.aperf_last
  pub mperf_kept : new.mperf_last ≡ old.mperf_last

pub record CoreStep (core : ℕ) (s s' : SysData) : Type 0 where
  pub old : PerCoreData
  pub new : PerCoreData
  pub was : get_elem? s.core_data core ≡ some old
  pub now : s' ≡ record s { core_data = set s.core_data core new }
  pub moved : Moved old new

module _ (m : Machine) (fd : ℕ) (t : Trace) (safe : IsSafe t) where
  read_performance-Moved :
      (first : Bool) (old c : PerCoreData)
      → Moved old c
      → Runs (λ c' t'. Moved old c' × Tidy t t') (Stopped m) (read_performance m first fd c t)
  unfolding read_performance
  read_performance-Moved true old c h = returns (h, (refl, safe))
  read_performance-Moved false old c h = read_msr-bind m fd _ t _ safe λ aperf p.
      read_msr-bind m fd _ _ _ p λ mperf p'. returns (
        record {
          tsc = h.tsc;
          instr = h.instr;
          clk_curr = h.clk_curr;
          clk_ref = h.clk_ref;
          aperf_kept = h.aperf_kept;
          mperf_kept = h.mperf_kept;
        },
        (refl, p'),
      )

module _ (m : Machine) (fd : ℕ) (t : Trace) (safe : IsSafe t) where
  pub read_core-CoreStep :
      (first : Bool) (tsc core cpuid : ℕ) (s : SysData)
      → core < length s.core_data
      → cpuid < length s.die_temp
      → Runs
          (λ s' t'. CoreStep core s s' × Tidy t t')
          (Stopped m)
          (read_core m first fd tsc core cpuid s t)
  unfolding read_core
  read_core-CoreStep first tsc core cpuid s in_core in_die =
      read_msr-bind m fd _ t _ safe λ control p₀. write_msr-bind m fd _ _ _ _ p₀ (
        checked-bind s.core_data core _ _ in_core λ c was.
          read_msr-bind m fd _ _ _ ((refl, refl, inl (refl, refl)), p₀)
            λ therm p₁. checked-bind s.die_temp cpuid _ _ in_die λ die die_was.
              read_msr-bind m fd _ _ _ p₁ λ instr p₂. read_msr-bind m fd _ _ _ p₂ λ clk_curr p₃.
                read_msr-bind m fd _ _ _ p₃ λ clk_ref p₄.
                  Rules.bind
                    (read_performance-Moved m fd _ p₄ first c _ (record {
                      tsc = refl;
                      instr = refl;
                      clk_curr = refl;
                      clk_ref = refl;
                      aperf_kept = refl;
                      mperf_kept = refl;
                    }))
                    λ c' t' (moved, tidy). returns (
                      record { old = c; new = c'; was = was; now = refl; moved = moved },
                      (tidy.0, tidy.1),
                    ))
