-- ===== src/PowMon/Sensor/Counters.antt =====
-- What the DRAM, uncore and residency counters of a package become in a round.
use powmon.Base.{
  ℕ, ◌≡◌, refl, ◌≢◌, inl, inr, Bool, true, false, Bool-cases, arith, is, ◌==◌, ◌&&◌, if◌then◌else◌,
  ==→eq,
}
use powmon.Machine.{Machine, Trace}
use powmon.Machine.Rules
use powmon.Machine.Rules.{Runs, returns}
use powmon.Msr.Addresses.{msr_dram_energy_status, haswell_ep}
use powmon.Msr.Events.{IsSafe, Reads, none_read, read, Reads-trans}
use powmon.Msr.Laws.{Stopped, read_msr-bind}
use powmon.PowMon.Data.{PerCpuData, SysData}
use powmon.PowMon.Sensor.{read_dram, read_uclk, read_residency}

pub record DramStep (fd supp : ℕ) (c : PerCpuData) (t : Trace) (c' : PerCpuData) (t' : Trace)
    : Type 0 where
  pub frame : c' ≡ record c { pow_dram_c_last = c'.pow_dram_c_last; pow_dram_c = c'.pow_dram_c }
  pub moved : (supp ≡ 1 → c'.pow_dram_c_last ≡ c.pow_dram_c) × (supp ≢ 1 → c'.pow_dram_c ≡ 0)
  pub reads : Reads fd t t'

pub read_dram-Runs :
    (m : Machine) (fd supp : ℕ) (c : PerCpuData) (t : Trace)
    → IsSafe t
    → Runs (DramStep fd supp c t) (Stopped m) (read_dram m fd supp c t)
unfolding read_dram
read_dram-Runs m fd supp c t safe = elim (Bool-cases (supp == 1)) [
  | inl e ↦ rw e (
      read_msr-bind m fd _ _ _ safe λ v _. returns (record {
        frame = refl;
        moved = (λ _. refl, λ h. absurd (h (==→eq supp 1 e)));
        reads = read msr_dram_energy_status v none_read;
      }))
  | inr e ↦
      rw e (
        returns
          (record { frame = refl; moved = (λ h. ground arith, λ _. refl); reads = none_read }))
]

record UclkStep (fd : ℕ) (b : Bool) (c : PerCpuData) (t : Trace) (c' : PerCpuData) (t' : Trace)
    : Type 0 where
  pub frame : c' ≡ record c { uclk_last = c'.uclk_last; uclk = c'.uclk }
  pub moved : c'.uclk_last ≡ (if b then c.uclk else c.uclk_last)
  pub reads : Reads fd t t'

read_uclk-Runs :
    (m : Machine) (fd : ℕ) (b : Bool) (c : PerCpuData) (t : Trace)
    → IsSafe t
    → Runs (UclkStep fd b c t) (Stopped m) (read_uclk m fd b c t)
unfolding read_uclk
read_uclk-Runs m fd true c t safe =
    read_msr-bind m fd _ _ _ safe
      λ v _. returns (record { frame = refl; moved = refl; reads = read _ v none_read })
read_uclk-Runs m fd false c t safe =
    returns (record { frame = refl; moved = refl; reads = none_read })

pub record ResidencyStep (fd : ℕ) (s : SysData) (c : PerCpuData) (t : Trace) (c' : PerCpuData)
    (t' : Trace) : Type 0 where
  pub frame : c' ≡ record c {
    c2_last = c'.c2_last;
    c2 = c'.c2;
    c3_last = c'.c3_last;
    c3 = c'.c3;
    c6_last = c'.c6_last;
    c6 = c'.c6;
    uclk_last = c'.uclk_last;
    uclk = c'.uclk;
  }
  pub c2_moved : c'.c2_last ≡ (if s.extra_counters == 1 then c.c2 else c.c2_last)
  pub c3_moved : c'.c3_last ≡ (if s.extra_counters == 1 then c.c3 else c.c3_last)
  pub c6_moved : c'.c6_last ≡ (if s.extra_counters == 1 then c.c6 else c.c6_last)
  pub uclk_moved :
      c'.uclk_last
      ≡ (if s.extra_counters == 1 && is s.cpu_model haswell_ep then c.uclk else c.uclk_last)
  pub reads : Reads fd t t'

pub read_residency-Runs :
    (m : Machine) (fd : ℕ) (s : SysData) (c : PerCpuData) (t : Trace)
    → IsSafe t
    → Runs (ResidencyStep fd s c t) (Stopped m) (read_residency m fd s c t)
unfolding read_residency
read_residency-Runs m fd s c t safe = elim (Bool-cases (s.extra_counters == 1)) [
  | inl e ↦ rw e (
      read_msr-bind m fd _ _ _ safe λ c2 p₀. read_msr-bind m fd _ _ _ p₀ λ c3 p₁.
        read_msr-bind m fd _ _ _ p₁ λ c6 p₂.
          Rules.mono (read_uclk-Runs m fd (is s.cpu_model haswell_ep) _ _ p₂) λ c' t' u. record {
            frame = rw u.frame refl;
            c2_moved = rw (u.frame, e) refl;
            c3_moved = rw (u.frame, e) refl;
            c6_moved = rw (u.frame, e) refl;
            uclk_moved = rw e u.moved;
            reads = Reads-trans (read _ _ (read _ _ (read _ _ none_read))) u.reads;
          })
  | inr e ↦ rw e (
      returns (record {
        frame = refl;
        c2_moved = rw e refl;
        c3_moved = rw e refl;
        c6_moved = rw e refl;
        uclk_moved = rw e refl;
        reads = none_read;
      }))
]
