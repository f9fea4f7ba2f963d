-- ===== src/PowMon/Sensor/Package.antt =====
-- What `read_package`, the per-package half of a sampling round, does to the data and the machine.
use powmon.Base.{
  ℕ, ◌<◌, ◌≡◌, refl, sym, ap, ◌∙◌, ◌≢◌, inl, inr, Bool-cases, some, ◌∷◌, arith, get_elem?,
  get_elem?-set_self, set, length, length-set, u32, is, ◌==◌, ◌&&◌, if◌then◌else◌, ==→eq,
}
use powmon.Machine.{Machine, rdmsr, Trace}
use powmon.Machine.Rules
use powmon.Machine.Rules.{Runs, returns}
use powmon.Msr.Addresses.{
  msr_rapl_power_unit, msr_pkg_energy_status, msr_ia32_package_therm_status, haswell_ep,
  ia32_temperature_target,
}
use powmon.Msr.Events.{IsSafe, IsSafe-Reads, Reads, none_read, read, Reads-trans}
use powmon.Msr.Laws.{Stopped, read_msr-bind, checked-bind}
use powmon.PowMon.Data.{PerCpuData, SysData}
use powmon.PowMon.Sensor.{temperature, read_die_temp, read_package}
use powmon.PowMon.Sensor.Counters.{read_dram-Runs, read_residency-Runs}

record DieStep (fd cpuid : ℕ) (s : SysData) (t : Trace) (s' : SysData) (t' : Trace) : Type 0 where
  pub frame : s' ≡ record s { die_temp = s'.die_temp; die_temp_en = s'.die_temp_en }
  pub size : length s'.die_temp ≡ length s.die_temp
  pub size_en : length s'.die_temp_en ≡ length s.die_temp_en
  pub enabled : get_elem? s'.die_temp_en cpuid ≢ some 0
  pub kept : get_elem? s.die_temp_en cpuid ≢ some 0 → (s' ≡ s) × (t' ≡ t)
  pub reads : Reads fd t t'

-- The die temperature of a package is read once, and kept from then on.
read_die_temp-Runs :
    (m : Machine) (fd cpuid : ℕ) (s : SysData) (t : Trace)
    → cpuid < length s.die_temp_en
    → IsSafe t
    → Runs (DieStep fd cpuid s t) (Stopped m) (read_die_temp m fd cpuid s t)
unfolding read_die_temp
read_die_temp-Runs m fd cpuid s t in_die safe = checked-bind s.die_temp_en cpuid t _ in_die λ n was.
    elim (Bool-cases (n == 0)) [
      | inl fresh ↦ rw fresh (
          read_msr-bind m fd _ _ _ safe λ v _. returns (record {
            frame = refl;
            size = length-set s.die_temp cpuid _;
            size_en = length-set s.die_temp_en cpuid _;
            enabled = λ e. cc (get_elem?-set_self s.die_temp_en cpuid 1 in_die);
            kept = λ h. absurd (h (was ∙ ap some (==→eq n 0 fresh)));
            reads = read ia32_temperature_target v none_read;
          }))
      | inr old ↦ rw old (
          returns (record {
            frame = refl;
            size = refl;
            size_en = refl;
            enabled = λ e. ground arith;
            kept = λ _. (refl, refl);
            reads = none_read;
          }))
    ]

-- `new` is the record that a package part of a round leaves, from `old` before it.
pub record PackageStep (fd tsc cpuid : ℕ) (s : SysData) (t : Trace) (s' : SysData) (t' : Trace)
    : Type 0 where
  pub old : PerCpuData
  pub new : PerCpuData
  pub was : get_elem? s.cpu_data cpuid ≡ some old
  pub frame : s' ≡ record s {
    die_temp = s'.die_temp;
    die_temp_en = s'.die_temp_en;
    cpu_data = set s.cpu_data cpuid new;
  }
  pub size : length s'.die_temp ≡ length s.die_temp
  pub size_en : length s'.die_temp_en ≡ length s.die_temp_en
  pub stamped : new.tsc ≡ tsc
  pub pkg_moved : new.pow_pkg_last ≡ old.pow_pkg
  pub dram_moved :
      (s.dram_supp ≡ 1 → new.pow_dram_c_last ≡ old.pow_dram_c)
      × (s.dram_supp ≢ 1 → new.pow_dram_c ≡ 0)
  pub c2_moved : new.c2_last ≡ (if s.extra_counters == 1 then old.c2 else old.c2_last)
  pub c3_moved : new.c3_last ≡ (if s.extra_counters == 1 then old.c3 else old.c3_last)
  pub c6_moved : new.c6_last ≡ (if s.extra_counters == 1 then old.c6 else old.c6_last)
  pub uclk_moved :
      new.uclk_last
      ≡ (if s.extra_counters == 1 && is s.cpu_model haswell_ep then old.uclk else old.uclk_last)
  pub die : ℕ
  pub die_is : get_elem? s'.die_temp cpuid ≡ some die
  pub unit : ℕ
  pub energy : ℕ
  pub therm : ℕ
  pub erg_u : new.erg_u ≡ u32 unit
  pub pkg_is : new.pow_pkg ≡ u32 energy
  pub temp_is : new.temp_pkg ≡ temperature die therm
  pub mid : Trace
  pub die_reads : Reads fd t mid
  pub reads :
      Reads fd
        (rdmsr fd msr_ia32_package_therm_status therm
          ∷ rdmsr fd msr_pkg_energy_status energy
          ∷ rdmsr fd msr_rapl_power_unit unit
          ∷ mid)
        t'

-- Given a package in range, `read_package` never faults. If it returns, the package's energy, DRAM,
-- residency and uncore counters have been moved to their `_last` fields where they are sampled at
-- all, the energy and the temperature are those of the registers read in this round, and beside the
-- package's record only the die temperatures may have changed. It makes no write.
pub read_package-Runs :
    (m : Machine) (fd tsc cpuid : ℕ) (s : SysData) (t : Trace)
    → cpuid < length s.cpu_data
    → cpuid < length s.die_temp
    → cpuid < length s.die_temp_en
    → IsSafe t
    → Runs (PackageStep fd tsc cpuid s t) (Stopped m) (read_package m fd tsc cpuid s t)
unfolding read_package
read_package-Runs m fd tsc cpuid s t in_cpu in_die in_en safe =
    checked-bind s.cpu_data cpuid t _ in_cpu λ c was.
      Rules.bind (read_die_temp-Runs m fd cpuid s t in_en safe) λ s₁ mid d.
        read_msr-bind m fd _ mid _ (IsSafe-Reads d.reads safe) λ unit p₀.
          read_msr-bind m fd _ _ _ p₀ λ energy p₁. read_msr-bind m fd _ _ _ p₁ λ therm p₂.
            checked-bind s₁.die_temp cpuid _ _ (omega (arith, d.size)) λ die die_is.
              Rules.bind (read_dram-Runs m fd s₁.dram_supp _ _ p₂) λ c₂ t₂ r.
                Rules.bind (read_residency-Runs m fd s₁ c₂ t₂ (IsSafe-Reads r.reads p₂)) λ c₃ t₃ q.
                  returns (record {
                    old = c;
                    new = c₃;
                    was = was;
                    frame = rw d.frame refl;
                    size = d.size;
                    size_en = d.size_en;
                    stamped = rw (q.frame, r.frame) refl;
                    pkg_moved = rw (q.frame, r.frame) refl;
                    dram_moved =
                        let supp = ap (λ (x : SysData). x.dram_supp) d.frame in
                        rw q.frame
                          (λ h. r.moved.0 (supp ∙ h), λ h. r.moved.1 (λ e. h (sym supp ∙ e)));
                    c2_moved = rw q.c2_moved (rw (r.frame, d.frame) refl);
                    c3_moved = rw q.c3_moved (rw (r.frame, d.frame) refl);
                    c6_moved = rw q.c6_moved (rw (r.frame, d.frame) refl);
                    uclk_moved = rw q.uclk_moved (rw (r.frame, d.frame) refl);
                    die = die;
                    die_is = die_is;
                    unit = unit;
                    energy = energy;
                    therm = therm;
                    erg_u = rw (q.frame, r.frame) refl;
                    pkg_is = rw (q.frame, r.frame) refl;
                    temp_is = rw (q.frame, r.frame) refl;
                    mid = mid;
                    die_reads = d.reads;
                    reads = Reads-trans r.reads q.reads;
                  })
