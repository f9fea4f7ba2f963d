-- ===== src/PowMon/Sensor/Core.antt =====
-- What `read_core`, the per-core half of a sampling round, does to the data and to the machine.
use powmon.Base.{ℕ, ◌<◌, ◌≡◌, refl, ap, inl, [], bit_or, some, ◌∷◌, get_elem?, set, length}
use powmon.Machine.{Machine, rdmsr, wrmsr, Trace}
use powmon.Machine.Rules.{Runs, returns}
use powmon.Msr.Addresses.{
  msr_core_c3_residency, msr_core_c6_residency, msr_ia32_therm_status, msr_core_perf_fixed_ctr0,
  msr_core_perf_fixed_ctr1, msr_core_perf_fixed_ctr2, msr_core_perf_fixed_ctr_ctrl, msr_mperf,
  msr_aperf,
}
use powmon.Msr.Events.{open_fds, IsSafe, Grows}
use powmon.Msr.Laws.{Stopped, read_msr-bind, write_msr-bind, checked-bind}
use powmon.PowMon.Data.{PerCoreData, SysData}
use powmon.PowMon.Sensor.{temperature, read_core}

-- Each counter's last value is its value before.
pub record Shifted (old new : PerCoreData) : Type 0 where
  pub tsc : new.tsc_last ≡ old.tsc
  pub instr : new.instr_last ≡ old.instr
  pub clk_curr : new.clk_curr_last ≡ old.clk_curr
  pub clk_ref : new.clk_ref_last ≡ old.clk_ref
  pub c3 : new.c3_last ≡ old.c3
  pub c6 : new.c6_last ≡ old.c6
  pub aperf : new.aperf_last ≡ old.aperf
  pub mperf : new.mperf_last ≡ old.mperf

-- The accesses of a core's round, the newest first: each counter was read once, and the value read
-- is the value stored.
abbrev core_events : ℕ → ℕ → ℕ → PerCoreData → Trace → Trace
core_events fd control therm c t =
    rdmsr fd msr_mperf c.mperf
    ∷ rdmsr fd msr_aperf c.aperf
    ∷ rdmsr fd msr_core_c6_residency c.c6
    ∷ rdmsr fd msr_core_c3_residency c.c3
    ∷ rdmsr fd msr_core_perf_fixed_ctr2 c.clk_ref
    ∷ rdmsr fd msr_core_perf_fixed_ctr1 c.clk_curr
    ∷ rdmsr fd msr_core_perf_fixed_ctr0 c.instr
    ∷ rdmsr fd msr_ia32_therm_status therm
    ∷ wrmsr fd msr_core_perf_fixed_ctr_ctrl (bit_or control 0x333)
    ∷ rdmsr fd msr_core_perf_fixed_ctr_ctrl control
    ∷ t

pub record CoreStep (fd tsc core cpuid : ℕ) (s : SysData) (t : Trace) (s' : SysData) (t' : Trace)
    : Type 0 where
  pub old : PerCoreData
  pub new : PerCoreData
  pub was : get_elem? s.core_data core ≡ some old
  pub now : s' ≡ record s { core_data = set s.core_data core new }
  pub shifted : Shifted old new
  pub stamped : new.tsc ≡ tsc
  pub die : ℕ
  pub die_was : get_elem? s.die_temp cpuid ≡ some die
  pub control : ℕ
  pub therm : ℕ
  pub temp : new.temp ≡ temperature die therm
  pub events : t' ≡ core_events fd control therm new t
  pub safe : IsSafe t'

-- Given a core and a package in range, `read_core` never faults. If it returns, it has moved each
-- counter of that core to its `_last` field, stored the values that it read in the order of
-- `core_events`, computed the temperature from the package's die temperature, and changed nothing
-- else. It exits only with the statuses of a failed access, and every write so far was safe.
pub read_core-Runs :
    (m : Machine) (fd tsc core cpuid : ℕ) (s : SysData) (t : Trace)
    → core < length s.core_data
    → cpuid < length s.die_temp
    → IsSafe t
    → Runs (CoreStep fd tsc core cpuid s t) (Stopped m) (read_core m fd tsc core cpuid s t)
unfolding read_core
read_core-Runs m fd tsc core cpuid s t in_core in_die safe =
    read_msr-bind m fd _ t _ safe λ control p₀. write_msr-bind m fd _ _ _ _ p₀ (
      checked-bind s.core_data core _ _ in_core λ c was.
        read_msr-bind m fd _ _ _ ((refl, refl, inl (refl, refl)), p₀)
          λ therm p₁. checked-bind s.die_temp cpuid _ _ in_die λ die die_was.
            read_msr-bind m fd _ _ _ p₁ λ instr p₂. read_msr-bind m fd _ _ _ p₂ λ clk_curr p₃.
              read_msr-bind m fd _ _ _ p₃ λ clk_ref p₄. read_msr-bind m fd _ _ _ p₄ λ c3 p₅.
                read_msr-bind m fd _ _ _ p₅ λ c6 p₆. read_msr-bind m fd _ _ _ p₆ λ aperf p₇.
                  read_msr-bind m fd _ _ _ p₇ λ mperf p₈. returns (record {
                    old = c;
                    new = _;
                    was = was;
                    now = refl;
                    shifted = record {
                      tsc = refl;
                      instr = refl;
                      clk_curr = refl;
                      clk_ref = refl;
                      c3 = refl;
                      c6 = refl;
                      aperf = refl;
                      mperf = refl;
                    };
                    stamped = refl;
                    die = die;
                    die_was = die_was;
                    control = control;
                    therm = therm;
                    temp = refl;
                    events = refl;
                    safe = p₈;
                  }))

module _ {fd tsc core cpuid : ℕ} {s : SysData} {t : Trace} {s' : SysData} {t' : Trace}
    (c : CoreStep fd tsc core cpuid s t s' t') where
  pub CoreStep-open_fds : open_fds t' ≡ open_fds t
  CoreStep-open_fds = ap open_fds c.events

  pub CoreStep-Grows : Grows t t'
  CoreStep-Grows = record { recent = core_events fd c.control c.therm c.new []; joined = c.events }
