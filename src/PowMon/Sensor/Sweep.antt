-- ===== src/PowMon/Sensor/Sweep.antt =====
-- One round of a sweep on the packages, and the state that the sweeps keep.
use mathlib.Core.Path.{subst, subst₂}
use powmon.Base.{
  ℕ, ◌≤◌, ◌<◌, ◌≡◌, refl, sym, ap, ◌∙◌, inl, inr, Bool-cases, some, arith, get_elem?,
  get_elem?-set_self, get_elem?-set_ne, length, length-set, u32,
}
use powmon.Machine.{Machine, Trace}
use powmon.Machine.Rules
use powmon.Machine.Rules.{Runs, returns}
use powmon.Msr.Addresses.{max_packages, msr_pkg_energy_status}
use powmon.Msr.Events.{
  open_fds, open_fds-Reads, IsSafe, IsSafe-Reads, Grows, Grows-refl, Grows-cons, Grows-trans,
  Grows-Reads, ReadSince,
}
use powmon.Msr.Laws.{Stopped}
use powmon.PowMon.Data.{PerCpuData, SysData}
use powmon.Leaders.{is_leader, package_of}
use powmon.PowMon.Sensor.{visit_package}
use powmon.PowMon.Sensor.Package.{PackageStep, read_package-Runs}
use powmon.Leaders.Visits.{hit, hit-other, hit-same, hit-idle, package_of-lt}

-- The arrays have the sizes that the detected topology asks for, on a machine of at most
-- `MAX_PACKAGES` sockets.
pub record IsReady (ncpu ncore : ℕ) (s : SysData) : Type 0 where
  pub ncpu_is : s.ncpu ≡ ncpu
  pub ncore_is : s.ncore ≡ ncore
  pub cpus : length s.cpu_data ≡ ncpu
  pub cores : length s.core_data ≡ ncore
  pub dies : length s.die_temp ≡ max_packages
  pub dies_en : length s.die_temp_en ≡ max_packages
  pub fits : ncpu ≤ max_packages
  pub socket : 0 < ncore → 0 < ncpu

-- Package `j` was sampled: its energy counter was read, and the value before is in `pow_pkg_last`.
pub record Sampled (j : ℕ) (s : SysData) (t : Trace) (s' : SysData) (t' : Trace) : Type 0 where
  pub old : PerCpuData
  pub new : PerCpuData
  pub was : get_elem? s.cpu_data j ≡ some old
  pub now : get_elem? s'.cpu_data j ≡ some new
  pub moved : new.pow_pkg_last ≡ old.pow_pkg
  pub energy : ℕ
  pub energy_is : new.pow_pkg ≡ u32 energy
  pub seen : ReadSince msr_pkg_energy_status energy t t'

pub record VisitStep (ncpu ncore core : ℕ) (s : SysData) (t : Trace) (r : ℕ × SysData) (t' : Trace)
    : Type 0 where
  pub ready : IsReady ncpu ncore r.1
  pub cores_same : r.1.core_data ≡ s.core_data
  pub cpuid_fits : r.0 < max_packages
  pub idle : (j : ℕ) → hit j ncpu ncore core ≡ 0 → get_elem? r.1.cpu_data j ≡ get_elem? s.cpu_data j
  pub sampled : (j : ℕ) → hit j ncpu ncore core ≡ 1 → Sampled j s t r.1 t'
  pub fds : open_fds t' ≡ open_fds t
  pub safe : IsSafe t'
  pub grows : Grows t t'

module _ {fd tsc cpuid : ℕ} {s : SysData} {t : Trace} {s' : SysData} {t' : Trace}
    (p : PackageStep fd tsc cpuid s t s' t') where
  PackageStep-Grows : Grows t t'
  PackageStep-Grows = Grows-trans (Grows-Reads p.die_reads) (
      Grows-trans (Grows-cons _ (Grows-cons _ (Grows-cons _ (Grows-refl _)))) (Grows-Reads p.reads))

  PackageStep-Sampled : cpuid < length s.cpu_data → Sampled cpuid s t s' t'
  PackageStep-Sampled h = record {
    old = p.old;
    new = p.new;
    was = p.was;
    now =
        ap (λ (x : SysData). get_elem? x.cpu_data cpuid) p.frame
        ∙ get_elem?-set_self s.cpu_data cpuid p.new h;
    moved = p.pkg_moved;
    energy = p.energy;
    energy_is = p.pkg_is;
    seen = record {
      fd = fd;
      before = _;
      older = Grows-trans (Grows-Reads p.die_reads) (Grows-cons _ (Grows-refl _));
      newer = Grows-trans (Grows-cons _ (Grows-refl _)) (Grows-Reads p.reads);
    };
  }

  PackageStep-IsReady : {ncpu ncore : ℕ} → IsReady ncpu ncore s → IsReady ncpu ncore s'
  PackageStep-IsReady r = record {
    ncpu_is = ap (λ (x : SysData). x.ncpu) p.frame ∙ r.ncpu_is;
    ncore_is = ap (λ (x : SysData). x.ncore) p.frame ∙ r.ncore_is;
    cpus =
        ap (λ (x : SysData). length x.cpu_data) p.frame
        ∙ length-set s.cpu_data cpuid p.new
        ∙ r.cpus;
    cores = ap (λ (x : SysData). length x.core_data) p.frame ∙ r.cores;
    dies = p.size ∙ r.dies;
    dies_en = p.size_en ∙ r.dies_en;
    fits = r.fits;
    socket = r.socket;
  }

visit_package-Runs_own :
    (m : Machine) (fd tsc core cpuid : ℕ) (s : SysData) (t : Trace)
    → IsReady s.ncpu s.ncore s
    → core < s.ncore
    → cpuid < max_packages
    → IsSafe t
    → Runs (VisitStep s.ncpu s.ncore core s t) (Stopped m) (visit_package m fd tsc core cpuid s t)
unfolding visit_package
visit_package-Runs_own m fd tsc core cpuid s t ready h small safe =
    elim (Bool-cases (is_leader core s.ncore)) [
      | inl e ↦
          let own = package_of core s.ncpu s.ncore in
          let below = package_of-lt core s.ncpu s.ncore h (ready.socket (omega arith)) in
          let in_cpu : own < length s.cpu_data = omega (arith, below, ready.cpus) in
          rw e (
            Rules.bind
              (read_package-Runs m fd tsc own s t in_cpu
                (omega (arith, below, ready.fits, ready.dies))
                (omega (arith, below, ready.fits, ready.dies_en)) safe)
              λ s' t' p. returns (record {
                ready = PackageStep-IsReady p ready;
                cores_same = ap (λ (x : SysData). x.core_data) p.frame;
                cpuid_fits = omega (arith, below, ready.fits);
                idle = λ j miss.
                    ap (λ (x : SysData). get_elem? x.cpu_data j) p.frame
                    ∙ get_elem?-set_ne s.cpu_data own j p.new
                        (hit-other j s.ncpu s.ncore core e miss);
                sampled = λ j found.
                    subst (λ k. Sampled k s t s' t') (hit-same j s.ncpu s.ncore core e found)
                      (PackageStep-Sampled p in_cpu);
                fds = open_fds-Reads p.reads ∙ open_fds-Reads p.die_reads;
                safe = IsSafe-Reads p.reads (tt, (tt, (tt, IsSafe-Reads p.die_reads safe)));
                grows = PackageStep-Grows p;
              }))
      | inr e ↦ rw e (
          returns (record {
            ready = ready;
            cores_same = refl;
            cpuid_fits = small;
            idle = λ j _. refl;
            sampled = λ j found. absurd (hit-idle j s.ncpu s.ncore core e found);
            fds = refl;
            safe = safe;
            grows = Grows-refl t;
          }))
    ]

-- The package part of a round samples exactly the package that the round hits, if any.
pub visit_package-Runs :
    (m : Machine) (fd tsc core cpuid ncpu ncore : ℕ) (s : SysData) (t : Trace)
    → IsReady ncpu ncore s
    → core < ncore
    → cpuid < max_packages
    → IsSafe t
    → Runs (VisitStep ncpu ncore core s t) (Stopped m) (visit_package m fd tsc core cpuid s t)
visit_package-Runs m fd tsc core cpuid ncpu ncore s t ready h small safe =
    let a = ready.ncpu_is in
    let b = ready.ncore_is in
    subst₂
      (λ x y. Runs (VisitStep x y core s t) (Stopped m) (visit_package m fd tsc core cpuid s t)) a b
      (visit_package-Runs_own m fd tsc core cpuid s t
        (subst₂ (λ x y. IsReady x y s) (sym a) (sym b) ready) (omega arith) small safe)
