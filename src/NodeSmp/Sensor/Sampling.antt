-- ===== src/NodeSmp/Sensor/Sampling.antt =====
-- The two samplings of pow_node_smp as a whole.
use mathlib.Core.Path.{subst}
use native.Mathlib.Decide.{ℕ_discrete}
use powmon.Base.{
  ℕ, ◌+◌, ◌≤◌, ◌<◌, ◌≡◌, refl, sym, ap, ◌∙◌, Bool, true, false, some, arith, length, length-set,
  set, get_elem?, get_elem?-set_self, get_elem?-set_ne,
}
use powmon.Machine.{Machine, Trace}
use powmon.Machine.Rules
use powmon.Machine.Rules.{Runs}
use powmon.Msr.Addresses.{max_packages}
use powmon.Msr.Events.{IsSafe}
use powmon.Msr.Laws.{Stopped}
use powmon.Sweep.{every_core}
use powmon.Sweep.Invariant.{Tidy, every_core-I}
use powmon.NodeSmp.Data.{PerCoreData, SysData}
use powmon.NodeSmp.Sensor.{read_package, read_core, read_msr_data, read_msr_data_first}
use powmon.NodeSmp.Sensor.Parts.{
  PackageStep, Moved, CoreStep, read_package-PackageStep, read_core-CoreStep,
}

-- The arrays have the sizes of the topology, on a machine of at most `MAX_PACKAGES` sockets.
pub record IsReady (s : SysData) : Type 0 where
  pub cpus : length s.cpu_data ≡ s.ncpu
  pub cores : length s.core_data ≡ s.ncore
  pub dies : length s.die_temp ≡ max_packages
  pub dies_en : length s.die_temp_en ≡ max_packages
  pub fits : s.ncpu ≤ max_packages
  pub socket : 0 < s.ncore → 0 < s.ncpu

-- The last values of four counters of core `i` are the values before, and two keep theirs.
pub record Sampled (i : ℕ) (s s' : SysData) : Type 0 where
  pub old : PerCoreData
  pub new : PerCoreData
  pub was : get_elem? s.core_data i ≡ some old
  pub now : get_elem? s'.core_data i ≡ some new
  pub moved : Moved old new

-- What holds before the round of `core`, for the data `s` at the start.
pub record Before (s : SysData) (core : ℕ) (s' : SysData) : Type 0 where
  pub ready : IsReady s'
  pub frame : s' ≡ record s {
    die_temp = s'.die_temp;
    die_temp_en = s'.die_temp_en;
    cpu_data = s'.cpu_data;
    core_data = s'.core_data;
  }
  pub sampled : (i : ℕ) → i < core → Sampled i s s'
  pub later : (i : ℕ) → core ≤ i → get_elem? s'.core_data i ≡ get_elem? s.core_data i

Before-start : (s : SysData) → IsReady s → Before s 0 s
Before-start s ready = record {
  ready = ready;
  frame = refl;
  sampled = λ i h. absurd (omega arith);
  later = λ i _. refl;
}

-- the two sides of a step that keeps the topology
PackageStep-IsReady : {s s' : SysData} → PackageStep s s' → IsReady s → IsReady s'
PackageStep-IsReady {s} {s'} p r =
    let ncpu : s'.ncpu ≡ s.ncpu = ap (λ (x : SysData). x.ncpu) p.frame in
    let ncore : s'.ncore ≡ s.ncore = ap (λ (x : SysData). x.ncore) p.frame in
    let cores : s'.core_data ≡ s.core_data = ap (λ (x : SysData). x.core_data) p.frame in
    record {
      cpus = p.cpus ∙ r.cpus ∙ sym ncpu;
      cores = ap length cores ∙ r.cores ∙ sym ncore;
      dies = p.dies ∙ r.dies;
      dies_en = p.dies_en ∙ r.dies_en;
      fits = omega (arith, r.fits, ncpu);
      socket = λ h. subst (λ n. 0 < n) (sym ncpu) (r.socket (subst (λ n. 0 < n) ncore h));
    }

PackageStep-Before :
    (core : ℕ) {s u v : SysData} → Before s core u → PackageStep u v → Before s core v
PackageStep-Before core {s} {u} {v} b p =
    let same : v.core_data ≡ u.core_data = ap (λ (x : SysData). x.core_data) p.frame in
    record {
      ready = PackageStep-IsReady p b.ready;
      frame =
          p.frame
          ∙ ap
              (λ (x : SysData). record x {
                die_temp = v.die_temp;
                die_temp_en = v.die_temp_en;
                cpu_data = v.cpu_data;
              })
              b.frame
          ∙ ap
              (λ xs. record s {
                die_temp = v.die_temp;
                die_temp_en = v.die_temp_en;
                cpu_data = v.cpu_data;
                core_data = xs;
              })
              (sym same);
      sampled = λ i h.
          let q = b.sampled i h in
          record {
            old = q.old;
            new = q.new;
            was = q.was;
            now = ap (λ xs. get_elem? xs i) same ∙ q.now;
            moved = q.moved;
          };
      later = λ i h. ap (λ xs. get_elem? xs i) same ∙ b.later i h;
    }

stored-Before :
    (core : ℕ) (s u : SysData) (old new : PerCoreData)
    → Before s core u
    → core < s.ncore
    → get_elem? u.core_data core ≡ some old
    → Moved old new
    → Before s (core + 1) (record u { core_data = set u.core_data core new })
stored-Before core s u old new b h was moved =
    let ncore : u.ncore ≡ s.ncore = ap (λ (x : SysData). x.ncore) b.frame in
    let r = b.ready in
    record {
      ready = record {
        cpus = r.cpus;
        cores = length-set u.core_data core new ∙ r.cores;
        dies = r.dies;
        dies_en = r.dies_en;
        fits = r.fits;
        socket = r.socket;
      };
      frame =
          ap
            (λ (x : SysData). record x {
              die_temp = u.die_temp;
              die_temp_en = u.die_temp_en;
              cpu_data = u.cpu_data;
              core_data = set u.core_data core new;
            })
            b.frame;
      sampled = λ i lt. elim (ℕ_discrete core i) [
        | yes e ↦
            subst (λ k. Sampled k s (record u { core_data = set u.core_data core new })) e
              (record {
                old = old;
                new = new;
                was = sym (b.later core (omega arith)) ∙ was;
                now = get_elem?-set_self u.core_data core new (omega (arith, r.cores, ncore));
                moved = moved;
              })
        | no ne ↦
            let q = b.sampled i (omega arith) in
            record {
              old = q.old;
              new = q.new;
              was = q.was;
              now = get_elem?-set_ne u.core_data core i new ne ∙ q.now;
              moved = q.moved;
            }
      ];
      later =
          λ i le. get_elem?-set_ne u.core_data core i new (omega arith) ∙ b.later i (omega arith);
    }

CoreStep-Before :
    (core : ℕ) {s u v : SysData}
    → Before s core u
    → core < s.ncore
    → CoreStep core u v
    → Before s (core + 1) v
CoreStep-Before core {s} {u} b h c =
    subst (Before s (core + 1)) (sym c.now) (stored-Before core s u c.old c.new b h c.was c.moved)

-- What a sampling leaves: the last values of every core are those before it, nothing else changed but
-- the records and the die temperatures, the arrays of the same sizes, and no descriptor open that was
-- not.
abbrev pub Swept : SysData → Trace → SysData → Trace → Type 0
Swept s t s' t' = Before s s.ncore s' × Tidy t t'

module _ (m : Machine) (s : SysData) (t : Trace) (ready : IsReady s) (safe : IsSafe t) where
  every_core-Swept :
      (first : Bool)
      → Runs
          (Swept s t)
          (Stopped m)
          (every_core m s.ncpu s.ncore (read_package m first) (read_core m first) s.ncore 0 0 s t)
  every_core-Swept first =
      every_core-I m s.ncpu s.ncore (read_package m first) (read_core m first) (Before s)
        ready.socket
        (λ fd tsc core cpuid u v small b safe'.
          let ncpu : u.ncpu ≡ s.ncpu = ap (λ (x : SysData). x.ncpu) b.frame in
          Rules.mono
            (read_package-PackageStep m fd v safe' first tsc cpuid u
              (omega (arith, b.ready.cpus, ncpu)) (omega (arith, b.ready.dies, b.ready.fits, ncpu))
              (omega (arith, b.ready.dies_en, b.ready.fits, ncpu)))
            λ u' v' (p, tidy). (PackageStep-Before core b p, tidy))
        (λ fd tsc core cpuid u v h small b safe'.
          let ncpu : u.ncpu ≡ s.ncpu = ap (λ (x : SysData). x.ncpu) b.frame in
          let ncore : u.ncore ≡ s.ncore = ap (λ (x : SysData). x.ncore) b.frame in
          Rules.mono
            (read_core-CoreStep m fd v safe' first tsc core cpuid u
              (omega (arith, b.ready.cores, ncore))
              (omega (arith, b.ready.dies, b.ready.fits, ncpu)))
            λ u' v' (c, tidy). (CoreStep-Before core b h c, tidy))
        s.ncore 0 0 s t (omega arith) ready.socket (Before-start s ready) safe

  -- For data whose arrays fit the topology and a trace with only safe writes, `read_msr_data` stops
  -- only at a refused access. If it returns, every core's last values of the instructions, the clock,
  -- the reference clock and the time stamp are the values these counters had before the call, while
  -- the last values of the actual and the maximum performance counter stayed as they were. All arrays
  -- keep their sizes, the configuration and the counts do not change, and no descriptor stays open
  -- that was not.
  pub read_msr_data-Swept : Runs (Swept s t) (Stopped m) (read_msr_data m s t)
  unfolding read_msr_data
  read_msr_data-Swept = every_core-Swept false

  -- the same of the first sampling
  pub read_msr_data_first-Swept : Runs (Swept s t) (Stopped m) (read_msr_data_first m s t)
  unfolding read_msr_data_first
  read_msr_data_first-Swept = every_core-Swept true
