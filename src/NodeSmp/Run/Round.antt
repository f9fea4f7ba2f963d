-- ===== src/NodeSmp/Run/Round.antt =====
-- What one round of pow_node_smp leaves of its data.
use Prim.Native.String.{String}
use powmon.Base.{ℕ, ◌≡◌, ◌<◌, refl, sym, ap, ◌∙◌, Option, List, length, get_elem?, arith, some}
use mathlib.Core.Path.{subst}
use mathlib.Core.Option
use powmon.Machine.{Trace}
use powmon.Machine.Rules
use powmon.Machine.Rules.{Runs, returns, of_ret}
use powmon.Clib.{ok}
use powmon.Msr.Events.{open_fds, IsSafe}
use powmon.Msr.Laws.{Stopped}
use powmon.NodeSmp.Data.{PerCoreData, SysData}
use powmon.NodeSmp.Sensor.Sampling.{IsReady, Swept, read_msr_data-Swept}
use powmon.Fpu.{Fpu}
use powmon.NodeSmp.Screen.{CpuLine, CoreLine, memory_lines}
use powmon.NodeSmp.Screen.Shown.{Printed, push_to_broker-Printed}
use powmon.NodeSmp.Run.{Env, stamped, samp_handler}

-- the two values of a core that are to be those of the round before
abbrev lasts : PerCoreData → ℕ × ℕ
lasts c = (c.aperf_last, c.mperf_last)

abbrev lasts_of : SysData → ℕ → Option (ℕ × ℕ)
lasts_of s i = Option.map lasts (get_elem? s.core_data i)

-- What holds of the data and the machine while the loop runs.
pub record Going (s : SysData) (t : Trace) (s' : SysData) (t' : Trace) : Type 0 where
  pub ready : IsReady s'
  pub frame : s' ≡ record s {
    die_temp = s'.die_temp;
    die_temp_en = s'.die_temp_en;
    cpu_data = s'.cpu_data;
    core_data = s'.core_data;
    tmpstr = s'.tmpstr;
  }
  unmoved : (i : ℕ) → i < s.ncore → lasts_of s' i ≡ lasts_of s i
  pub fds : open_fds t' ≡ open_fds t
  pub safe : IsSafe t'

pub Going-start : (s : SysData) (t : Trace) → IsReady s → IsSafe t → Going s t s t
Going-start s t ready safe = record {
  ready = ready;
  frame = refl;
  unmoved = λ i h. refl;
  fds = refl;
  safe = safe;
}

pub Going-trans :
    {s u v : SysData} {t t' t'' : Trace} → Going s t u t' → Going u t' v t'' → Going s t v t''
Going-trans {s} {u} {v} g h = record {
  ready = h.ready;
  frame =
      h.frame
      ∙ ap
          (λ (x : SysData). record x {
            die_temp = v.die_temp;
            die_temp_en = v.die_temp_en;
            cpu_data = v.cpu_data;
            core_data = v.core_data;
            tmpstr = v.tmpstr;
          })
          g.frame;
  unmoved = λ i lt.
      h.unmoved i (subst (λ n. i < n) (sym (ap (λ (x : SysData). x.ncore) g.frame)) lt)
      ∙ g.unmoved i lt;
  fds = h.fds ∙ g.fds;
  safe = h.safe;
}

stamped-Going :
    (now : String) (s : SysData) (t : Trace) → IsReady s → IsSafe t → Going s t (stamped now s) t
stamped-Going now s t r safe = record {
  ready = record {
    cpus = r.cpus;
    cores = r.cores;
    dies = r.dies;
    dies_en = r.dies_en;
    fits = r.fits;
    socket = r.socket;
  };
  frame = refl;
  unmoved = λ i h. refl;
  fds = refl;
  safe = safe;
}

Swept-Going : {s u : SysData} {t t' : Trace} → Swept s t u t' → Going s t u t'
Swept-Going {s} {u} (b, tidy) = record {
  ready = b.ready;
  frame =
      b.frame
      ∙ ap
          (λ text. record s {
            die_temp = u.die_temp;
            die_temp_en = u.die_temp_en;
            cpu_data = u.cpu_data;
            core_data = u.core_data;
            tmpstr = text;
          })
          (sym (ap (λ (x : SysData). x.tmpstr) b.frame));
  unmoved = λ i h.
      let q = b.sampled i h in
      let pair : lasts q.new ≡ lasts q.old = cc (q.moved.aperf_kept, q.moved.mperf_kept) in
      rw (q.was, q.now) (ap some pair);
  fds = tidy.0;
  safe = tidy.1;
}

Printed-Going :
    {fpu : Fpu} {u v : SysData} {cpus : List CpuLine} {cores : List CoreLine} (t : Trace)
    → IsReady u
    → IsSafe t
    → Printed fpu u v cpus cores
    → Going u t v t
Printed-Going {fpu} {u} {v} t r safe p =
    let ncpu : v.ncpu ≡ u.ncpu = ap (λ (x : SysData). x.ncpu) p.frame in
    let ncore : v.ncore ≡ u.ncore = ap (λ (x : SysData). x.ncore) p.frame in
    let rest : ◌≡◌ {A = List ℕ × List ℕ × String} (v.die_temp, v.die_temp_en, v.tmpstr)
        (u.die_temp, u.die_temp_en, u.tmpstr) =
      ap (λ (x : SysData). (x.die_temp, x.die_temp_en, x.tmpstr)) p.frame in
    record {
      ready = record {
        cpus = p.sizes.0 ∙ sym ncpu;
        cores = p.sizes.1 ∙ sym ncore;
        dies = ap (λ (x : SysData). length x.die_temp) p.frame ∙ r.dies;
        dies_en = ap (λ (x : SysData). length x.die_temp_en) p.frame ∙ r.dies_en;
        fits = omega (arith, r.fits, ncpu);
        socket = λ h. subst (λ n. 0 < n) (sym ncpu) (r.socket (subst (λ n. 0 < n) ncore h));
      };
      frame =
          p.frame
          ∙ ap
              (λ (q : List ℕ × List ℕ × String). record u {
                die_temp = q.0;
                die_temp_en = q.1;
                cpu_data = v.cpu_data;
                core_data = v.core_data;
                tmpstr = q.2;
              })
              (sym rest);
      unmoved = λ i h.
          let q = p.core i h in
          let pair : lasts q.new ≡ lasts q.old = cc (q.shown.kept.0, q.shown.kept.1) in
          rw (q.was, q.now) (ap some pair);
      fds = refl;
      safe = safe;
    }

-- What a round leaves: the data go on, and it printed a line for every package and core.
abbrev pub Round : Env → SysData → Trace → SysData × List CpuLine × List CoreLine → Trace → Type 0
Round env s t (s', cpus, cores) t' =
    Going s t s' t'
    × (u : SysData) × (Swept (stamped (env.timestamp t) s) t u t')
    × Printed env.fpu u s' cpus cores

-- /proc/meminfo can be read and has two lines, at every point of the run.
abbrev pub IsReadable : Env → Type 0
IsReadable env = (t : Trace) → (l : List ℕ × List ℕ) × (memory_lines (env.meminfo t) ≡ ok l)

pub samp_handler-Round :
    (env : Env) (s : SysData) (t : Trace)
    → IsReadable env
    → IsReady s
    → IsSafe t
    → Runs (Round env s t) (Stopped env.machine) (samp_handler env s t)
unfolding samp_handler
samp_handler-Round env s t readable r safe =
    let g = stamped-Going (env.timestamp t) s t r safe in
    Rules.bind (read_msr_data-Swept env.machine (stamped (env.timestamp t) s) t g.ready safe)
      λ u t' swept.
        let (l, e) = readable t' in
        let b = swept.0 in
        let (v, cpus, cores, run, p) =
          push_to_broker-Printed env.fpu (env.meminfo t') l (env.cpu_locals t') u e b.ready.cpus
            b.ready.cores in
        rw run (
          returns (
            Going-trans g (Going-trans (Swept-Going swept) (Printed-Going t' b.ready swept.1.1 p)),
            u,
            swept,
            p,
          ))
