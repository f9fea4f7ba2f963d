-- ===== src/NodeSmp/Main/Returns.antt =====
-- pow_node_smp on a machine that refuses no access, up to its loop and there.
use powmon.Base.{
  ℕ, zero, suc, ◌*◌, ◌/◌, ◌%◌, ◌^◌, ◌≡◌, refl, ap, ◌∙◌, inl, inr, true, false, [], ◌∷◌, length,
  bit_and, pos, is_positive,
}
use powmon.Machine.{Machine, Trace, ret, closed, opened, rdmsr}
use powmon.Machine.Rules.{of_ret}
use powmon.Clib.{ok}
use powmon.Fpu.{Float}
use powmon.Msr.{close_msr}
use powmon.Msr.Addresses.{max_cores, max_packages, platform_info_addr}
use powmon.Msr.Events.{IsSafe}
use powmon.Msr.Laws.{Responsive, Runs-returns}
use powmon.PowMon.Detect.{physical_tag, core_tag}
use powmon.PowMon.Detect.Topology.{distinct, described}
use powmon.PowMon.Detect.Range.{FitsTables, detect_topology-returns}
use powmon.PowMon.Frequency.{bus_freq, bus_freq-cases}
use powmon.PowMon.Start
use powmon.PowMon.Start.Ready.{positive_not_negative}
use powmon.PowMon.Start.Returns.{HasRatio, open_msr-descriptor, read_msr-some}
use powmon.NodeSmp.Data.{SysData}
use powmon.NodeSmp.Detect.Agreement.{copied, detect_topology-copied}
use powmon.NodeSmp.Frequency.{detect_nominal_frequency}
use powmon.NodeSmp.Main.{Site, parse, until_loop}
use powmon.NodeSmp.Main.Started.{
  IsMalloc, Started, IsFound, with_frequency-found, detect_nominal_frequency-Tuned,
  described-IsFound, first_sampling-Started,
}
use powmon.NodeSmp.Main.Whole.{
  NamesModel, Monitors, parse-interval, init_pow_mon-dies, until_loop-Monitors,
}
use powmon.NodeSmp.Run.{
  Env, init_pow_mon, set_up, tune, Loop, tests, round, Reach, here, next, entered,
}
use powmon.NodeSmp.Run.Round.{IsReadable, samp_handler-Round}
use powmon.NodeSmp.Run.Rounds.{Reach-Kept}

-- the nominal frequency is found
detect_nominal_frequency-finds :
    (m : Machine) (to_float : ℕ → Float) (s : SysData) (t : Trace)
    → Responsive m
    → HasRatio m
    → is_positive s.cpu_model ≡ true
    → (freq : Float) × (u : Trace) × (detect_nominal_frequency m to_float s t
        ≡ ret (pos 0, record s { nom_freq = freq }) u)
unfolding detect_nominal_frequency close_msr
detect_nominal_frequency-finds m to_float s t live ratio known =
    let (fd, o) = live.opens t 0 in
    let (v, r) = live.reads (opened 0 fd ∷ t) fd platform_info_addr in
    let factor = bit_and (v % 2 ^ 64 / 2 ^ 8) 0xff in
    elim (with_frequency-found to_float s factor (bus_freq s.cpu_model)
      (bus_freq-cases s.cpu_model)) [
        | inl (no_ratio, _) ↦ absurd (ratio (opened 0 fd ∷ t) fd v r no_ratio)
        | inr (freq, e) ↦ (
          freq,
          closed fd ∷ rdmsr fd platform_info_addr (v % 2 ^ 64) ∷ opened 0 fd ∷ t,
          rw
              (
                known,
                open_msr-descriptor m 0 t o,
                read_msr-some m fd platform_info_addr (opened 0 fd ∷ t) r,
                e,
              )
              refl,
        )
      ]

module _ (env : Env) (site : Site) (law : IsMalloc env) (names : NamesModel site.model_file)
    (fits : FitsTables site.topology_file) (live : Responsive env.machine)
    (ratio : HasRatio env.machine) where
  tune-returns :
      (s : SysData) (t : Trace)
      → IsFound s
      → IsSafe t
      → (s' : SysData) × (t' : Trace) × (tune env s t ≡ ret s' t') × Started s.ncpu s.ncore t s' t'
  unfolding tune
  tune-returns s t found safe =
      let to_float = env.fpu.float_of_u64 in
      let (freq, u, e) =
        detect_nominal_frequency-finds env.machine to_float s t live ratio found.model in
      let tuned =
        of_ret e (detect_nominal_frequency-Tuned env.machine to_float s t found.model safe) in
      rw e
        (Runs-returns live (first_sampling-Started env law freq s t u found tuned.fds tuned.safe))

  -- Where the options give settings, it comes to its loop.
  until_loop-returns :
      (s : SysData)
      → parse env.fpu site.atof site.args (record init_pow_mon { dt = 0x3f800000 }) ≡ ok s
      → (s' : SysData) × (t : Trace) × (until_loop env site [] ≡ ret s' t)
  unfolding until_loop set_up
  until_loop-returns s given =
      let (dt, now) = parse-interval env.fpu site.atof site.args _ s given in
      let (found, known, positive) = names s in
      let file = site.topology_file in
      let host = Start.init_pow_mon in
      let tables =
        detect_topology-copied file host _ found.1 (detect_topology-returns file host fits) in
      let ready =
        described-IsFound site.model_file file s found known positive
          (ap (λ (x : SysData). length x.die_temp) now ∙ init_pow_mon-dies.0)
          (ap (λ (x : SysData). length x.die_temp_en) now ∙ init_pow_mon-dies.1) in
      let (s', t, run, _) =
        tune-returns (copied found.1 (pos 0, described file host)).1 [] ready tt in
      (s', t, rw (given, known, positive_not_negative found.0 positive, tables, run) refl)

-- A state of the loop with so many rounds made, and no signal yet.
pub record Rounds (env : Env) (s : SysData) (t : Trace) (n : ℕ) : Type 0 where
  pub loop : Loop
  pub reached : Reach env (entered s t) loop
  pub keep_running : loop.keep_running ≡ true
  pub awake : loop.asleep ≡ false
  pub count : length loop.screen ≡ n

module _ (env : Env) (site : Site) (law : IsMalloc env) (readable : IsReadable env)
    (names : NamesModel site.model_file) (fits : FitsTables site.topology_file)
    (live : Responsive env.machine) (ratio : HasRatio env.machine) where
  rounds :
      {ncpu ncore : ℕ} (s : SysData) (t : Trace)
      → Started ncpu ncore [] s t
      → (n : ℕ) → Rounds env s t n
  rounds s t started zero = record {
    loop = entered s t;
    reached = here;
    keep_running = refl;
    awake = refl;
    count = refl;
  }
  rounds s t started (suc n) =
      let r = rounds s t started n in
      let kept = (Reach-Kept env readable s t started.ready started.safe r.reached).0 in
      let ((v, cpus, cores), u, run, _) =
        Runs-returns live
          (samp_handler-Round env r.loop.sysd r.loop.trace readable kept.ready kept.safe) in
      record {
        loop = record r.loop {
          asleep = false;
          sysd = v;
          trace = u;
          screen = (cpus, cores) ∷ r.loop.screen;
        };
        reached =
            next (next r.reached (tests r.loop r.awake r.keep_running))
              (round (record r.loop { asleep = true }) v cpus cores u refl run);
        keep_running = r.keep_running;
        awake = refl;
        count = ap suc r.count;
      }

  -- Where the file names a known model and fits the tables, `malloc` gives what it is asked for,
  -- /proc/meminfo can be read, the options give settings, and the machine refuses no access and holds
  -- a ratio in the platform register: pow_node_smp comes to its loop, and for every number it can make
  -- that many rounds there, each of which prints a line for every package and every core; the data fit
  -- the topology of the file all the while, and no sampling leaves a descriptor open.
  pub until_loop-Rounds :
      (s : SysData) (n : ℕ)
      → parse env.fpu site.atof site.args (record init_pow_mon { dt = 0x3f800000 }) ≡ ok s
      → (s' : SysData) × (t : Trace) × (until_loop env site [] ≡ ret s' t)
        × (r : Rounds env s' t n) × Monitors
            (distinct physical_tag 3 max_packages site.topology_file)
            (distinct core_tag 3 max_cores site.topology_file
              * distinct physical_tag 3 max_packages site.topology_file)
            s'
            t
            r.loop
  until_loop-Rounds s n given =
      let (s', t, run) = until_loop-returns env site law names fits live ratio s given in
      let first = until_loop-Monitors env site law readable names fits s' t run here in
      let r = rounds s' t first.started n in
      (s', t, run, r, until_loop-Monitors env site law readable names fits s' t run r.reached)
