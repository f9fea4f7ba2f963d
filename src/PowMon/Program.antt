-- ===== src/PowMon/Program.antt =====
-- `main` of powmon/bin/pow_mon.c as a whole: the options, the detection, and the loop with the timer.
use mathlib.Core.Path.{subst}
use powmon.Base.{
  ℕ, ◌*◌, ◌≡◌, refl, sym, ap, ◌∙◌, true, Bool, Option, some, List, [], length, ℤ, is_positive,
}
use powmon.Machine.{Trace, Cmd, ret, pure, ◌>>=◌}
use powmon.Machine.Rules.{of_ret, and_then-eq_ret}
use powmon.Clib.{ok}
use powmon.Fpu.{Double}
use powmon.Msr.Addresses.{max_cores, max_packages}
use powmon.PowMon.Data.{PerCoreData, PerCpuData, SysData}
use powmon.PowMon.Daemon.{System, Next}
use powmon.PowMon.Daemonize.{Fork, go_on}
use powmon.PowMon.Detect.{detect_cpu_model, physical_tag, core_tag}
use powmon.PowMon.Detect.Topology.{distinct}
use powmon.PowMon.Detect.Range.{FitsTables}
use powmon.PowMon.Start.{command, command-eq_ret, set_up, init_pow_mon}
use powmon.PowMon.Start.Ready.{IsMalloc, set_up-Started, init_pow_mon-dies}
use powmon.PowMon.Options.{Ini, start_up}
use powmon.PowMon.Options.Names.{Up, start_up-Up}
use powmon.PowMon.Run.{Env, Process, TimedLoop, TimedReach, started_loop}
use powmon.PowMon.Run.Handler.{Sound}
use powmon.PowMon.Run.Timed.{Kept, TimedReach-Kept}

-- what the process finds on the system and on its command line
pub record Site : Type 0 where
  pub atof : List ℕ → Double
  pub load : List ℕ → Option Ini
  pub args : List (List ℕ)
  pub hostname : List ℕ
  pub system : List ℕ → System
  -- what `daemonize` finds: the answer of `fork`, whether the pid file opens, and that of `setsid`
  pub fork : Fork
  pub pid_opens : Bool
  pub session : Bool
  pub malloc_cpus : ℕ → List PerCpuData
  pub malloc_cores : ℕ → List PerCoreData
  pub model_file : List ℕ
  pub topology_file : List ℕ

-- The data with which the loop is entered, and how the process goes on.
unfoldable pub until_loop : Env → Site → Cmd (SysData × Next × System)
until_loop env site = do
  (s, next, sys) ←
      command (
        start_up env.fpu site.atof site.load site.args (some site.hostname) site.system
          init_pow_mon)
  _ ← command ((go_on site.fork site.pid_opens site.session (next, sys)).0)
  s' ←
      set_up env.machine env.fpu.float_of_u64 site.malloc_cpus site.malloc_cores
        (some site.model_file) (some site.topology_file) s
  pure (s', next, sys)

ret-injective : {A : Type 0} (a b : A) {t u : Trace} → ret a t ≡ ret b u → (a ≡ b) × (t ≡ u)
ret-injective a b e = (cc e, cc e)

-- The file names a known model, whatever the data are.
abbrev pub NamesModel : List ℕ → Type 0
NamesModel file =
    (s : SysData)
    → (found : ℤ × SysData) × (detect_cpu_model (some file) s ≡ ok found)
      × (is_positive found.0 ≡ true)

-- the entry of the loop
abbrev pub entry : SysData → Trace → Process
entry s t = record { sysd = s; trace = t; published = [] }

-- Let the file name a known model and fit the tables, and `malloc` give what is asked for. If `main`
-- comes to its loop, it does so as the mode it was started with allows, and from there on, however
-- alarms, commands and interrupts come, the records have the sizes that the topology of the file asks
-- for, each sampling leaves the descriptors open that were open when the loop was entered, every write
-- sets only enable bits, and each sampling publishes a message for every package and every core.
pub until_loop-Kept :
    (env : Env) (site : Site) (r : SysData × Next × System) (t : Trace) (created settime : Bool)
    → IsMalloc site.malloc_cpus site.malloc_cores
    → NamesModel site.model_file
    → FitsTables site.topology_file
    → until_loop env site [] ≡ ret r t
    → {l : TimedLoop} → TimedReach env (started_loop env (entry r.0 t) created settime) l
    → ((s : SysData) × Up env.fpu site.atof site.load site.args site.system site.hostname
          init_pow_mon s
          (r.1, r.2))
      × Kept
          (distinct physical_tag 3 max_packages site.topology_file)
          (distinct core_tag 3 max_cores site.topology_file
            * distinct physical_tag 3 max_packages site.topology_file)
          t
          l
unfolding until_loop
until_loop-Kept env site r t created settime law names fits e {l} reach =
    let up =
      start_up env.fpu site.atof site.load site.args (some site.hostname) site.system
        init_pow_mon in
    let (x, u, e₁, e₂) = and_then-eq_ret (command up []) _ e in
    let (came, start) = command-eq_ret up e₁ in
    let shown =
      start_up-Up env.fpu site.atof site.load site.args site.hostname site.system init_pow_mon x
        came in
    let daemon = (go_on site.fork site.pid_opens site.session (x.1, x.2)).0 in
    let (_, w, e₅, e₆) = and_then-eq_ret (command daemon u) _ e₂ in
    let begin = (command-eq_ret daemon e₅).1 ∙ start in
    let (s', v, e₃, e₄) =
      and_then-eq_ret
        (set_up env.machine env.fpu.float_of_u64 site.malloc_cpus site.malloc_cores
          (some site.model_file) (some site.topology_file) x.0 w)
        _ e₆ in
    let (found, known, positive) = names x.0 in
    let started = of_ret e₃ (
      set_up-Started env.machine env.fpu.float_of_u64 site.malloc_cpus site.malloc_cores law
        site.model_file site.topology_file x.0 found w known positive fits
        (ap (λ (q : SysData). length q.die_temp) shown.kept ∙ init_pow_mon-dies.0)
        (ap (λ (q : SysData). length q.die_temp_en) shown.kept ∙ init_pow_mon-dies.1)
        (rw begin tt)) in
    let (same, now) = ret-injective (s', x.1, x.2) r e₄ in
    let here : entry s' v ≡ entry r.0 t = cc (same, now) in
    let ncpu = distinct physical_tag 3 max_packages site.topology_file in
    let ncore = distinct core_tag 3 max_cores site.topology_file * ncpu in
    let sound : Sound ncpu ncore v (entry s' v) = record {
      ready = started.0;
      fds = refl;
      safe = started.2;
      counts = tt;
    } in
    (
      (
        x.0,
        subst (Up env.fpu site.atof site.load site.args site.system site.hostname init_pow_mon x.0)
            (ap (λ (q : SysData × Next × System). (q.1, q.2)) same) shown,
      ),
      subst (λ w. Kept ncpu ncore w l) now
          (TimedReach-Kept env ncpu ncore v (entry s' v) created settime sound
            (subst (λ p. TimedReach env (started_loop env p created settime) l) (sym here) reach)),
    )
