-- ===== src/PowMon/Entered.antt =====
-- How `main` of powmon/bin/pow_mon.c comes to its loop on a machine that refuses no access.
use powmon.Base.{ℕ, ◌*◌, ◌≡◌, refl, ap, ◌∙◌, some, [], length}
use powmon.Machine.{Trace, ret}
use powmon.Clib.{ok}
use powmon.Msr.Addresses.{max_cores, max_packages}
use powmon.Msr.Laws.{Responsive}
use powmon.PowMon.Data.{SysData}
use powmon.PowMon.Daemon.{System, Next}
use powmon.PowMon.Daemonize.{go_on}
use powmon.PowMon.Detect.{physical_tag, core_tag}
use powmon.PowMon.Detect.Topology.{distinct}
use powmon.PowMon.Detect.Range.{FitsTables}
use powmon.PowMon.Start.{init_pow_mon}
use powmon.PowMon.Start.Ready.{IsMalloc, Started, init_pow_mon-dies}
use powmon.PowMon.Start.Returns.{HasRatio, set_up-returns}
use powmon.PowMon.Options.{start_up}
use powmon.PowMon.Options.Names.{start_up-Up}
use powmon.PowMon.Program.{Site, NamesModel, until_loop}
use powmon.PowMon.Run.{Env}

-- the sockets and the cores of the file that `main` reads
abbrev pub sockets : Site → ℕ
sockets site = distinct physical_tag 3 max_packages site.topology_file

abbrev pub cores : Site → ℕ
cores site = distinct core_tag 3 max_cores site.topology_file * sockets site

module _ (env : Env) (site : Site) (law : IsMalloc site.malloc_cpus site.malloc_cores)
    (names : NamesModel site.model_file) (fits : FitsTables site.topology_file)
    (live : Responsive env.machine) (ratio : HasRatio env.machine) where
  pub until_loop-returns :
      (s : SysData) (chosen : Next) (sys : System)
      → start_up env.fpu site.atof site.load site.args (some site.hostname) site.system init_pow_mon
        ≡ ok (s, chosen, sys)
      → (go_on site.fork site.pid_opens site.session (chosen, sys)).0 ≡ ok tt
      → (s' : SysData) × (t : Trace) × (until_loop env site [] ≡ ret (s', chosen, sys) t)
        × Started (sockets site) (cores site) [] s' t
  unfolding until_loop
  until_loop-returns s chosen sys up daemon =
      let shown =
        start_up-Up env.fpu site.atof site.load site.args site.hostname site.system init_pow_mon
          (s, chosen, sys) up in
      let (found, known, positive) = names s in
      let (s', t, run, started) =
        set_up-returns env.machine env.fpu.float_of_u64 site.malloc_cpus site.malloc_cores law live
          ratio site.model_file site.topology_file s found [] known positive fits
          (ap (λ (q : SysData). length q.die_temp) shown.kept ∙ init_pow_mon-dies.0)
          (ap (λ (q : SysData). length q.die_temp_en) shown.kept ∙ init_pow_mon-dies.1) tt in
      (s', t, rw (up, daemon, run) refl, started)
