-- ===== src/NodeSmp/Run/Rounds.antt =====
-- What every number of rounds of pow_node_smp keeps.
use powmon.Base.{All, ◌≡◌, ap, ◌∙◌, length}
use powmon.Machine.{Trace}
use powmon.Machine.Rules.{of_ret}
use powmon.Msr.Events.{IsSafe}
use powmon.NodeSmp.Data.{SysData}
use powmon.NodeSmp.Sensor.Sampling.{IsReady}
use powmon.NodeSmp.Run.{Env, Loop, Step, tests, round, sig_handler, Reach, here, next, entered}
use powmon.NodeSmp.Run.Round.{Going, Going-start, Going-trans, IsReadable, samp_handler-Round}

module _ (env : Env) (readable : IsReadable env) (s : SysData) (t : Trace) (ready : IsReady s)
    (safe : IsSafe t) where
  -- What every step keeps: the data go on, and each printed round has a line for every package and
  -- every core.
  abbrev pub Kept : Loop → Type 0
  Kept l =
      Going s t l.sysd l.trace × All (λ r. (length r.0 ≡ s.ncpu) × (length r.1 ≡ s.ncore)) l.screen

  Step-Kept : {l k : Loop} → Step env l k → Kept l → Kept k
  Step-Kept (round l v cpus cores u on run) kept =
      let p =
        of_ret run (samp_handler-Round env l.sysd l.trace readable kept.0.ready kept.0.safe) in
      let (g, _, swept, q) = p in
      (
        Going-trans kept.0 g,
        (
          (
            q.cpu_count
                ∙ ap (λ (x : SysData). x.ncpu) swept.0.frame
                ∙ ap (λ (x : SysData). x.ncpu) kept.0.frame,
            q.core_count
                ∙ ap (λ (x : SysData). x.ncore) swept.0.frame
                ∙ ap (λ (x : SysData). x.ncore) kept.0.frame,
          ),
          kept.1,
        ),
      )
  Step-Kept (tests l awake on) kept = kept
  Step-Kept (sig_handler l) kept = kept

  -- However many rounds are made and whenever the signal comes, in every state of the loop that is
  -- reached from data that fit the topology the arrays have their sizes, nothing of the topology
  -- changed, no descriptor is open that was not when the loop was entered, every write was safe, and
  -- each round printed a line for every package and every core. But `aperf_last` and `mperf_last` of
  -- each core still are what they were when the loop was entered: no round stores them.
  pub Reach-Kept : {l : Loop} → Reach env (entered s t) l → Kept l
  Reach-Kept here = (Going-start s t ready safe, tt)
  Reach-Kept (next r step) = Step-Kept step (Reach-Kept r)
