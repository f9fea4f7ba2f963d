-- ===== src/PowMpi/World/Moves.antt =====
-- What each move of a process keeps.
use mathlib.Core.Path.{subst}
use powmon.Base.{ℕ, ◌≤◌, ◌<◌, ◌≡◌, refl, sym, ◌∙◌, ◌⊎◌, inl, inr, true, false, ==→eq, ℤ, arith}
use powmon.Machine.{Trace}
use powmon.Machine.Rules.{of_ret, of_exit}
use powmon.Msr.Events.{Grows, Grows-refl, Grows-trans, IsSafe}
use powmon.EnergyApp.Main.Reported.{IsSound, found}
use powmon.PowMpi.Election.{Splits, imonitor}
use powmon.PowMpi.Election.Monitors.{imonitor-one}
use powmon.PowMpi.Process.Energy.{Begun, Ends, monitor_init-Begun}
use powmon.PowMpi.Report.Finished.{stays-IsSafe, finish-Ends}
use powmon.PowMpi.World.{
  Job, Place, initing, first_barrier, running, last_barrier, finishing, ended, stopped, called,
  passed, Measuring, World, is_monitor, own, Move, begins, fails, joins, starts, works, exits,
  finalizes, leaves, reports, gives_up, ends,
}

-- MPI numbers the processes of a colour, and the files of every node are those of a machine that the
-- detection gets past.
pub record IsLaunched (job : Job) : Type 0 where
  pub splits : Splits job.split
  pub sound : (c : ℤ) → IsSound (job.node c)

-- No process has left a barrier that it has not called.
pub called_ge : (p : Place) → passed p ≤ called p
called_ge initing = omega arith
called_ge first_barrier = omega arith
called_ge running = omega arith
called_ge last_barrier = omega arith
called_ge finishing = omega arith
called_ge ended = omega arith
called_ge (stopped n c) = omega arith

module _ (job : Job) (launched : IsLaunched job) where
  -- The first reading was made, and the machine has gone on since.
  abbrev pub Watching : ℕ → Measuring → Trace → Type 0
  Watching i d t =
      let c = job.color i in
      (u : Trace) × Begun (job.node c) (found (job.node c) (launched.sound c)) d.sysd u × Grows u t

  -- What a process that monitors has, by its place.
  abbrev pub Stands : ℕ → Place → Measuring → Trace → Type 0
  Stands i initing d t = Unit
  Stands i first_barrier d t = Watching i d t
  Stands i running d t = Watching i d t
  Stands i last_barrier d t = Watching i d t
  Stands i finishing d t = Watching i d t
  Stands i ended d t =
      let c = job.color i in (u : Trace) × Ends Grows (job.node c) (launched.sound c) d.sysd u
  Stands i (stopped n c) d t = Unit

  pub record Kept (w : World) : Type 0 where
    pub safe : (c : ℤ) → IsSafe (w.trace c)
    pub gates :
        (p q : ℕ)
        → p < job.world_size
        → q < job.world_size
        → passed (w.place p) ≤ called (w.place q)
    pub stands :
        (p : ℕ)
        → p < job.world_size
        → is_monitor job p ≡ true
        → Stands p (w.place p) (w.measuring p) (own job w p)

  Watching-Grows :
      (i : ℕ) (d : Measuring) {t t' : Trace} → Grows t t' → Watching i d t → Watching i d t'
  Watching-Grows i d g (u, begun, ran) = (u, begun, Grows-trans ran g)

  pub Stands-Grows :
      (i : ℕ) (p : Place) (d : Measuring) {t t' : Trace}
      → Grows t t'
      → Stands i p d t
      → Stands i p d t'
  Stands-Grows i initing d g h = tt
  Stands-Grows i first_barrier d g h = Watching-Grows i d g h
  Stands-Grows i running d g h = Watching-Grows i d g h
  Stands-Grows i last_barrier d g h = Watching-Grows i d g h
  Stands-Grows i finishing d g h = Watching-Grows i d g h
  Stands-Grows i ended d g h = h
  Stands-Grows i (stopped n c) d g h = tt

  -- Two processes of a colour do not both monitor.
  pub one_monitor :
      (p q : ℕ)
      → job.color p ≡ job.color q
      → is_monitor job p ≡ true
      → is_monitor job q ≡ true
      → p ≡ q
  one_monitor p q same e f =
      let (m, _, _, _, only) = imonitor-one job.split job.color q launched.splits in
      only p same (==→eq (imonitor (job.split job.color p)) 1 e)
      ∙ sym (only q refl (==→eq (imonitor (job.split job.color q)) 1 f))

  -- The facts on one move.
  pub record Moves (w : World) (i : ℕ) (p : Place) (d : Measuring) (t : Trace) : Type 0 where
    pub forward : called (w.place i) ≤ called p
    pub allowed : (q : ℕ) → q < job.world_size → passed p ≤ called (w.place q)
    pub safe : IsSafe t
    pub stands : is_monitor job i ≡ true → Stands i p d t
    pub alone : (is_monitor job i ≡ true) ⊎ Grows (own job w i) t

  module _ (w : World) (kept : Kept w) (i : ℕ) (lt : i < job.world_size) where
    here_is :
        {p : Place} → w.place i ≡ p → (q : ℕ) → q < job.world_size → passed p ≤ called (w.place q)
    here_is e q h = subst (λ p. passed p ≤ called (w.place q)) e (kept.gates i q lt h)

    Stands-place :
        {p : Place}
        → w.place i ≡ p
        → is_monitor job i ≡ true
        → Stands i p (w.measuring i) (own job w i)
    Stands-place e mon =
        subst (λ p. Stands i p (w.measuring i) (own job w i)) e (kept.stands i lt mon)

    forward_at : {p : Place} {n : ℕ} → w.place i ≡ p → called p ≤ n → called (w.place i) ≤ n
    forward_at {n = n} e h = subst (λ p. called p ≤ n) (sym e) h

    -- a move that leaves the data and the machine of a process as they are
    stays_at :
        {p q : Place}
        → w.place i ≡ p
        → called p ≤ called q
        → ((r : ℕ) → r < job.world_size → passed q ≤ called (w.place r))
        → (is_monitor job i ≡ true → Stands i q (w.measuring i) (own job w i))
        → Moves w i q (w.measuring i) (own job w i)
    stays_at e up open_ st = record {
      forward = forward_at e up;
      allowed = open_;
      safe = kept.safe (job.color i);
      stands = st;
      alone = inr (Grows-refl _);
    }

    never : {A : Type 0} → is_monitor job i ≡ false → is_monitor job i ≡ true → A
    never off on = absurd (cc (off, on))

    pub Move-Moves : {p : Place} {d : Measuring} {t : Trace} → Move job w i p d t → Moves w i p d t
    Move-Moves (begins s initial t e mon run) =
        let c = job.color i in
        let begun =
          of_ret run
            (monitor_init-Begun (job.node c) (launched.sound c) (own job w i) (kept.safe c)) in
        record {
          forward = forward_at e (omega arith);
          allowed = here_is e;
          safe = begun.1.loop.went.1;
          stands = λ _. (t, begun, Grows-refl t);
          alone = inl mon;
        }
    Move-Moves (fails c t e mon run) = record {
      forward = forward_at e (omega arith);
      allowed = here_is e;
      safe =
          let k = job.color i in
          of_exit run (
            stays-IsSafe
              (monitor_init-Begun (job.node k) (launched.sound k) (own job w i) (kept.safe k)));
      stands = λ _. tt;
      alone = inl mon;
    }
    Move-Moves (joins e off) = stays_at e (omega arith) (here_is e) (never off)
    Move-Moves (starts e all) = stays_at e (omega arith) all (Stands-place e)
    Move-Moves (works t e g safe) = record {
      forward = forward_at e (omega arith);
      allowed = here_is e;
      safe = safe;
      stands = λ mon. Watching-Grows i (w.measuring i) g (Stands-place e mon);
      alone = inr g;
    }
    Move-Moves (exits c e) = stays_at e (omega arith) (here_is e) (λ _. tt)
    Move-Moves (finalizes e) = stays_at e (omega arith) (here_is e) (Stands-place e)
    Move-Moves (leaves e all) = stays_at e (omega arith) all (Stands-place e)
    Move-Moves (reports s times shown t e mon run) =
        let k = job.color i in
        let (u, begun, ran) = Stands-place e mon in
        let (done, safe) = of_ret run (
          finish-Ends job.fpu (job.node k) (launched.sound k) job.wtime (w.measuring i).initial
            (w.measuring i).sysd u (own job w i) begun ran (kept.safe k)) in
        record {
          forward = forward_at e (omega arith);
          allowed = here_is e;
          safe = safe;
          stands = λ _. (t, done);
          alone = inl mon;
        }
    Move-Moves (gives_up c t e mon run) =
        let k = job.color i in
        let (u, begun, ran) = Stands-place e mon in
        record {
          forward = forward_at e (omega arith);
          allowed = here_is e;
          safe = of_exit run (
              finish-Ends job.fpu (job.node k) (launched.sound k) job.wtime (w.measuring i).initial
                (w.measuring i).sysd u (own job w i) begun ran (kept.safe k));
          stands = λ _. tt;
          alone = inl mon;
        }
    Move-Moves (ends e off) = stays_at e (omega arith) (here_is e) (never off)
