-- ===== src/PowMpi/World/Progress.antt =====
-- The steps that the processes of powmpi can make until all have ended.
use mathlib.Core.Path.{subst}
use native.Mathlib.Decide.{dec_lt}
use powmon.Base.{ℕ, zero, suc, ◌≤◌, ◌<◌, ◌≡◌, refl, ◌⊎◌, ◌≢◌, inl, inr, Bool-cases, arith}
use powmon.Machine.{Trace, Run, ret, exit}
use powmon.Machine.Rules.{Runs, returns, exits}
use powmon.PowMpi.Process.Energy.{monitor_init-Begun}
use powmon.PowMpi.Report.Finished.{finish-Ends}
use powmon.PowMpi.World.{
  Job, Place, initing, first_barrier, running, last_barrier, finishing, ended, stopped, called,
  Measuring, World, is_monitor, own, AllCalled, Move, begins, fails, joins, starts, finalizes,
  leaves, reports, gives_up, ends, Step, pick, Reach,
}
use powmon.PowMpi.World.Moves.{IsLaunched, Stands}
use powmon.PowMpi.World.Kept.{Reach-Kept}

-- all numbers below `n` have the first, or one has the second
all_or :
    (n : ℕ) (P Q : ℕ → Type 0)
    → ((p : ℕ) → p < n → P p ⊎ Q p)
    → ((p : ℕ) → p < n → P p) ⊎ ((p : ℕ) × (p < n) × Q p)
all_or zero P Q h = inl (λ p lt. absurd (omega arith))
all_or (suc n) P Q h = elim (all_or n P Q (λ p lt. h p (omega arith))) [
  | inr (p, lt, q) ↦ inr (p, omega arith, q)
  | inl all ↦ elim (h n (omega arith)) [
    | inr q ↦ inr (n, omega arith, q)
    | inl last ↦ inl (λ p lt. elim (dec_lt p n) [
      | yes below ↦ all p below
      | no top ↦ subst P {x = n} {y = p} (omega arith) last
    ])
  ]
]

ended_run :
    {A : Type 0} {Q : A → Trace → Type 0} {E : ℕ → Trace → Type 0} {r : Run A}
    → Runs Q E r
    → ((a : A) × (t : Trace) × (r ≡ ret a t)) ⊎ ((c : ℕ) × (t : Trace) × (r ≡ exit c t))
ended_run (returns q) = inl (_, _, refl)
ended_run (exits e) = inr (_, _, refl)

module _ (job : Job) (launched : IsLaunched job) {d : ℕ → Measuring} {w : World}
    (r : Reach job d w) where
  Steps : Type 0
  Steps = (v : World) × Step job w v

  move :
      (i : ℕ) {p : Place} {e : Measuring} {t : Trace}
      → i < job.world_size
      → Move job w i p e t
      → Steps
  unfolding Steps
  move i lt m = (_, pick i lt m)

  from_initing : (i : ℕ) → i < job.world_size → w.place i ≡ initing → Steps
  from_initing i lt e = elim (Bool-cases (is_monitor job i)) [
    | inr off ↦ move i lt (joins e off)
    | inl on ↦
        let c = job.color i in
        let kept = Reach-Kept job launched r in
        elim (ended_run
          (monitor_init-Begun (job.node c) (launched.sound c) (own job w i) (kept.safe c))) [
            | inl (s, t, run) ↦ move i lt (begins s 0 t e on run)
            | inr (k, t, run) ↦ move i lt (fails k t e on run)
          ]
  ]

  from_finishing : (i : ℕ) → i < job.world_size → w.place i ≡ finishing → Steps
  from_finishing i lt e = elim (Bool-cases (is_monitor job i)) [
    | inr off ↦ move i lt (ends e off)
    | inl on ↦
        let c = job.color i in
        let kept = Reach-Kept job launched r in
        let (u, begun, ran) =
          subst (λ p. Stands job launched i p (w.measuring i) (own job w i)) e
            (kept.stands i lt on) in
        elim (ended_run (
          finish-Ends job.fpu (job.node c) (launched.sound c) job.wtime (w.measuring i).initial
            (w.measuring i).sysd u (own job w i) begun ran (kept.safe c))) [
              | inl ((s, times, shown), t, run) ↦ move i lt (reports s times shown t e on run)
              | inr (k, t, run) ↦ move i lt (gives_up k t e on run)
            ]
  ]

  -- A process that has not stopped has called the first barrier, or can move.
  first_call :
      (i : ℕ) (p : Place)
      → i < job.world_size
      → w.place i ≡ p
      → ((n c : ℕ) → p ≢ stopped n c)
      → (1 ≤ called p) ⊎ Steps
  first_call i initing lt e alive = inr (from_initing i lt e)
  first_call i first_barrier lt e alive = inl (omega arith)
  first_call i running lt e alive = inl (omega arith)
  first_call i last_barrier lt e alive = inl (omega arith)
  first_call i finishing lt e alive = inl (omega arith)
  first_call i ended lt e alive = inl (omega arith)
  first_call i (stopped n c) lt e alive = absurd (alive n c refl)

  last_call :
      (i : ℕ) (p : Place)
      → i < job.world_size
      → w.place i ≡ p
      → ((n c : ℕ) → p ≢ stopped n c)
      → AllCalled job w 1
      → (2 ≤ called p) ⊎ Steps
  last_call i initing lt e alive all = inr (from_initing i lt e)
  last_call i first_barrier lt e alive all = inr (move i lt (starts e all))
  last_call i running lt e alive all = inr (move i lt (finalizes e))
  last_call i last_barrier lt e alive all = inl (omega arith)
  last_call i finishing lt e alive all = inl (omega arith)
  last_call i ended lt e alive all = inl (omega arith)
  last_call i (stopped n c) lt e alive all = absurd (alive n c refl)

  end_call :
      (i : ℕ) (p : Place)
      → i < job.world_size
      → w.place i ≡ p
      → ((n c : ℕ) → p ≢ stopped n c)
      → AllCalled job w 1
      → AllCalled job w 2
      → (p ≡ ended) ⊎ Steps
  end_call i initing lt e alive all both = inr (from_initing i lt e)
  end_call i first_barrier lt e alive all both = inr (move i lt (starts e all))
  end_call i running lt e alive all both = inr (move i lt (finalizes e))
  end_call i last_barrier lt e alive all both = inr (move i lt (leaves e both))
  end_call i finishing lt e alive all both = inr (from_finishing i lt e)
  end_call i ended lt e alive all both = inl refl
  end_call i (stopped n c) lt e alive all both = absurd (alive n c refl)

  -- As long as no process has stopped, the processes are not stuck: all have ended, or one of them can
  -- make a step.
  pub Reach-goes_on :
      ((p n c : ℕ) → p < job.world_size → w.place p ≢ stopped n c)
      → ((p : ℕ) → p < job.world_size → w.place p ≡ ended) ⊎ ((v : World) × Step job w v)
  unfolding Steps
  Reach-goes_on alive =
      let n = job.world_size in
      let lives = λ (i : ℕ) (lt : i < n) (b c : ℕ). alive i b c lt in
      elim (all_or n (λ i. 1 ≤ called (w.place i)) (λ _. Steps)
        (λ i lt. first_call i (w.place i) lt refl (lives i lt))) [
          | inr (_, _, step) ↦ inr step
          | inl all ↦
              elim (all_or n (λ i. 2 ≤ called (w.place i)) (λ _. Steps)
                (λ i lt. last_call i (w.place i) lt refl (lives i lt) all)) [
                  | inr (_, _, step) ↦ inr step
                  | inl both ↦
                      elim (all_or n (λ i. w.place i ≡ ended) (λ _. Steps)
                        (λ i lt. end_call i (w.place i) lt refl (lives i lt) all both)) [
                          | inr (_, _, step) ↦ inr step
                          | inl done ↦ inl done
                        ]
                ]
        ]
