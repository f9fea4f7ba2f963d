-- ===== src/PowMpi/World/Measured.antt =====
-- What the processes of powmpi measure, in whatever order they run.
use mathlib.Core.Path.{subst}
use powmon.Base.{ℕ, ◌≤◌, ◌<◌, ◌≡◌, ap, ◌⊎◌, inl, inr, true, arith}
use powmon.PowMpi.World.{
  Job, Place, initing, first_barrier, running, last_barrier, finishing, ended, stopped, called,
  passed, Measuring, World, is_monitor, own, Reach,
}
use powmon.PowMpi.World.Moves.{IsLaunched, Watching, Stands}
use powmon.PowMpi.World.Kept.{Reach-Kept}

-- the places between the first reading and the last one
abbrev pub IsBetween : Place → Type 0
IsBetween initing = ⊥
IsBetween first_barrier = Unit
IsBetween running = Unit
IsBetween last_barrier = Unit
IsBetween finishing = ⊥
IsBetween ended = ⊥
IsBetween (stopped n c) = ⊥

module _ (job : Job) (launched : IsLaunched job) {d : ℕ → Measuring} {w : World}
    (r : Reach job d w) where
  between :
      (m : ℕ) (p : Place)
      → 1 ≤ called p
      → passed p ≤ 1
      → Stands job launched m p (w.measuring m) (own job w m)
      → ((c : ℕ) × (p ≡ stopped 1 c))
        ⊎ (IsBetween p × Watching job launched m (w.measuring m) (own job w m))
  between m initing up down h = absurd (omega arith)
  between m first_barrier up down h = inr (tt, h)
  between m running up down h = inr (tt, h)
  between m last_barrier up down h = inr (tt, h)
  between m finishing up down h = absurd (omega arith)
  between m ended up down h = absurd (omega arith)
  between m (stopped n c) up down h = inl (c, ap (λ k. stopped k c) {x = n} {y = 1} (omega arith))

  -- While the program runs in any process, each process that monitors has made its first reading and
  -- not yet its last one, unless the program itself ended it. So whatever the program does on a
  -- machine in any of its processes lies between the two readings of that machine.
  pub Reach-IsBetween :
      (i m : ℕ)
      → i < job.world_size
      → m < job.world_size
      → w.place i ≡ running
      → is_monitor job m ≡ true
      → ((c : ℕ) × (w.place m ≡ stopped 1 c))
        ⊎ (IsBetween (w.place m) × Watching job launched m (w.measuring m) (own job w m))
  Reach-IsBetween i m hi hm e mon =
      let kept = Reach-Kept job launched r in
      between m (w.place m) (subst (λ p. passed p ≤ called (w.place m)) e (kept.gates i m hi hm))
        (subst (λ p. passed (w.place m) ≤ called p) e (kept.gates m i hm hi)) (kept.stands m hm mon)

  -- If a process stops in its `MPI_Init`, because its detection fails or an access is refused, no
  -- process ever leaves the barrier of `MPI_Init`.
  pub Reach-blocked :
      (p c i : ℕ)
      → p < job.world_size
      → i < job.world_size
      → w.place p ≡ stopped 0 c
      → passed (w.place i) ≡ 0
  Reach-blocked p c i hp hi e =
      let kept = Reach-Kept job launched r in
      omega (arith, subst (λ q. passed (w.place i) ≤ called q) e (kept.gates i p hi hp))
