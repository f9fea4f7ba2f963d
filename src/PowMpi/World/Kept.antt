-- ===== src/PowMpi/World/Kept.antt =====
-- What every state of the processes has, in whatever order they run.
use mathlib.Core.Path.{subst}
use native.Mathlib.Decide.{ℕ_discrete}
use powmon.Base.{ℕ, ◌≤◌, ◌<◌, ◌≡◌, ◌≢◌, refl, sym, inl, inr, true, Bool-cases, arith}
use mathlib.Core.Logic.{if_pos, if_neg}
use powmon.Machine.{Trace}
use powmon.Msr.Events.{Grows}
use powmon.PowMpi.Election.{same_color}
use powmon.PowMpi.Election.Monitors.{same_color-eq, same_color_refl}
use powmon.PowMpi.World.{
  Job, Place, called, passed, Measuring, World, update, update_color, is_monitor, moved, pick,
  started, Reach, here, next,
}
use powmon.PowMpi.World.Moves.{
  IsLaunched, Stands, Kept, Stands-Grows, one_monitor, called_ge, Moves, Move-Moves,
}

module _ (job : Job) (launched : IsLaunched job) where
  module _ (w : World) (kept : Kept job launched w) (i : ℕ) (lt : i < job.world_size) where
    -- One process moved: what holds of all after it.
    Moves-Kept :
        {p : Place} {d : Measuring} {t : Trace}
        → Moves job launched w i p d t
        → Kept job launched (moved job w i p d t)
    Moves-Kept {p} {d} {t} m = record {
      safe = λ c. elim (Bool-cases (same_color (job.color i) c)) [
        | inl e ↦ rw e m.safe
        | inr e ↦ rw e (kept.safe c)
      ];
      gates = gates';
      stands = stands';
    }
      where
        gates' :
            (a b : ℕ)
            → a < job.world_size
            → b < job.world_size
            → passed (update w.place i p a) ≤ called (update w.place i p b)
        gates' a b ha hb = elim (ℕ_discrete i a) [
          | yes ea ↦ elim (ℕ_discrete i b) [
            | yes eb ↦ rw (if_pos _ ea, if_pos _ eb) (called_ge p)
            | no eb ↦ rw (if_pos _ ea, if_neg _ eb) (m.allowed b hb)
          ]
          | no ea ↦ elim (ℕ_discrete i b) [
            | yes eb ↦
                rw (if_neg _ ea, if_pos _ eb) (omega (arith, kept.gates a i ha lt, m.forward))
            | no eb ↦ rw (if_neg _ ea, if_neg _ eb) (kept.gates a b ha hb)
          ]
        ]

        At : ℕ → Type 0
        At a =
            Stands job launched a (update w.place i p a) (update w.measuring i d a)
              (update_color w.trace (job.color i) t (job.color a))

        at_own : is_monitor job i ≡ true → At i
        at_own mon =
            rw
              (
                if_pos (ℕ_discrete i i) refl,
                if_pos (ℕ_discrete i i) refl,
                same_color_refl (job.color i),
              )
              (m.stands mon)

        at_other : (a : ℕ) → i ≢ a → a < job.world_size → is_monitor job a ≡ true → At a
        at_other a ne h mon = elim (Bool-cases (same_color (job.color i) (job.color a))) [
          | inr e ↦
              rw (if_neg (ℕ_discrete i a) ne, if_neg (ℕ_discrete i a) ne, e) (kept.stands a h mon)
          | inl e ↦
              let same = same_color-eq (job.color i) (job.color a) e in
              elim m.alone [
                | inl on ↦ absurd (ne (one_monitor job launched i a same on mon))
                | inr g ↦
                    rw (if_neg (ℕ_discrete i a) ne, if_neg (ℕ_discrete i a) ne, e)
                      (Stands-Grows job launched a (w.place a) (w.measuring a)
                        (subst (λ c. Grows (w.trace c) t) same g) (kept.stands a h mon))
              ]
        ]

        stands' : (a : ℕ) → a < job.world_size → is_monitor job a ≡ true → At a
        stands' a h mon = elim (ℕ_discrete i a) [
          | yes e ↦ subst At e (at_own (subst (λ k. is_monitor job k ≡ true) (sym e) mon))
          | no ne ↦ at_other a ne h mon
        ]

  started-Kept : (d : ℕ → Measuring) → Kept job launched (started job d)
  started-Kept d = record {
    safe = λ c. tt;
    gates = λ p q hp hq. omega arith;
    stands = λ p h mon. tt;
  }

  -- In whatever order the processes run: no process has left more barriers than any other has called,
  -- every write on every machine was safe, and each process that monitors has, after its first
  -- barrier, the first reading of its machine and, once it ended, the counts between two readings.
  pub Reach-Kept : {d : ℕ → Measuring} {w : World} → Reach job d w → Kept job launched w
  Reach-Kept {d} here = started-Kept d
  Reach-Kept (next r (pick i lt move)) =
      let kept = Reach-Kept r in Moves-Kept _ kept i lt (Move-Moves job launched _ kept i lt move)
