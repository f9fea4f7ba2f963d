-- ===== src/PowMpi/World.antt =====
-- All the processes of an MPI program between `MPI_Init` and `MPI_Finalize` of powmpi/powmpi.c, in any
-- order of their steps, with the two barriers of `poli_sync`. A barrier lets a process go on once every
-- process has called it, as MPI promises of `MPI_Barrier`. The machines are one for each colour.
pub mod Moves
pub mod Kept
pub mod Measured
pub mod Progress
use native.Mathlib.Decide.{ℕ_discrete}
use mathlib.Core.Logic.{ite}
use powmon.Base.{ℕ, ◌≤◌, ◌<◌, ◌≡◌, Bool, true, false, ◌==◌, if◌then◌else◌, List, [], ℤ}
use powmon.Machine.{Trace, Run, ret, exit}
use powmon.Msr.Events.{Grows, IsSafe}
use powmon.Fpu.{Fpu, Double}
use powmon.EnergyApp.Data.{SysData}
use powmon.EnergyApp.Main.{Node}
use powmon.EnergyApp.Report.{PackageLine}
use powmon.PowMpi.Election.{imonitor, same_color}
use powmon.PowMpi.Process.{monitor_init}
use powmon.PowMpi.Report.{TimesLine, finish}

-- What the processes run on: their number and colours, the nodes by colour, and what MPI answers.
pub record Job : Type 0 where
  pub world_size : ℕ
  pub color : ℕ → ℤ
  pub split : (ℕ → ℤ) → ℕ → ℕ
  pub node : ℤ → Node
  pub fpu : Fpu
  pub wtime : Trace → Double

-- Where a process is. One that `exit` ended has passed so many barriers.
pub data Place : Type 0 where
  initing : Place
  first_barrier : Place
  running : Place
  last_barrier : Place
  finishing : Place
  ended : Place
  stopped : (barriers status : ℕ) → Place

-- the barriers that a process has called, and those that it has left
abbrev pub called : Place → ℕ
called initing = 0
called first_barrier = 1
called running = 1
called last_barrier = 2
called finishing = 2
called ended = 2
called (stopped n c) = n

abbrev pub passed : Place → ℕ
passed initing = 0
passed first_barrier = 0
passed running = 1
passed last_barrier = 1
passed finishing = 2
passed ended = 2
passed (stopped n c) = n

-- `sysd_` of a process, with the time of MPI at its start
pub record Measuring : Type 0 where
  pub sysd : SysData
  pub initial : Double

pub record World : Type 0 where
  pub place : ℕ → Place
  pub measuring : ℕ → Measuring
  -- what was done on the machine of each colour
  pub trace : ℤ → Trace

abbrev pub update : {A : Type 0} → (ℕ → A) → ℕ → A → ℕ → A
update f i a j = ite (ℕ_discrete i j) a (f j)

abbrev pub update_color : (ℤ → Trace) → ℤ → Trace → ℤ → Trace
update_color f c t d = if same_color c d then t else f d

module _ (job : Job) where
  abbrev pub is_monitor : ℕ → Bool
  is_monitor i = imonitor (job.split job.color i) == 1

  abbrev pub own : World → ℕ → Trace
  own w i = w.trace (job.color i)

  abbrev pub AllCalled : World → ℕ → Type 0
  AllCalled w n = (p : ℕ) → p < job.world_size → n ≤ called (w.place p)

  -- What process `i` does: its new place and data, and the trace of its machine.
  pub data Move (w : World) (i : ℕ) : Place → Measuring → Trace → Type 0 where
    -- `poli_init` up to its barrier
    begins :
        (s : SysData) (initial : Double) (t : Trace)
        → w.place i ≡ initing
        → is_monitor i ≡ true
        → monitor_init (job.node (job.color i)) (own w i) ≡ ret s t
        → Move w i first_barrier (record { sysd = s; initial = initial }) t
    fails :
        (c : ℕ) (t : Trace)
        → w.place i ≡ initing
        → is_monitor i ≡ true
        → monitor_init (job.node (job.color i)) (own w i) ≡ exit c t
        → Move w i (stopped 0 c) (w.measuring i) t
    joins :
        w.place i ≡ initing
        → is_monitor i ≡ false
        → Move w i first_barrier (w.measuring i) (own w i)
    starts : w.place i ≡ first_barrier → AllCalled w 1 → Move w i running (w.measuring i) (own w i)
    -- the program, which may touch its machine but writes only what is safe
    works :
        (t : Trace)
        → w.place i ≡ running
        → Grows (own w i) t
        → IsSafe t
        → Move w i running (w.measuring i) t
    exits : (c : ℕ) → w.place i ≡ running → Move w i (stopped 1 c) (w.measuring i) (own w i)
    -- `poli_finalize`
    finalizes : w.place i ≡ running → Move w i last_barrier (w.measuring i) (own w i)
    leaves : w.place i ≡ last_barrier → AllCalled w 2 → Move w i finishing (w.measuring i) (own w i)
    reports :
        (s : SysData) (times : TimesLine) (shown : List PackageLine) (t : Trace)
        → w.place i ≡ finishing
        → is_monitor i ≡ true
        → finish job.fpu
            (job.node (job.color i))
            job.wtime
            (w.measuring i).initial
            (w.measuring i).sysd
            (own w i)
          ≡ ret (s, times, shown) t
        → Move w i ended (record { sysd = s; initial = (w.measuring i).initial }) t
    gives_up :
        (c : ℕ) (t : Trace)
        → w.place i ≡ finishing
        → is_monitor i ≡ true
        → finish job.fpu
            (job.node (job.color i))
            job.wtime
            (w.measuring i).initial
            (w.measuring i).sysd
            (own w i)
          ≡ exit c t
        → Move w i (stopped 2 c) (w.measuring i) t
    ends : w.place i ≡ finishing → is_monitor i ≡ false → Move w i ended (w.measuring i) (own w i)

  abbrev pub moved : World → ℕ → Place → Measuring → Trace → World
  moved w i p d t = record {
    place = update w.place i p;
    measuring = update w.measuring i d;
    trace = update_color w.trace (job.color i) t;
  }

  pub data Step (w : World) : World → Type 0 where
    pick :
        (i : ℕ) {p : Place} {d : Measuring} {t : Trace}
        → i < job.world_size
        → Move w i p d t
        → Step w (moved w i p d t)

  -- every process at its start, with nothing done
  abbrev pub started : (ℕ → Measuring) → World
  started d = record { place = λ i. initing; measuring = d; trace = λ c. [] }

  pub data Reach (d : ℕ → Measuring) : World → Type 0 where
    here : Reach d (started d)
    next : {w v : World} → Reach d w → Step w v → Reach d v
