-- ===== src/PowMon/Sensor/Sampling.antt =====
-- `read_msr_data` and `read_msr_data_first` as a whole.
use mathlib.Core.Path.{subst, sym}
use powmon.Base.{ℕ, ◌/◌, ◌≤◌, ◌<◌, ◌≡◌, ◌≢◌, arith, get_elem?}
use powmon.Machine.{Machine, Trace, ret}
use powmon.Machine.Rules
use powmon.Machine.Rules.{Runs}
use powmon.Msr.Events.{open_fds, IsSafe}
use powmon.Msr.Laws.{Stopped, Responsive, Runs-returns}
use powmon.PowMon.Data.{SysData}
use powmon.Leaders.{package_of}
use powmon.PowMon.Sensor.{sweep, read_msr_data}
use powmon.PowMon.Sensor.Sweep.{IsReady}
use powmon.PowMon.Sensor.Rounds.{sweep-Runs}
use powmon.PowMon.Sensor.Step.{Moved, Overwritten, SweepStep}
use powmon.Leaders.Visits.{visits_single, visits_rest}

-- the whole loop, in the terms of `SweepStep`
read_msr_data-SweepStep :
    (m : Machine) (ncpu ncore : ℕ) (s : SysData) (t : Trace)
    → IsReady ncpu ncore s
    → IsSafe t
    → Runs (SweepStep ncpu ncore ncore 0 s t) (Stopped m) (read_msr_data m s t)
unfolding read_msr_data
read_msr_data-SweepStep m ncpu ncore s t ready safe =
    subst (λ n. Runs (SweepStep ncpu ncore ncore 0 s t) (Stopped m) (sweep m n 0 0 s t))
      (sym ready.ncore_is)
      (sweep-Runs m ncpu ncore ncore 0 0 s t ready (omega arith) (omega arith) safe)

-- What a sampling leaves of the data and of the machine.
pub record Sampling (ncpu ncore : ℕ) (s : SysData) (t : Trace) (s' : SysData) (t' : Trace)
    : Type 0 where
  pub ready : IsReady ncpu ncore s'
  pub cores : (i : ℕ) → i < ncore → Moved i s s'
  pub fds : open_fds t' ≡ open_fds t
  pub safe : IsSafe t'

Sampling-of :
    {ncpu ncore : ℕ} {s s' : SysData} {t t' : Trace}
    → SweepStep ncpu ncore ncore 0 s t s' t'
    → Sampling ncpu ncore s t s' t'
Sampling-of p = record {
  ready = p.ready;
  cores = λ i h. p.moved i (omega arith) (omega arith);
  fds = p.fds;
  safe = p.safe;
}

module _ (m : Machine) (ncpu ncore : ℕ) (s : SysData) (t : Trace) where
  -- For data whose arrays fit the topology and a trace with only safe writes, `read_msr_data` never
  -- indexes out of range. If it returns, every core has each counter moved to its `_last` field, the
  -- arrays still fit, every descriptor opened on the way is closed again, and each write set only
  -- the enable bits of a control register over the value just read. If it exits, a register access
  -- was refused and the status is the one of that refusal.
  pub read_msr_data-Sampling :
      IsReady ncpu ncore s
      → IsSafe t
      → Runs (Sampling ncpu ncore s t) (Stopped m) (read_msr_data m s t)
  read_msr_data-Sampling ready safe =
      Rules.mono (read_msr_data-SweepStep m ncpu ncore s t ready safe) λ _ _. Sampling-of

  -- On a machine that refuses no access, `read_msr_data` returns, with the data so sampled.
  pub read_msr_data-returns :
      Responsive m
      → IsReady ncpu ncore s
      → IsSafe t
      → (s' : SysData) × (t' : Trace) × (read_msr_data m s t ≡ ret s' t')
        × Sampling ncpu ncore s t s' t'
  read_msr_data-returns live ready safe = Runs-returns live (read_msr_data-Sampling ready safe)

-- With one socket and two cores or more, what a `read_msr_data` that returns leaves in
-- `pow_pkg_last` of the package was read during that same call.
pub read_msr_data-single :
    (m : Machine) (ncore : ℕ) (s : SysData) (t : Trace)
    → IsReady 1 ncore s
    → IsSafe t
    → 2 ≤ ncore
    → Runs (Overwritten 0 t) (Stopped m) (read_msr_data m s t)
read_msr_data-single m ncore s t ready safe h =
    Rules.mono (read_msr_data-SweepStep m 1 ncore s t ready safe)
      λ _ _ p. p.twice 0 (visits_single ncore h)

-- A package other than 0 and the one of the middle core is never sampled: a `read_msr_data` that
-- returns leaves its record as it was.
pub read_msr_data-skips :
    (m : Machine) (ncpu ncore j : ℕ) (s : SysData) (t : Trace)
    → IsReady ncpu ncore s
    → IsSafe t
    → 2 ≤ ncore
    → 0 < j
    → j ≢ package_of (ncore / 2) ncpu ncore
    → Runs
        (λ s' _. get_elem? s'.cpu_data j ≡ get_elem? s.cpu_data j)
        (Stopped m)
        (read_msr_data m s t)
read_msr_data-skips m ncpu ncore j s t ready safe h pos ne =
    Rules.mono (read_msr_data-SweepStep m ncpu ncore s t ready safe)
      λ _ _ p. p.idle j (visits_rest j ncpu ncore h pos ne)
