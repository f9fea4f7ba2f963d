-- ===== src/PowMpi/Report.antt =====
-- `show_result` of powmpi/powmpi.c, and what the process that monitors does in `poli_finalize` after
-- the barrier. The clock of MPI is a parameter.
pub mod Shown
pub mod Finished
use powmon.Base.{ℕ, Bool, true, ◌||◌, ltb, if◌then◌else◌, List, ℤ, pos, negsuc}
use powmon.Clib.{Outcome, ok, quit, ◌>>=◌}
use powmon.Machine.{Trace, Cmd, pure, ◌>>=◌ as and_then}
use powmon.ForEach.{for_each}
use powmon.Fpu.{Fpu, Double}
use powmon.PowMon.Start.{command}
use powmon.EnergyApp.Data.{SysData}
use powmon.EnergyApp.Main.{Node}
use powmon.EnergyApp.Report.{PackageLine, minus, show_package}
use powmon.PowMpi.{final_msr_energy}

-- The line of the times, with the values under the names that it prints.
pub record TimesLine : Type 0 where
  pub begin : ℤ
  pub end : ℤ
  pub total : ℤ

abbrev pub under : ℤ → ℕ → Bool
under (pos a) n = ltb a n
under (negsuc a) n = true

module _ (fpu : Fpu) where
  -- the tests of the time since the start by the clock of MPI, and of the microseconds
  unfoldable pub too_short : Double → Double → SysData → Bool
  too_short wtime initial s =
      fpu.less (fpu.sub wtime initial) (fpu.decimal 2 3)
      || under (minus s.time_us_final s.time_us_init) 2000

  abbrev times_line : SysData → TimesLine
  times_line s = record {
    begin = s.time_us_final;
    end = s.time_us_init;
    total = minus s.time_us_final s.time_us_init;
  }

  -- `wtime` is what `MPI_Wtime` answers for the test. The line of the times comes first; a run that was
  -- too short then ends the process.
  unfoldable pub show_result : Double → Double → SysData → TimesLine × Outcome (List PackageLine)
  unfolding too_short for_each
  show_result wtime initial s = (
    times_line s,
    if too_short wtime initial s
        then quit 1
        else (do (_, _, shown) ← for_each (show_package fpu s) s.ncpu 0 tt s.cpu_data; ok shown),
  )

-- The last reading and the report, with the time at which they are made.
unfoldable pub finish :
    Fpu → Node → (Trace → Double) → Double → SysData → Cmd (SysData × TimesLine × List PackageLine)
finish fpu node wtime initial s t =
    and_then (final_msr_energy node.machine s)
      (λ s' u.
        let last = record s' { time_us_final = node.now u } in
        let report = show_result fpu (wtime u) initial last in
        and_then (command report.1) (λ shown. pure (last, report.0, shown)) u)
      t
