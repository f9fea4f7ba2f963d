-- ===== src/PowMpi/Report/Shown.antt =====
-- What `show_result` of powmpi prints, and when it ends the process.
use powmon.Base.{ℕ, ◌<◌, ◌≡◌, refl, true, false, List, length, get_elem?, some, arith}
use powmon.Clib.{ok, quit}
use powmon.ForEach.Rounds.{for_each-Each}
use powmon.Fpu.{Fpu, Double}
use powmon.EnergyApp.Data.{PerCpuData, SysData}
use powmon.EnergyApp.Report.{PackageLine, package_line, show_package, minus}
use powmon.PowMpi.Report.{TimesLine, too_short, show_result}

-- The lines of a run that was long enough.
pub record Shown (fpu : Fpu) (s : SysData) (times : TimesLine) (shown : List PackageLine)
    : Type 0 where
  pub swapped : (times.begin ≡ s.time_us_final) × (times.end ≡ s.time_us_init)
  pub total : times.total ≡ minus s.time_us_final s.time_us_init
  pub count : length shown ≡ s.ncpu
  pub each :
      (j : ℕ)
      → j < s.ncpu
      → (c : PerCpuData) × (get_elem? s.cpu_data j ≡ some c)
        × (get_elem? shown j ≡ some (package_line fpu s c))

-- the two branches of the test
pub show_result-branches :
    (fpu : Fpu) (wtime initial : Double) (s : SysData)
    → length s.cpu_data ≡ s.ncpu
    → (too_short fpu wtime initial s ≡ true → (show_result fpu wtime initial s).1 ≡ quit 1)
      × (too_short fpu wtime initial s ≡ false
          → (shown : List PackageLine) × ((show_result fpu wtime initial s).1 ≡ ok shown)
            × Shown fpu s (show_result fpu wtime initial s).0 shown)
unfolding show_result
show_result-branches fpu wtime initial s size = (
  λ short. rw short refl,
  λ enough.
      let (_, ys, shown, run, done) =
        for_each-Each (show_package fpu s) s.ncpu 0 tt s.cpu_data (omega (arith, size)) in
      (
        shown,
        rw enough (rw run refl),
        record {
          swapped = (refl, refl);
          total = refl;
          count = done.count;
          each = λ j lt. let p = done.each j j (omega arith) lt in (p.old, p.was, p.sent);
        },
      ),
)
