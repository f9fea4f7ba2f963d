-- ===== src/PowMpi/Report/Finished.antt =====
-- What the last reading and the report of a process leave.
use powmon.Base.{Bool-cases, inl, inr}
use powmon.Machine.{Machine, Trace, Run}
use powmon.Machine.Rules
use powmon.Machine.Rules.{Runs, returns, exits}
use powmon.Msr.Events.{Grows, IsSafe}
use powmon.Msr.Laws.{Stopped}
use powmon.Fpu.{Fpu, Double}
use powmon.EnergyApp.Data.{SysData}
use powmon.EnergyApp.Main.{Node}
use powmon.EnergyApp.Main.Reported.{IsSound, found}
use powmon.PowMpi.Process.Energy.{Begun, Ends, final_msr_energy-Ends}
use powmon.PowMpi.Report.{too_short, finish}
use powmon.PowMpi.Report.Shown.{show_result-branches}

-- Where a process stops, its machine was left with safe writes only.
pub stays-IsSafe :
    {A : Type 0} {Q : A → Trace → Type 0} {m : Machine} {r : Run A}
    → Runs Q (Stopped m) r
    → Runs Q (λ c t. IsSafe t) r
stays-IsSafe (returns q) = returns q
stays-IsSafe (exits e) = exits e.safe

pub finish-Ends :
    (fpu : Fpu) (node : Node) (sound : IsSound node) (wtime : Trace → Double) (initial : Double)
    (s : SysData) (u v : Trace)
    → Begun node (found node sound) s u
    → Grows u v
    → IsSafe v
    → Runs
        (λ r w. Ends Grows node sound r.0 w × IsSafe w)
        (λ c w. IsSafe w)
        (finish fpu node wtime initial s v)
unfolding finish
finish-Ends fpu node sound wtime initial s u v begun ran safe =
    Rules.bind (stays-IsSafe (final_msr_energy-Ends node sound s u v begun ran safe))
      λ s' w (ends, safe').
        let last = record s' { time_us_final = node.now w } in
        let shown = show_result-branches fpu (wtime w) initial last ends.0 in
        elim (Bool-cases (too_short fpu (wtime w) initial last)) [
          | inl short ↦ rw (shown.0 short) (exits safe')
          | inr enough ↦ let (lines, run, _) = shown.1 enough in rw run (returns (ends, safe'))
        ]
