-- ===== src/PowMpi/Process/Energy.antt =====
-- What a process of powmpi measures.
use mathlib.Core.Path.{subst}
use powmon.Base.{
  ℕ, zero, suc, ◌<◌, ◌≡◌, sym, ap, ◌∙◌, some, none, Option, get_elem?, length, is, arith,
}
use powmon.Machine.{Machine, Trace, Cmd, ret}
use powmon.Machine.Rules
use powmon.Machine.Rules.{Runs, returns, exits}
use powmon.Msr.Addresses.{haswell_ep}
use powmon.Msr.Events.{IsSafe}
use powmon.Msr.Laws.{Stopped}
use powmon.Leaders.Visits.{visits}
use powmon.Leaders.Loop.{LoopStep}
use powmon.PowMon.Sensor.Program.{Leaked}
use powmon.EnergyApp.Data.{PerCpuData, SysData}
use powmon.EnergyApp.Energy.{Initialised}
use powmon.EnergyApp.Final.{Finalised, start_of}
use powmon.EnergyApp.Totals.{IsSized, Swept, Measured, swept_both}
use powmon.EnergyApp.Program.{program_cores-Leaked}
use powmon.PowMpi.{nothing, program_msr, final_msr_energy}
use powmon.EnergyApp.Main.{Node}
use powmon.EnergyApp.Main.Reported.{IsSound, found, found-IsSized, positive_not_negative}
use powmon.PowMpi.Detect.{detect_cpu_model, detect_topology}
use powmon.PowMpi.Final.{init_msr_data-Swept, final_msr_energy-Swept}
use powmon.PowMpi.Process.{timed, first_reading, monitor_init}

program_msr-Leaked :
    (m : Machine) (s : SysData) (t : Trace)
    → IsSafe t
    → Runs (λ r t'. (r ≡ 0) × Leaked s.ncore t t') (Stopped m) (program_msr m s t)
unfolding program_msr
program_msr-Leaked m s t safe =
    program_cores-Leaked m nothing s.ncore (is s.cpu_model haswell_ep)
      (λ core t safe. returns (omega arith, safe)) s.ncore 0 t safe

-- The first reading was made, from some point on.
abbrev pub Begun : Node → SysData → SysData → Trace → Type 0
Begun node s s' t' =
    (from : Trace) × Swept (Initialised s.dram_supp) (λ _. tt) (timed node from s) from s' t'

first_reading-Begun :
    (node : Node) (s : SysData) (t : Trace)
    → IsSized s
    → IsSafe t
    → Runs (Begun node s) (Stopped node.machine) (first_reading node s t)
unfolding first_reading
first_reading-Begun node s t size safe =
    Rules.bind (program_msr-Leaked node.machine s t safe) λ _ u (_, leaked).
      Rules.mono
        (init_msr_data-Swept node.machine (timed node u s) u
          (record { sized = size.sized; socket = size.socket }) leaked.1)
        λ s' t' swept. (u, swept)

-- What a process leaves, by its rank on the node.
abbrev pub Ended :
    (node : Node) → IsSound node → ℕ → ℕ → Cmd (Unit {0}) → Trace → Option SysData → Trace → Type 0
Ended node sound zero j program t none t' = ⊥
Ended node sound zero j program t (some s) t' =
    (last : PerCpuData) × (get_elem? s.cpu_data j ≡ some last)
    × (from : Trace) × Measured (λ u v. program u ≡ ret tt v) (found node sound).dram_supp from last
        t'
Ended node sound (suc rank) j program t none t' = program t ≡ ret tt t'
Ended node sound (suc rank) j program t (some s) t' = ⊥

-- What the final reading leaves: a record for every package, and the counts of each visited one.
abbrev pub Ends : (Trace → Trace → Type 0) → (node : Node) → IsSound node → SysData → Trace → Type 0
Ends Ran node sound s w =
    (length s.cpu_data ≡ s.ncpu)
    × ((j : ℕ)
        → 0 < visits j (found node sound).ncpu (found node sound).ncore (found node sound).ncore 0
        → (last : PerCpuData) × (get_elem? s.cpu_data j ≡ some last)
          × (from : Trace) × Measured Ran (found node sound).dram_supp from last w)

-- The final reading, after a program that ran since the first one.
pub final_msr_energy-Ends :
    {Ran : Trace → Trace → Type 0} (node : Node) (sound : IsSound node) (s : SysData) (u v : Trace)
    → Begun node (found node sound) s u
    → Ran u v
    → IsSafe v
    → Runs
        (λ s' w. Ends Ran node sound s' w × IsSafe w)
        (Stopped node.machine)
        (final_msr_energy node.machine s v)
final_msr_energy-Ends node sound s u v (from, a) ran safe =
    let start = found node sound in
    let size = found-IsSized node sound in
    let ncpu : s.ncpu ≡ start.ncpu = ap (λ (x : SysData). x.ncpu) a.frame in
    let ncore : s.ncore ≡ start.ncore = ap (λ (x : SysData). x.ncore) a.frame in
    let sized : length s.cpu_data ≡ s.ncpu = a.loop.size ∙ size.sized ∙ sym ncpu in
    Rules.mono
      (final_msr_energy-Swept node.machine s v
        (record {
          sized = sized;
          socket = λ h. subst (λ k. 0 < k) (sym ncpu) (size.socket (subst (λ k. 0 < k) ncore h));
        })
        safe)
      λ s' w b. (
        (
          b.loop.size ∙ sized ∙ sym (ap (λ (x : SysData). x.ncpu) b.frame),
          λ j busy.
              let (last, is, measured) =
                swept_both j start.ncpu start.ncore start.ncore a.loop ran
                  (subst
                    (λ (x : SysData).
                      LoopStep (Finalised x.dram_supp) start_of x.ncpu x.ncore x.ncore 0 s.cpu_data
                        v s'.cpu_data w)
                    a.frame b.loop)
                  busy in
              (last, is, from, measured),
        ),
        b.loop.went.1,
      )

module _ (node : Node) (sound : IsSound node) (t : Trace) (safe : IsSafe t) where
  pub monitor_init-Begun :
      Runs (Begun node (found node sound)) (Stopped node.machine) (monitor_init node t)
  unfolding monitor_init detect_cpu_model detect_topology
  monitor_init-Begun =
      rw (sound.model_read, positive_not_negative sound.model sound.known, sound.tables_read)
        (first_reading-Begun node (found node sound) t (found-IsSized node sound) safe)
