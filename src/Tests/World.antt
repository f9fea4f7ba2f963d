-- ===== src/Tests/World.antt =====
-- powmpi with two processes on one node, and on one whose registers cannot be opened.
use powmon.Base.{
  ℕ, zero, suc, ◌<◌, ◌≡◌, ◌≢◌, refl, ◌⊎◌, true, false, List, [], pos, length, ◌*◌, arith,
}
use powmon.Machine.{Trace, ret, exit, failed}
use powmon.Clib.{scan_after}
use powmon.EnergyApp.Data.{SysData}
use powmon.EnergyApp.Main.{Node}
use powmon.EnergyApp.Main.Reported.{IsSound, found}
use powmon.PowMpi.Process.{monitor_init}
use powmon.PowMpi.Report.{TimesLine, finish, show_result}
use native.Mathlib.Decide.{ℕ_discrete}
use powmon.Msr.{open_msr, read_msr, write_msr}
use powmon.Leaders.{for_leaders}
use powmon.PowMon.Sensor.{enable_uclk}
use powmon.EnergyApp.{init_package, read_dram}
use powmon.EnergyApp.Report.{PackageLine}
use powmon.PowMpi.{program_msr, init_msr_data, final_msr_energy, final_package}
use powmon.PowMpi.Detect.{detect_cpu_model, detect_topology}
use powmon.PowMpi.Report.Shown.{Shown}
use powmon.PowMpi.World.{
  Job, World, running, ended, stopped, passed, Measuring, is_monitor, own, begins, fails, joins,
  starts, finalizes, leaves, reports, Step, pick, Reach, here, next,
}
use powmon.PowMpi.World.Moves.{IsLaunched, Watching}
use powmon.PowMpi.World.Measured.{IsBetween, Reach-IsBetween, Reach-blocked}
use powmon.PowMpi.World.Progress.{Reach-goes_on}
use powmon.Tests.{whole}
use powmon.Tests.Program.{steady}
use powmon.Tests.Energy.{node, sound, split}

abbrev slow : Node
slow = record node { machine = steady; now = λ t. pos (1000 * length t) }

abbrev slow-IsSound : IsSound slow
slow-IsSound = record {
  model = sound.model;
  model_read = sound.model_read;
  known = sound.known;
  tables = sound.tables;
  tables_read = sound.tables_read;
  allocates = sound.allocates;
}

abbrev job : Job
job = record {
  world_size = 2;
  color = λ rank. pos 46;
  split = split;
  node = λ c. slow;
  fpu = whole;
  wtime = λ t. length t;
}

abbrev job-IsLaunched : IsLaunched job
job-IsLaunched = record { splits = λ cs rank. refl; sound = λ c. slow-IsSound }

abbrev unset : ℕ → Measuring
unset i = record { sysd = found slow slow-IsSound; initial = 0 }

abbrev unset_data : SysData
unset_data = found slow slow-IsSound

first-monitors : is_monitor job 0 ≡ true
first-monitors = refl

second-not : is_monitor job 1 ≡ false
second-not = refl

first-begins : (s : SysData) × (t : Trace) × (monitor_init slow [] ≡ ret s t)
unfolding monitor_init detect_cpu_model scan_after detect_topology program_msr open_msr enable_uclk
    read_msr write_msr init_msr_data for_leaders init_package
first-begins = (_, _, refl)

both : (P : ℕ → Type 0) → P 0 → P 1 → (p : ℕ) → p < 2 → P p
both P a b zero lt = a
both P a b (suc zero) lt = b
both P a b (suc (suc p)) lt = absurd (omega arith)

-- Both processes are past the barrier of `MPI_Init`.
programs : (w : World) × Reach job unset w
unfolding ℕ_discrete
programs =
    let r₁ = next here (
      pick 0 (omega arith)
        (begins first-begins.0 0 first-begins.1 refl first-monitors first-begins.2)) in
    let r₂ = next r₁ (pick 1 (omega arith) (joins refl second-not)) in
    let r₃ = next r₂ (pick 0 (omega arith) (starts refl (both _ (omega arith) (omega arith)))) in
    (_, next r₃ (pick 1 (omega arith) (starts refl (both _ (omega arith) (omega arith)))))

second-runs : programs.0.place 1 ≡ running
unfolding programs ℕ_discrete
second-runs = refl

Reach-IsBetween_example :
    ((c : ℕ) × (programs.0.place 0 ≡ stopped 1 c))
    ⊎ (IsBetween (programs.0.place 0)
        × Watching job job-IsLaunched 0 (programs.0.measuring 0) (own job programs.0 0))
Reach-IsBetween_example =
    Reach-IsBetween job job-IsLaunched programs.1 1 0 (omega arith) (omega arith) second-runs
      first-monitors

alive : (p n c : ℕ) → p < 2 → programs.0.place p ≢ stopped n c
unfolding programs ℕ_discrete
alive p n c lt = both (λ q. programs.0.place q ≢ stopped n c) (λ e. cc) (λ e. cc) p lt

Reach-goes_on_example :
    ((p : ℕ) → p < 2 → programs.0.place p ≡ ended) ⊎ ((v : World) × Step job programs.0 v)
Reach-goes_on_example = Reach-goes_on job job-IsLaunched programs.1 alive

last-reading :
    (s : SysData) × (times : TimesLine) × (shown : List PackageLine) × (t : Trace) × (finish whole
        slow job.wtime 0 first-begins.0 first-begins.1
      ≡ ret (s, times, shown) t)
unfolding finish first-begins final_msr_energy final_package read_dram show_result
last-reading = (_, _, _, _, refl)

-- Both processes called the barrier of `MPI_Finalize`, and the first has reported.
reported : (w : World) × Reach job unset w
unfolding programs ℕ_discrete
reported =
    let r₁ = next programs.1 (pick 0 (omega arith) (finalizes refl)) in
    let r₂ = next r₁ (pick 1 (omega arith) (finalizes refl)) in
    let r₃ = next r₂ (pick 0 (omega arith) (leaves refl (both _ (omega arith) (omega arith)))) in
    let (s, times, shown, t, run) = last-reading in
    (_, next r₃ (pick 0 (omega arith) (reports s times shown t refl first-monitors run)))

first-ended : reported.0.place 0 ≡ ended
unfolding reported ℕ_discrete
first-ended = refl

abbrev refusing : Job
refusing = record job {
  node = λ c. record slow { machine = record steady { open_file = λ t core. failed 13 } };
}

refusing-IsLaunched : IsLaunched refusing
refusing-IsLaunched = record {
  splits = job-IsLaunched.splits;
  sound = λ c. record {
    model = sound.model;
    model_read = sound.model_read;
    known = sound.known;
    tables = sound.tables;
    tables_read = sound.tables_read;
    allocates = sound.allocates;
  };
}

first-fails : (c : ℕ) × (t : Trace) × (monitor_init (refusing.node (pos 46)) [] ≡ exit c t)
unfolding monitor_init detect_cpu_model scan_after detect_topology program_msr open_msr
first-fails = (_, _, refl)

-- The first process stopped, and the second has called the barrier.
halted : (w : World) × Reach refusing unset w
unfolding ℕ_discrete
halted =
    let r₁ = next here (
      pick 0 (omega arith) (fails first-fails.0 first-fails.1 refl first-monitors first-fails.2)) in
    (_, next r₁ (pick 1 (omega arith) (joins refl second-not)))

first-stopped : halted.0.place 0 ≡ stopped 0 first-fails.0
unfolding halted ℕ_discrete
first-stopped = refl

Reach-blocked_example : passed (halted.0.place 1) ≡ 0
Reach-blocked_example =
    Reach-blocked refusing refusing-IsLaunched halted.1 0 first-fails.0 1 (omega arith)
      (omega arith) first-stopped
