-- ===== src/Sweep.antt =====
-- The loop over all cores that pow_node_smp/sensor_read_lib.c writes twice, with the parts for the
-- package and for the core as parameters. `cpuid` is carried from one round to the next.
pub mod Invariant
use powmon.Base.{ℕ, zero, suc, ◌+◌, if◌then◌else◌}
use powmon.Machine.{Machine, Cmd, pure, ◌>>=◌, ◌>>◌}
use powmon.Msr.{open_msr, close_msr, read_tsc, set_cpu_affinity}
use powmon.Leaders.{is_leader, package_of}

module _ {S : Type 0} (ncpu ncore : ℕ) (package_part : ℕ → ℕ → ℕ → S → Cmd S) where
  unfoldable pub visit : ℕ → ℕ → ℕ → ℕ → S → Cmd (ℕ × S)
  visit fd tsc core cpuid s =
      if is_leader core ncore
      then (do let own = package_of core ncpu ncore; s' ← package_part fd tsc own s; pure (own, s'))
      else pure (cpuid, s)

module _ {S : Type 0} (m : Machine) (ncpu ncore : ℕ) (package_part : ℕ → ℕ → ℕ → S → Cmd S)
    (core_part : ℕ → ℕ → ℕ → ℕ → S → Cmd S) where
  unfoldable pub every_core : ℕ → ℕ → ℕ → S → Cmd S
  unfolding visit
  every_core zero core cpuid s = pure s
  every_core (suc rounds) core cpuid s = do
    _ ← set_cpu_affinity m core
    fd ← open_msr m core
    tsc ← read_tsc m
    (cpuid', s') ← visit ncpu ncore package_part fd tsc core cpuid s
    s'' ← core_part fd tsc core cpuid' s'
    close_msr fd
    every_core rounds (core + 1) cpuid' s''
