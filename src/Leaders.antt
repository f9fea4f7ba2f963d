-- ===== src/Leaders.antt =====
-- The loops of the sensor libraries over the cores that do something once for each package: on core
-- 0 and on the middle core. `visit` is what the loop does with such a core, and `body` what it does
-- with the package's record once the register file of the core is open.
pub mod Visits
pub mod Loop
use powmon.Base.{ℕ, zero, suc, ◌+◌, ◌*◌, ◌/◌, Bool, ◌||◌, List, ◌==◌, if◌then◌else◌, get_elem?, set}
use powmon.Machine.{Machine, Cmd, pure, ◌>>=◌, ◌>>◌, checked}
use powmon.Msr.{open_msr}

-- The cores on which a package is sampled.
abbrev pub is_leader : ℕ → ℕ → Bool
is_leader core ncore = core == 0 || core == ncore / 2

-- `trunc(core * NCPU) / NCORE`, made an `int`
abbrev pub package_of : ℕ → ℕ → ℕ → ℕ
package_of core ncpu ncore = core * ncpu / ncore

module _ {C : Type 0} (m : Machine) (ncpu ncore : ℕ) (before : ℕ → Cmd (Unit {0}))
    (body : ℕ → C → Cmd C) (after : Cmd (Unit {0})) where
  -- the branch of the loop that treats the package `cpuid`
  unfoldable pub treat : ℕ → ℕ → List C → Cmd (List C)
  treat core cpuid cpu_data = do
    before core
    fd ← open_msr m core
    c ← checked (get_elem? cpu_data cpuid)
    c' ← body fd c
    after
    pure (set cpu_data cpuid c')

  unfoldable pub for_leaders : ℕ → ℕ → List C → Cmd (List C)
  unfolding treat
  for_leaders zero core cpu_data = pure cpu_data
  for_leaders (suc rounds) core cpu_data = do
    cpu_data' ←
        if is_leader core ncore
        then treat core (package_of core ncpu ncore) cpu_data
        else pure cpu_data
    for_leaders rounds (core + 1) cpu_data'
