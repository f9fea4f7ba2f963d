-- ===== src/Msr.antt =====
-- The access to model-specific registers that the sensor libraries share: the addresses of
-- sensor_read_lib.h and the functions `open_msr`, `read_msr`, `write_msr`, `read_tsc` and
-- `set_cpu_affinity` of powmon/bin/sensor_read_lib.c. A 64-bit register is a number below 2 ^ 64;
-- what goes to standard error before an `exit` is left out.
pub mod Addresses
pub mod Events
pub mod Laws
use powmon.Base.{
  ℕ, ◌+◌, ◌*◌, ◌%◌, ◌^◌, bit_or, Bool, true, false, Option, none, some, ◌∷◌, ◌==◌, if◌then◌else◌, ℤ,
  pos, minus_one,
}
use powmon.Machine.{
  Machine, descriptor, failed, opened, closed, rdmsr, wrmsr, pinned, rdtsc, Run, ret, exit, Cmd,
}

abbrev enxio : ℕ
enxio = 6

abbrev eio : ℕ
eio = 5

-- the status with which a failed `open` ends the process
unfoldable pub open_status : ℕ → ℕ
open_status e = if e == enxio then 2 else if e == eio then 3 else 127

module _ (m : Machine) where
  unfoldable pub open_msr : ℕ → Cmd ℕ
  open_msr core t = elim (m.open_file t core) [
    | descriptor n ↦ ret n (opened core n ∷ t)
    | failed e ↦ exit (open_status e) t
  ]

  unfoldable pub read_msr : ℕ → ℕ → Cmd ℕ
  read_msr fd which t = elim (m.pread t fd which) [
    | none ↦ exit 127 t
    | some v ↦ ret (v % 2 ^ 64) (rdmsr fd which (v % 2 ^ 64) ∷ t)
  ]

  unfoldable pub write_msr : ℕ → ℕ → ℕ → Cmd (Unit {0})
  write_msr fd which value t =
      if m.pwrite t fd which value then ret tt (wrmsr fd which value ∷ t) else exit 127 t

  -- `EAX_EDX_VAL` of the two halves
  unfoldable pub read_tsc : Cmd ℕ
  read_tsc t =
      let low = m.eax t % 2 ^ 32 in
      let high = m.edx t % 2 ^ 32 in ret (bit_or low (high * 2 ^ 32)) (rdtsc low high ∷ t)

  -- The callers ignore the result; a refusal is only a warning.
  unfoldable pub set_cpu_affinity : ℕ → Cmd ℤ
  set_cpu_affinity cpu t =
      if m.setaffinity t cpu then ret (pos 0) (pinned cpu ∷ t) else ret minus_one t

-- `close(fd)`
unfoldable pub close_msr : ℕ → Cmd (Unit {0})
close_msr fd t = ret tt (closed fd ∷ t)
