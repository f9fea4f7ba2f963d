-- ===== src/PowMpi/Detect.antt =====
-- `detect_topology` and `detect_cpu_model` of powmpi/sensor_read_lib.c. The model is taken as the
-- file gives it: there is no table of known ones.
use powmon.Base.{ℕ, Option, none, some, List, ℤ, pos, minus_one}
use powmon.Clib.{Outcome, ok, quit, ◌>>=◌, lines}
use powmon.PowMon.Detect.{read_tables, fresh_tables, read_model}
use powmon.EnergyApp.Data.{SysData}
use powmon.EnergyApp.Detect.{with_tables, with_model}

unfoldable pub detect_cpu_model : Option (List ℕ) → SysData → Outcome (ℤ × SysData)
unfolding read_model lines
detect_cpu_model none s = quit 1
detect_cpu_model (some file) s = do
  model ← read_model (lines file) minus_one
  ok (model, with_model model s)

unfoldable pub detect_topology : Option (List ℕ) → SysData → Outcome (ℤ × SysData)
unfolding read_tables lines
detect_topology none s = ok (minus_one, s)
detect_topology (some file) s = do
  t ← read_tables (lines file) fresh_tables
  ok (pos 0, with_tables s t)
