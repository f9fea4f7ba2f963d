-- ===== src/NodeSmp/Detect.antt =====
-- `detect_topology` and `detect_cpu_model` of pow_node_smp/sensor_read_lib.c, whose loops over the
-- file and tables of models are those of powmon.
pub mod Agreement
use powmon.Base.{
  ℕ, ◌*◌, Option, none, some, List, ◌==◌, if◌then◌else◌, ℤ, pos, is_positive, minus_one,
}
use powmon.Clib.{Outcome, ok, quit, ◌>>=◌, lines}
use powmon.PowMon.Detect.{Tables, read_tables, fresh_tables, read_model, known_model, has_dram}
use powmon.NodeSmp.Data.{SysData}

abbrev pub with_tables : SysData → Tables → SysData
with_tables s t =
    let total = t.cores.total * t.sockets.total in
    record s {
      ht_en = if total * 2 == t.logical_cpus.total then 1 else 0;
      ncore = total;
      ncpu = t.sockets.total;
    }

unfoldable pub detect_topology : Option (List ℕ) → SysData → Outcome (ℤ × SysData)
unfolding read_tables lines
detect_topology none s = ok (minus_one, s)
detect_topology (some file) s = do
  t ← read_tables (lines file) fresh_tables
  ok (pos 0, with_tables s t)

abbrev pub with_model : ℤ → SysData → SysData
with_model model s =
    if is_positive model
    then record s { cpu_model = model; dram_supp = if has_dram model then 1 else s.dram_supp }
    else s

unfoldable pub store_model : SysData → ℤ → ℤ × SysData
unfolding known_model has_dram
store_model s found =
    let model = if known_model found then found else minus_one in (model, with_model model s)

unfoldable pub detect_cpu_model : Option (List ℕ) → SysData → Outcome (ℤ × SysData)
unfolding read_model store_model lines
detect_cpu_model none s = quit 1
detect_cpu_model (some file) s = do
  found ← read_model (lines file) minus_one
  ok (store_model s found)
