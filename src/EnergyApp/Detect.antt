-- ===== src/EnergyApp/Detect.antt =====
-- `detect_topology` and `detect_cpu_model` of energy-app/sensor_read_lib.c. The tables and the table
-- of models are those of powmon.
pub mod Agreement
use powmon.Base.{
  ℕ, ◌+◌, ◌*◌, [], ◌∷◌, get_elem?, set, negsuc, ◌/◌, ◌^◌, bit_and, ◌||◌, Option, none, some, List,
  ◌==◌, if◌then◌else◌, ℤ, pos, is, is_positive, minus_one,
}
use powmon.Clib.{
  Outcome, ok, quit, undefined, ◌>>=◌, bytes, has_prefix, scan_after, matched, unmatched,
  out_of_range, lines,
}
use powmon.Msr.Addresses.{sandybridge_ep, ivybridge_ep, haswell, haswell_ep, broadwell}
use powmon.PowMon.Detect.{Table, Tables, is_minus_one, fresh_tables, read_model, known_model}
use powmon.EnergyApp.Data.{SysData}

abbrev pub index : ℤ → Option ℕ
index (pos i) = some i
index (negsuc i) = none

-- the flag of an id that was not seen is set and counted; an index out of range is not
unfoldable pub note_id : Table → Outcome Table
note_id t = elim (index t.number) [
  | none ↦ undefined
  | some i ↦ elim (get_elem? t.flags i) [
    | none ↦ undefined
    | some flag ↦
        if is_minus_one flag
        then ok (record t { flags = set t.flags i (pos 1); total = t.total + 1 })
        else ok t
  ]
]

-- One of the three branches of the loop: the number after so many words is read into the variable of
-- the branch, which keeps its value where none is found.
unfoldable pub note : List ℕ → ℕ → List ℕ → Table → Outcome Table
unfolding note_id
note tag words line t =
    if has_prefix tag line
    then (elim (scan_after words line) [
      | matched n ↦ note_id (record t { number = n })
      | unmatched ↦ note_id t
      | out_of_range ↦ undefined
    ])
    else ok t

-- the loop over the lines, with the words that begin them as energy-app compares them
unfoldable pub read_tables : List (List ℕ) → Tables → Outcome Tables
unfolding note
read_tables [] t = ok t
read_tables (line ∷ rest) t = do
  logical_cpus ← note (bytes "processor") 2 line t.logical_cpus
  sockets ← note (bytes "physical id") 3 line t.sockets
  cores ← note (bytes "core id") 3 line t.cores
  read_tables rest (record { logical_cpus = logical_cpus; sockets = sockets; cores = cores })

abbrev pub with_tables : SysData → Tables → SysData
with_tables s t =
    let total = t.cores.total * t.sockets.total in
    record s {
      ht_en = if total * 2 == t.logical_cpus.total then 1 else 0;
      ncore = total;
      ncpu = t.sockets.total;
    }

unfoldable pub detect_topology : Option (List ℕ) → SysData → Outcome (ℤ × SysData)
unfolding read_tables lines
detect_topology none s = ok (minus_one, s)
detect_topology (some file) s = do
  t ← read_tables (lines file) fresh_tables
  ok (pos 0, with_tables s t)

abbrev dram_mode : ℤ → ℕ → ℕ
dram_mode model old =
    if is model haswell_ep
    then 2
    else if is model sandybridge_ep
        || is model ivybridge_ep
        || is model haswell
        || is model broadwell
    then 1
    else old

abbrev pub with_model : ℤ → SysData → SysData
with_model model s =
    if is_positive model
    then record s { cpu_model = model; dram_supp = dram_mode model s.dram_supp }
    else s

unfoldable pub store_model : SysData → ℤ → ℤ × SysData
unfolding known_model
store_model s found =
    let model = if known_model found then found else minus_one in (model, with_model model s)

unfoldable pub detect_cpu_model : Option (List ℕ) → SysData → Outcome (ℤ × SysData)
unfolding read_model store_model lines
detect_cpu_model none s = quit 1
detect_cpu_model (some file) s = do
  found ← read_model (lines file) minus_one
  ok (store_model s found)
