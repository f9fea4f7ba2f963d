-- ===== src/PowMon/Detect.antt =====
-- `detect_topology` and `detect_cpu_model` of powmon/bin/sensor_read_lib.c, which read /proc/cpuinfo.
-- The file is given as its bytes, or `none` where `fopen` fails. What is printed is left out.
pub mod Marks
pub mod Model
pub mod Range
pub mod Tally
pub mod Topology
use powmon.Base.{
  ℕ, suc, ◌+◌, ◌*◌, ◌<◌, Bool, true, false, ◌||◌, Option, none, some, List, [], ◌∷◌, ◌==◌,
  if◌then◌else◌, get_elem?, set, replicate, ℤ, pos, negsuc, is, is_positive, minus_one,
}
use powmon.Clib.{Outcome, ok, quit, undefined, ◌>>=◌, bytes, has_prefix, scan_after, assign, lines}
use powmon.Msr.Addresses.{
  max_cores, max_packages, sandybridge, sandybridge_ep, ivybridge, ivybridge_ep, haswell,
  haswell_ep, broadwell, broadwell_ep, broadwell_de, skylake, skylake_hs,
}
use powmon.PowMon.Data.{SysData}

-- One of the three tables of `detect_topology`: the variable that `sscanf` writes, the flags (-1 or
-- 1), and the number of flags set.
pub record Table : Type 0 where
  pub number : ℤ
  pub flags : List ℤ
  pub total : ℕ

abbrev pub is_minus_one : ℤ → Bool
is_minus_one (pos n) = false
is_minus_one (negsuc n) = n == 0

-- `if (flags[i] == -1) { flags[i] = 1; total += 1; }`
unfoldable pub mark_at : Option ℤ → ℕ → Table → Outcome Table
mark_at none i t = undefined
mark_at (some flag) i t =
    if is_minus_one flag
    then ok (record t { flags = set t.flags i (pos 1); total = t.total + 1 })
    else ok t

unfoldable pub mark : ℤ → Table → Outcome Table
unfolding mark_at
mark (pos i) t = mark_at (get_elem? t.flags i) i t
mark (negsuc i) t = undefined

-- the test of one line against one table
unfoldable pub note_line : List ℕ → ℕ → List ℕ → Table → Outcome Table
unfolding mark
note_line tag words line t =
    if has_prefix tag line
    then (do n ← assign (scan_after words line) t.number; mark n (record t { number = n }))
    else ok t

pub record Tables : Type 0 where
  pub logical_cpus : Table
  pub sockets : Table
  pub cores : Table

abbrev pub processor_tag : List ℕ
processor_tag = bytes "processor"

abbrev pub physical_tag : List ℕ
physical_tag = bytes "physical id"

abbrev pub core_tag : List ℕ
core_tag = bytes "core id"

-- the body of the reading loop
unfoldable pub note_all : List ℕ → Tables → Outcome Tables
unfolding note_line
note_all line t = do
  logical_cpus ← note_line processor_tag 2 line t.logical_cpus
  sockets ← note_line physical_tag 3 line t.sockets
  cores ← note_line core_tag 3 line t.cores
  ok (record { logical_cpus = logical_cpus; sockets = sockets; cores = cores })

unfoldable pub read_tables : List (List ℕ) → Tables → Outcome Tables
unfolding note_all
read_tables [] t = ok t
read_tables (line ∷ rest) t = note_all line t >>= read_tables rest

abbrev pub fresh : ℕ → Table
fresh size = record { number = pos 0; flags = replicate size minus_one; total = 0 }

abbrev pub fresh_tables : Tables
fresh_tables = record {
  logical_cpus = fresh max_cores;
  sockets = fresh max_packages;
  cores = fresh max_cores;
}

abbrev pub with_tables : SysData → Tables → SysData
with_tables s t =
    let total = t.cores.total * t.sockets.total in
    record s {
      ht_en = if total * 2 == t.logical_cpus.total then 1 else 0;
      ncore = total;
      ncpu = t.sockets.total;
    }

-- the value returned and the data
unfoldable pub detect_topology : Option (List ℕ) → SysData → Outcome (ℤ × SysData)
unfolding read_tables lines
detect_topology none s = ok (minus_one, s)
detect_topology (some file) s = do
  t ← read_tables (lines file) fresh_tables
  ok (pos 0, with_tables s t)

abbrev model_tag : List ℕ
model_tag = bytes "model"

unfoldable pub note_model : List ℕ → ℤ → Outcome ℤ
note_model line model =
    if has_prefix model_tag line then assign (scan_after 2 line) model else ok model

unfoldable pub read_model : List (List ℕ) → ℤ → Outcome ℤ
unfolding note_model
read_model [] model = ok model
read_model (line ∷ rest) model = note_model line model >>= read_model rest

-- the `switch` on the model: one that it does not name becomes -1
unfoldable pub known_model : ℤ → Bool
known_model model =
    is model sandybridge
    || is model sandybridge_ep
    || is model ivybridge
    || is model ivybridge_ep
    || is model haswell
    || is model haswell_ep
    || is model broadwell
    || is model broadwell_ep
    || is model broadwell_de
    || is model skylake
    || is model skylake_hs

unfoldable pub has_dram : ℤ → Bool
has_dram model =
    is model sandybridge_ep
    || is model ivybridge_ep
    || is model haswell_ep
    || is model haswell
    || is model broadwell

abbrev pub with_model : ℤ → SysData → SysData
with_model model s =
    if is_positive model
    then record s { cpu_model = model; dram_supp = if has_dram model then 1 else s.dram_supp }
    else s

-- what follows the reading loop
unfoldable pub store_model : SysData → ℤ → ℤ × SysData
unfolding known_model has_dram
store_model s found =
    let model = if known_model found then found else minus_one in (model, with_model model s)

unfoldable pub detect_cpu_model : Option (List ℕ) → SysData → Outcome (ℤ × SysData)
unfolding read_model store_model lines
detect_cpu_model none s = quit 1
detect_cpu_model (some file) s = do
  found ← read_model (lines file) minus_one
  ok (store_model s found)
