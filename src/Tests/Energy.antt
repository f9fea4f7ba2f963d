-- ===== src/Tests/Energy.antt =====
-- energy-app and powmpi on a machine with one core.
use powmon.Base.{
  ℕ, ◌≤◌, ◌≡◌, refl, List, [], ◌∷◌, ℤ, pos, minus_one, replicate, length-replicate, length, set,
  arith, ◌==◌, ◌||◌, if◌then◌else◌,
}
use powmon.Clib.{ok, bytes, lines, scan_after}
use powmon.Msr.Addresses.{max_cores, max_packages}
use powmon.PowMon.Detect.{Table, read_tables, fresh_tables, read_model}
use powmon.PowMon.Detect.Marks.{count_below}
use powmon.EnergyApp.Main.{Node}
use powmon.EnergyApp.Main.Reported.{IsSound, Reported}
use powmon.PowMpi.Election.{color_of, same_color, imonitor}
use powmon.PowMpi.Election.Monitors.{imonitor-one}
use powmon.PowMpi.Election.Names.{color_of-written}
use powmon.Tests.{counting, cpuinfo, energy_data}

abbrev pub node : Node
node = record {
  machine = counting;
  model_file = cpuinfo;
  topology_file = cpuinfo;
  malloc_cpus = λ n. replicate n energy_data;
  now = λ t. pos (length t);
}

abbrev pub one : ℕ → Table
one size = record { number = pos 0; flags = set (replicate size minus_one) 0 (pos 1); total = 1 }

pub cpuinfo-tables :
    read_tables (lines cpuinfo) fresh_tables
    ≡ ok
        (record { logical_cpus = one max_cores; sockets = one max_packages; cores = one max_cores })
unfolding read_tables lines scan_after
cpuinfo-tables = refl

pub cpuinfo-model : read_model (lines cpuinfo) minus_one ≡ ok (pos 63)
unfolding read_model lines scan_after
cpuinfo-model = refl

abbrev pub sound : IsSound node
sound = record {
  model = pos 63;
  model_read = cpuinfo-model;
  known = refl;
  tables = record {
    logical_cpus = one max_cores;
    sockets = one max_packages;
    cores = one max_cores;
  };
  tables_read = cpuinfo-tables;
  allocates = λ n. length-replicate n energy_data;
}

abbrev args : List (List ℕ)
args = bytes "sleep" ∷ bytes "1" ∷ []

color_of-written_example : color_of (bytes "COMPUTE-1-46.local") ≡ ok (pos 46)
color_of-written_example =
    color_of-written b'C' b'1' 4 (bytes "OMPUTE") [] (6 ∷ []) (bytes ".local")
      (record {
        name = (refl, (refl, (refl, (refl, (refl, (refl, (refl, tt)))))));
        dash = (refl, (refl, (refl, (refl, (refl, (refl, (refl, tt)))))));
      })
      (record { name = (refl, tt); dash = (refl, tt) }) (omega arith, (omega arith, tt))
      (omega arith) refl

-- four processes on two nodes, in turn
abbrev colors : ℕ → ℤ
colors rank = if rank == 1 || rank == 3 then pos 47 else pos 46

abbrev pub split : (ℕ → ℤ) → ℕ → ℕ
split cs rank = count_below rank (λ q. same_color (cs q) (cs rank))

imonitor-one_example :
    (m : ℕ) × (m ≤ 3)
    × (colors m ≡ pos 47)
    × (imonitor (split colors m) ≡ 1)
    × ((q : ℕ) → colors q ≡ pos 47 → imonitor (split colors q) ≡ 1 → q ≡ m)
imonitor-one_example = imonitor-one split colors 3 (λ cs rank. refl)
