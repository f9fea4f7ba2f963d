-- ===== src/EnergyApp/Main/Reported.antt =====
-- What energy-app prints of the energy of a program.
use powmon.Base.{
  ℕ, ◌/◌, ◌^◌, bit_and, ◌≡◌, refl, true, false, some, List, length, get_elem?, ℤ, is_positive,
  is_negative, pos, negsuc, minus_one,
}
use powmon.Machine.{Trace, Cmd, ret}
use powmon.Machine.Rules
use powmon.Clib.{ok, lines}
use powmon.Fpu.{Fpu}
use powmon.PowMon.Detect.{Tables, read_tables, fresh_tables, read_model}
use powmon.PowMon.Start.Ready.{some_socket}
use powmon.EnergyApp.{pkg_diff}
use powmon.EnergyApp.Data.{PerCpuData, SysData}
use powmon.EnergyApp.Detect.{with_model, with_tables}
use powmon.EnergyApp.Report.{PackageLine, energy}
use powmon.EnergyApp.Totals.{IsSized, Measured}
use powmon.EnergyApp.Main.{Node, allocated, init_pow_mon, measured}

-- The files are those of a machine that the detection gets past, and `malloc` gives what it is asked.
pub record IsSound (node : Node) : Type 0 where
  pub model : ℤ
  pub model_read : read_model (lines node.model_file) minus_one ≡ ok model
  pub known : is_positive model ≡ true
  pub tables : Tables
  pub tables_read : read_tables (lines node.topology_file) fresh_tables ≡ ok tables
  pub allocates : (n : ℕ) → length (node.malloc_cpus n) ≡ n

-- the data when the measurement starts
abbrev pub found : (node : Node) → IsSound node → SysData
found node sound = allocated node (with_tables (with_model sound.model init_pow_mon) sound.tables)

pub found-IsSized : (node : Node) (sound : IsSound node) → IsSized (found node sound)
found-IsSized node sound = record {
  sized = sound.allocates _;
  socket = λ h. some_socket sound.tables.cores.total sound.tables.sockets.total h;
}

pub positive_not_negative : (z : ℤ) → is_positive z ≡ true → is_negative z ≡ false
positive_not_negative (pos n) h = refl
positive_not_negative (negsuc n) h = cc

-- The lines printed: one for each package, that of `j` made of its two readings.
pub record Reported (fpu : Fpu) (program : Cmd (Unit {0})) (s : SysData) (j : ℕ)
    (shown : List PackageLine) (t' : Trace) : Type 0 where
  pub count : length shown ≡ s.ncpu
  pub line : PackageLine
  pub printed : get_elem? shown j ≡ some line
  pub from : Trace
  pub last : PerCpuData
  pub measured : Measured (λ u v. program u ≡ ret tt v) s.dram_supp from last t'
  pub pkgerg : line.pkgerg ≡ energy fpu (pkg_diff last) (bit_and (measured.unit / 2 ^ 8) 0x1e)
