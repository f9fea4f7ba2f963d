-- ===== src/EnergyApp/Data.antt =====
-- The data structures of energy-app/sensor_read_lib.h; powmpi/include/sensor_read_lib.h has one more
-- field, `initial_mpi_wtime`. An `int` that the code only ever sets to numbers from 0 on is a number.
use Prim.Native.String.{String}
use powmon.Base.{ℕ, List, ℤ}

pub record PerCpuData : Type 0 where
  pub erg_u : ℕ
  pub erg_dram : ℕ
  pub pow_pkg_last : ℕ
  pub pow_pkg : ℕ
  pub pow_pkg_init : ℕ
  pub pow_pkg_final : ℕ
  pub pow_pkg_overflow : ℕ
  pub temp_pkg : ℕ
  pub pow_dram_c_last : ℕ
  pub pow_dram_c : ℕ
  pub pow_dram_c_init : ℕ
  pub pow_dram_c_final : ℕ
  pub pow_dram_c_overflow : ℕ

pub record SysData : Type 0 where
  pub ncpu : ℕ
  pub ncore : ℕ
  pub cpu_model : ℤ
  pub ht_en : ℕ
  pub nom_freq : ℕ
  pub dram_supp : ℕ
  pub cpu_data : List PerCpuData
  pub dt : ℕ
  pub tmpstr : String
  pub time_us : ℤ
  pub time_us_init : ℤ
  pub time_us_final : ℤ
