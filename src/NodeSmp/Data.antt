-- ===== src/NodeSmp/Data.antt =====
-- The data structures of pow_node_smp/sensor_read_lib.h.
use Prim.Native.String.{String}
use powmon.Base.{ℕ, List, ℤ}
use powmon.Fpu.{Float}

pub record PerCoreData : Type 0 where
  pub tsc : ℕ
  pub tsc_last : ℕ
  pub temp : ℕ
  pub instr : ℕ
  pub clk_curr : ℕ
  pub clk_ref : ℕ
  pub instr_last : ℕ
  pub clk_curr_last : ℕ
  pub clk_ref_last : ℕ
  pub aperf_last : ℕ
  pub aperf : ℕ
  pub mperf_last : ℕ
  pub mperf : ℕ
  pub tsc_diff : ℕ
  pub instr_diff : ℕ
  pub clk_curr_diff : ℕ
  pub clk_ref_diff : ℕ
  pub aperf_diff : ℕ
  pub mperf_diff : ℕ
  pub rclk_mhz : Float
  pub cpi : Float
  pub ips : Float
  pub core_load : Float

pub record PerCpuData : Type 0 where
  pub tsc : ℕ
  pub erg_u : ℕ
  pub pow_pkg_last : ℕ
  pub pow_pkg : ℕ
  pub temp_pkg : ℕ
  pub pow_dram_c_last : ℕ
  pub pow_dram_c : ℕ
  pub uclk_last : ℕ
  pub uclk : ℕ
  pub pow_pkg_diff : ℕ
  pub pow_dram_c_diff : ℕ
  pub uclk_diff : ℕ
  pub pkgpow : Float
  pub drampow : Float
  pub uclk_mhz : Float

pub record SysData : Type 0 where
  pub ncpu : ℕ
  pub ncore : ℕ
  pub cpu_model : ℤ
  pub ht_en : ℕ
  pub nom_freq : Float
  pub dram_supp : ℕ
  pub die_temp : List ℕ
  pub die_temp_en : List ℕ
  pub cpu_data : List PerCpuData
  pub core_data : List PerCoreData
  pub tmpstr : String
  pub extra_counters : ℕ
  pub dt : Float
