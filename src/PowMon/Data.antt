-- ===== src/PowMon/Data.antt =====
-- The data structures of powmon/bin/sensor_read_lib.h. A `float` is the number that its 32 bits
-- spell, a `char` array or pointer a text, and a C array a list. The derived floats of the two
-- records are written by `push_to_broker`.
use Prim.Native.String.{String}
use powmon.Fpu.{Float}
use powmon.Base.{ℕ, Option, List, ℤ}

pub record PerCoreData : Type 0 where
  pub tsc : ℕ
  pub tsc_last : ℕ
  pub temp : ℕ
  pub instr : ℕ
  pub clk_curr : ℕ
  pub clk_ref : ℕ
  pub instr_last : ℕ
  pub clk_curr_last : ℕ
  pub clk_ref_last : ℕ
  pub c3_last : ℕ
  pub c3 : ℕ
  pub c6_last : ℕ
  pub c6 : ℕ
  pub aperf_last : ℕ
  pub aperf : ℕ
  pub mperf_last : ℕ
  pub mperf : ℕ
  pub tsc_diff : ℕ
  pub instr_diff : ℕ
  pub clk_curr_diff : ℕ
  pub clk_ref_diff : ℕ
  pub c3_diff : ℕ
  pub c6_diff : ℕ
  pub aperf_diff : ℕ
  pub mperf_diff : ℕ
  pub mclk_mhz : Float
  pub rclk_mhz : Float
  pub cpi : Float
  pub ips : Float
  pub core_load : Float

pub record PerCpuData : Type 0 where
  pub tsc : ℕ
  pub erg_u : ℕ
  pub pow_pkg_last : ℕ
  pub pow_pkg : ℕ
  pub temp_pkg : ℕ
  pub pow_dram_c_last : ℕ
  pub pow_dram_c : ℕ
  pub uclk_last : ℕ
  pub uclk : ℕ
  pub c2_last : ℕ
  pub c2 : ℕ
  pub c3_last : ℕ
  pub c3 : ℕ
  pub c6_last : ℕ
  pub c6 : ℕ
  pub pow_pkg_diff : ℕ
  pub pow_dram_c_diff : ℕ
  pub uclk_diff : ℕ
  pub c3_diff : ℕ
  pub c6_diff : ℕ
  pub c2_diff : ℕ
  pub pkgpow : Float
  pub drampow : Float
  pub uclk_mhz : Float

-- `NCPU` and `NCORE` are counts, so they are numbers; `CPU_MODEL` may be -1.
pub record SysData : Type 0 where
  pub ncpu : ℕ
  pub ncore : ℕ
  pub cpu_model : ℤ
  pub ht_en : ℕ
  pub nom_freq : Float
  pub dram_supp : ℕ
  pub die_temp : List ℕ
  pub die_temp_en : List ℕ
  pub cpu_data : List PerCpuData
  pub core_data : List PerCoreData
  pub logfile : List ℕ
  pub tmpstr : String
  pub hostid : Option (List ℕ)
  pub topic : Option (List ℕ)
  pub cmd_topic : Option (List ℕ)
  pub broker_host : Option (List ℕ)
  pub broker_port : ℤ
  pub extra_counters : ℕ
  pub qos : ℤ
  pub dt : Float
