-- ===== src/Tests/Measure.antt =====
-- What the theorems on the measurement of energy-app say of a node of two sockets.
use powmon.Base.{◌≡◌, some, [], ◌∷◌, pos}
use powmon.Clib.{ok}
use powmon.EnergyApp.Detect
use powmon.EnergyApp.Detect.Agreement.{copied, detect_topology-agrees}
use powmon.EnergyApp.Data
use powmon.Tests.Detection.{found, cpuinfo-read}
use powmon.Tests.{host, cpuinfo, energy_data}

abbrev node : Data.SysData
node = record {
  ncpu = 2;
  ncore = 4;
  cpu_model = pos 63;
  ht_en = 0;
  nom_freq = 0;
  dram_supp = 1;
  cpu_data = energy_data ∷ energy_data ∷ [];
  dt = 0;
  tmpstr = "";
  time_us = pos 0;
  time_us_init = pos 0;
  time_us_final = pos 0;
}

detect_topology-agrees_example :
    Detect.detect_topology (some cpuinfo) node ≡ ok (copied node (pos 0, found))
detect_topology-agrees_example =
    detect_topology-agrees cpuinfo (host 0 0) (pos 0, found) node cpuinfo-read
