-- ===== src/Msr/Addresses.antt =====
-- The register addresses, masks and processor codes of powmon/bin/sensor_read_lib.h that the
-- code uses; the other three copies of the header have the same values.
use powmon.Base.{ℕ}

abbrev pub max_cores : ℕ
max_cores = 1024

abbrev pub max_packages : ℕ
max_packages = 16

abbrev pub msr_rapl_power_unit : ℕ
msr_rapl_power_unit = 0x606

abbrev pub msr_pkg_energy_status : ℕ
msr_pkg_energy_status = 0x611

abbrev pub msr_dram_energy_status : ℕ
msr_dram_energy_status = 0x619

abbrev pub msr_core_c3_residency : ℕ
msr_core_c3_residency = 0x3fc

abbrev pub msr_core_c6_residency : ℕ
msr_core_c6_residency = 0x3fd

abbrev pub msr_pkg_c2_residency : ℕ
msr_pkg_c2_residency = 0x60d

abbrev pub msr_pkg_c3_residency : ℕ
msr_pkg_c3_residency = 0x3f8

abbrev pub msr_pkg_c6_residency : ℕ
msr_pkg_c6_residency = 0x3f9

abbrev pub ia32_temperature_target : ℕ
ia32_temperature_target = 0x1a2

abbrev pub msr_ia32_therm_status : ℕ
msr_ia32_therm_status = 0x19c

abbrev pub msr_ia32_package_therm_status : ℕ
msr_ia32_package_therm_status = 0x1b1

abbrev pub temp_mask : ℕ
temp_mask = 0x7f0000

abbrev pub msr_core_perf_fixed_ctr0 : ℕ
msr_core_perf_fixed_ctr0 = 0x309

abbrev pub msr_core_perf_fixed_ctr1 : ℕ
msr_core_perf_fixed_ctr1 = 0x30a

abbrev pub msr_core_perf_fixed_ctr2 : ℕ
msr_core_perf_fixed_ctr2 = 0x30b

abbrev pub msr_core_perf_fixed_ctr_ctrl : ℕ
msr_core_perf_fixed_ctr_ctrl = 0x38d

abbrev pub msr_mperf : ℕ
msr_mperf = 0xe7

abbrev pub msr_aperf : ℕ
msr_aperf = 0xe8

abbrev pub platform_info_addr : ℕ
platform_info_addr = 0xce

abbrev pub u_msr_pmon_uclk_fixed_ctl : ℕ
u_msr_pmon_uclk_fixed_ctl = 0x703

abbrev pub u_msr_pmon_uclk_fixed_ctr : ℕ
u_msr_pmon_uclk_fixed_ctr = 0x704

abbrev pub sandybridge : ℕ
sandybridge = 42

abbrev pub sandybridge_ep : ℕ
sandybridge_ep = 45

abbrev pub ivybridge : ℕ
ivybridge = 58

abbrev pub ivybridge_ep : ℕ
ivybridge_ep = 62

abbrev pub haswell : ℕ
haswell = 60

abbrev pub haswell_ep : ℕ
haswell_ep = 63

abbrev pub broadwell : ℕ
broadwell = 61

abbrev pub broadwell_ep : ℕ
broadwell_ep = 79

abbrev pub broadwell_de : ℕ
broadwell_de = 86

abbrev pub skylake : ℕ
skylake = 78

abbrev pub skylake_hs : ℕ
skylake_hs = 94
