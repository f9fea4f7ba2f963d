-- ===== src/EnergyApp/Frequency.antt =====
-- `detect_nominal_frequency` of energy-app/sensor_read_lib.c, with the bus frequencies of powmon.
use powmon.Base.{ℕ, ◌*◌, ◌/◌, ◌^◌, bit_and, ◌==◌, if◌then◌else◌, ℤ, pos, is_positive, minus_one}
use powmon.Machine.{Machine, Cmd, pure, ◌>>=◌, ◌>>◌}
use powmon.Msr.{open_msr, read_msr, close_msr}
use powmon.Msr.Addresses.{platform_info_addr}
use powmon.Fpu.{Float}
use powmon.PowMon.Frequency.{bus_freq}
use powmon.EnergyApp.Data.{SysData}

abbrev pub with_frequency : (ℕ → Float) → SysData → ℕ → ℤ × SysData
with_frequency to_float s nom_freq =
    if nom_freq == 0 then (minus_one, s) else (pos 0, record s { nom_freq = to_float nom_freq })

unfoldable pub detect_nominal_frequency : Machine → (ℕ → Float) → SysData → Cmd (ℤ × SysData)
unfolding bus_freq close_msr
detect_nominal_frequency m to_float s =
    if is_positive s.cpu_model
    then (do
      fd ← open_msr m 0
      result ← read_msr m fd platform_info_addr
      close_msr fd
      pure (with_frequency to_float s (bit_and (result / 2 ^ 8) 0xff * bus_freq s.cpu_model)))
    else pure (minus_one, s)
