-- ===== src/Tests/Sampling.antt =====
-- What the theorems on a sampling of powmon, and on what it publishes, say of concrete data.
use powmon.Base.{◌≡◌, refl, some, [], arith, get_elem?}
use powmon.Machine.{Trace, ret}
use powmon.Machine.Rules.{Runs}
use powmon.Msr.Laws.{Stopped}
use powmon.PowMon.Data.{SysData}
use powmon.PowMon.Sensor.{read_msr_data}
use powmon.PowMon.Sensor.Sweep.{IsReady}
use powmon.PowMon.Sensor.Step.{Overwritten}
use powmon.PowMon.Sensor.Sampling.{
  Sampling, read_msr_data-Sampling, read_msr_data-returns, read_msr_data-single,
  read_msr_data-skips,
}
use powmon.Tests.{counting, counting-Responsive, cpu_data, host, two_sockets-IsReady}

one_socket-IsReady : IsReady 1 2 (host 1 2)
one_socket-IsReady = record {
  ncpu_is = refl;
  ncore_is = refl;
  cpus = refl;
  cores = refl;
  dies = refl;
  dies_en = refl;
  fits = omega arith;
  socket = λ _. omega arith;
}

four_sockets-IsReady : IsReady 4 8 (host 4 8)
four_sockets-IsReady = record {
  ncpu_is = refl;
  ncore_is = refl;
  cpus = refl;
  cores = refl;
  dies = refl;
  dies_en = refl;
  fits = omega arith;
  socket = λ _. omega arith;
}

read_msr_data-Sampling_example :
    Runs (Sampling 2 4 (host 2 4) []) (Stopped counting) (read_msr_data counting (host 2 4) [])
read_msr_data-Sampling_example =
    read_msr_data-Sampling counting 2 4 (host 2 4) [] two_sockets-IsReady tt

read_msr_data-returns_example :
    (s' : SysData) × (t' : Trace) × (read_msr_data counting (host 2 4) [] ≡ ret s' t')
    × Sampling 2 4 (host 2 4) [] s' t'
read_msr_data-returns_example =
    read_msr_data-returns counting 2 4 (host 2 4) [] counting-Responsive two_sockets-IsReady tt

read_msr_data-single_example :
    Runs (Overwritten 0 []) (Stopped counting) (read_msr_data counting (host 1 2) [])
read_msr_data-single_example =
    read_msr_data-single counting 2 (host 1 2) [] one_socket-IsReady tt (omega arith)

read_msr_data-skips_example :
    Runs
      (λ s' _. get_elem? s'.cpu_data 1 ≡ some cpu_data)
      (Stopped counting)
      (read_msr_data counting (host 4 8) [])
read_msr_data-skips_example =
    read_msr_data-skips counting 4 8 1 (host 4 8) [] four_sockets-IsReady tt (omega arith)
      (omega arith) (omega arith)
