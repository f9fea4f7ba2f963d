-- ===== src/PowMon/Broker/Metrics.antt =====
-- What `push_to_broker` stores and sends.
use powmon.Base.{ℕ, ◌<◌, ◌≡◌, some, List, length, get_elem?}
use powmon.PowMon.Data.{PerCoreData, PerCpuData, SysData}
use powmon.Fpu.{Fpu}
use powmon.PowMon.Broker.{CpuMessage, CoreMessage}
use powmon.PowMon.Broker.Step.{CoreMetrics, CoreSent, CpuMetrics, CpuSent}

-- A package and its message.
pub record CpuPushed (fpu : Fpu) (s : SysData) (cpu : ℕ) (s' : SysData) (cpus : List CpuMessage)
    : Type 0 where
  pub old : PerCpuData
  pub new : PerCpuData
  pub message : CpuMessage
  pub was : get_elem? s.cpu_data cpu ≡ some old
  pub now : get_elem? s'.cpu_data cpu ≡ some new
  pub sent : get_elem? cpus cpu ≡ some message
  pub metrics : CpuMetrics fpu s old new
  pub says : CpuSent fpu s cpu new message

-- A core and its message.
pub record CorePushed (fpu : Fpu) (s : SysData) (core : ℕ) (s' : SysData) (cores : List CoreMessage)
    : Type 0 where
  pub old : PerCoreData
  pub new : PerCoreData
  pub message : CoreMessage
  pub was : get_elem? s.core_data core ≡ some old
  pub now : get_elem? s'.core_data core ≡ some new
  pub sent : get_elem? cores core ≡ some message
  pub metrics : CoreMetrics fpu s old new
  pub says : CoreSent s core new message

pub record Pushed (fpu : Fpu) (s s' : SysData) (cpus : List CpuMessage) (cores : List CoreMessage)
    : Type 0 where
  pub cpu_count : length cpus ≡ s.ncpu
  pub core_count : length cores ≡ s.ncore
  pub sizes : (length s'.cpu_data ≡ s.ncpu) × (length s'.core_data ≡ s.ncore)
  pub frame : s' ≡ record s { cpu_data = s'.cpu_data; core_data = s'.core_data }
  pub cpu : (i : ℕ) → i < s.ncpu → CpuPushed fpu s i s' cpus
  pub core : (i : ℕ) → i < s.ncore → CorePushed fpu s i s' cores
