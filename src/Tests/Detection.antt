-- ===== src/Tests/Detection.antt =====
-- What the theorems on the detection and the set-up of powmon say of a concrete file.
use powmon.Base.{◌*◌, ◌≡◌, refl, some, [], pos, replicate}
use powmon.Machine.Rules.{Runs}
use powmon.Msr.Laws.{Stopped}
use powmon.Clib.{ok, bytes, scan_after}
use powmon.PowMon.Data.{SysData}
use powmon.PowMon.Detect.{note_model, detect_topology, detect_cpu_model}
use powmon.PowMon.Detect.Topology.{described}
use powmon.PowMon.Detect.Range.{detect_topology-returns}
use powmon.PowMon.Detect.Model.{note_model-name}
use powmon.PowMon.Frequency.{Tuned, detect_nominal_frequency, detect_nominal_frequency-Tuned}
use powmon.PowMon.Start.{set_up, init_pow_mon}
use powmon.PowMon.Start.Ready.{Started, Ended, set_up-Started, init_pow_mon-dies}
use powmon.PowMon.Detect.{physical_tag, core_tag}
use powmon.PowMon.Detect.Topology.{distinct}
use powmon.Tests.{
  counting, core_data, cpu_data, host, cpuinfo, cpuinfo-FitsTables, replicate-IsMalloc,
}

abbrev pub found : SysData
found = record (host 0 0) { ncpu = 1; ncore = 1 }

pub cpuinfo-read : detect_topology (some cpuinfo) (host 0 0) ≡ ok (pos 0, found)
unfolding detect_topology scan_after
cpuinfo-read = refl

detect_topology-returns_example :
    detect_topology (some cpuinfo) (host 0 0) ≡ ok (pos 0, described cpuinfo (host 0 0))
detect_topology-returns_example = detect_topology-returns cpuinfo (host 0 0) cpuinfo-FitsTables

note_model-name_example : note_model (bytes "model name\t: Xeon 4\n") (pos 63) ≡ ok (pos 63)
note_model-name_example = note_model-name (bytes "Xeon 4\n") (pos 63)

cpuinfo-model : detect_cpu_model (some cpuinfo) (host 0 0) ≡ ok (pos 63, host 0 0)
unfolding detect_cpu_model scan_after
cpuinfo-model = refl

detect_nominal_frequency-Tuned_example :
    Runs
      (Tuned (λ n. n) (host 2 4) [])
      (Stopped counting)
      (detect_nominal_frequency counting (λ n. n) (host 2 4) [])
detect_nominal_frequency-Tuned_example =
    detect_nominal_frequency-Tuned counting (λ n. n) (host 2 4) [] refl tt

abbrev with_63 : SysData
with_63 = record init_pow_mon { cpu_model = pos 63; dram_supp = 1 }

init_pow_mon-model : detect_cpu_model (some cpuinfo) init_pow_mon ≡ ok (pos 63, with_63)
unfolding detect_cpu_model scan_after
init_pow_mon-model = refl

set_up-Started_example :
    Runs
      (Started
        (distinct physical_tag 3 16 cpuinfo)
        (distinct core_tag 3 1024 cpuinfo * distinct physical_tag 3 16 cpuinfo)
        [])
      (Ended counting [])
      (set_up counting
        (λ n. n)
        (λ n. replicate n cpu_data)
        (λ n. replicate n core_data)
        (some cpuinfo)
        (some cpuinfo)
        init_pow_mon
        [])
set_up-Started_example =
    set_up-Started counting (λ n. n) (λ n. replicate n cpu_data) (λ n. replicate n core_data)
      replicate-IsMalloc cpuinfo cpuinfo init_pow_mon (pos 63, with_63) [] init_pow_mon-model refl
      cpuinfo-FitsTables init_pow_mon-dies.0 init_pow_mon-dies.1 tt
