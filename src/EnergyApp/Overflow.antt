-- ===== src/EnergyApp/Overflow.antt =====
-- What `read_msr_energy` does to the records: it counts how often a counter fell below its last value.
use powmon.Base.{ℕ, ◌+◌, ◌<◌, ◌≤◌, ◌≡◌, ◌≢◌, refl, inl, inr, u32, arith}
use powmon.Machine.{Machine, Trace}
use powmon.Machine.Rules
use powmon.Machine.Rules.{Runs, returns}
use powmon.Msr.Addresses.{msr_pkg_energy_status, msr_dram_energy_status}
use powmon.Msr.Events.{IsSafe, Grows-refl, Grows-cons, ReadSince, ReadSince-newer, ReadSince-now}
use powmon.Msr.Laws.{Stopped, read_msr-bind}
use powmon.Leaders.Loop.{Went, LoopStep, for_leaders-Runs}
use powmon.EnergyApp.Data.{PerCpuData, SysData}
use powmon.EnergyApp.{pin, canc_cpu_affinity, read_package, read_drams, read_dram, read_msr_energy}
use powmon.EnergyApp.Energy.{supp-cases, pin-Quiet, canc_cpu_affinity-Quiet}
use powmon.EnergyApp.Final.{start_of, pkg_read, read_pkg-bind, read_dram-bind}
use powmon.EnergyApp.Totals.{IsSized}

-- A reading of a package: a counter below its last value is one more overflow.
pub record Reread (dram_supp : ℕ) (old : PerCpuData) (t : Trace) (new : PerCpuData) (t' : Trace)
    : Type 0 where
  pub energy : ℕ
  pub energy_read : ReadSince msr_pkg_energy_status energy t t'
  pub pkg : (new.pow_pkg ≡ u32 energy) × (new.pow_pkg_last ≡ old.pow_pkg)
  pub overflow :
      (u32 energy < old.pow_pkg → new.pow_pkg_overflow ≡ u32 (old.pow_pkg_overflow + 1))
      × (old.pow_pkg ≤ u32 energy → new.pow_pkg_overflow ≡ old.pow_pkg_overflow)
  pub dram_lost : dram_supp ≢ 2 → new.pow_dram_c ≡ 0
  pub dram_kept :
      dram_supp ≡ 2
      → (v : ℕ) × ReadSince msr_dram_energy_status v t t'
        × (new.pow_dram_c ≡ u32 v)
        × (new.pow_dram_c_last ≡ old.pow_dram_c)

read_package-Reread :
    (m : Machine) (dram_supp fd : ℕ) (c : PerCpuData) (t : Trace)
    → IsSafe t
    → Runs
        (λ c' t'. Reread dram_supp c t c' t' × (start_of c' ≡ start_of c) × Went t t')
        (Stopped m)
        (read_package m dram_supp fd c t)
unfolding read_package read_drams read_dram
read_package-Reread m dram_supp fd c t safe = read_pkg-bind m fd c t _ safe λ energy p₁.
    elim (supp-cases dram_supp) [
      | inl e ↦ rw e (
          read_dram-bind m fd (pkg_read c energy) _ _ p₁ λ v p₂. returns (
            record {
              energy = energy;
              energy_read =
                  ReadSince-newer (ReadSince-now fd msr_pkg_energy_status energy (Grows-refl t))
                    (Grows-cons _ (Grows-refl _));
              pkg = (refl, refl);
              overflow = (λ h. ground arith, λ h. ground arith);
              dram_lost = λ _. refl;
              dram_kept = λ h. absurd (omega arith);
            },
            refl,
            (Grows-cons _ (Grows-cons _ (Grows-refl t)), p₂),
          ))
      | inr (inl e) ↦ rw e (
          read_msr-bind m fd _ _ _ p₁ λ v p₂. returns (
            record {
              energy = energy;
              energy_read =
                  ReadSince-newer (ReadSince-now fd msr_pkg_energy_status energy (Grows-refl t))
                    (Grows-cons _ (Grows-refl _));
              pkg = (refl, refl);
              overflow = (λ h. ground arith, λ h. ground arith);
              dram_lost = λ n. absurd (n refl);
              dram_kept = λ _. (
                v,
                ReadSince-now fd msr_dram_energy_status v (Grows-cons _ (Grows-refl t)),
                refl,
                refl,
              );
            },
            refl,
            (Grows-cons _ (Grows-cons _ (Grows-refl t)), p₂),
          ))
      | inr (inr (not_1, not_2, ne_1, ne_2)) ↦
          rw (not_1, not_2)
            (returns (
              record {
                energy = energy;
                energy_read = ReadSince-now fd msr_pkg_energy_status energy (Grows-refl t);
                pkg = (refl, refl);
                overflow = (λ h. ground arith, λ h. ground arith);
                dram_lost = λ _. refl;
                dram_kept = λ h. absurd (ne_2 h);
              },
              refl,
              (Grows-cons _ (Grows-refl t), p₁),
            ))
    ]

-- With a record for every package, `read_msr_energy` stops only at a refused access. If it returns,
-- every package that the loop visits was read last as `Reread` says, and no initial value and no
-- other package has changed.
pub read_msr_energy-Reread :
    (m : Machine) (s : SysData) (t : Trace)
    → IsSized s
    → IsSafe t
    → Runs
        (λ s' t'.
          LoopStep
            (Reread s.dram_supp)
            start_of
            s.ncpu
            s.ncore
            s.ncore
            0
            s.cpu_data
            t
            s'.cpu_data
            t')
        (Stopped m)
        (read_msr_energy m s t)
unfolding read_msr_energy
read_msr_energy-Reread m s t size safe =
    Rules.bind
      (for_leaders-Runs m s.ncpu s.ncore (pin m) (read_package m s.dram_supp)
        (canc_cpu_affinity s.ncore) (Reread s.dram_supp) start_of (pin-Quiet m)
        (canc_cpu_affinity-Quiet m s.ncore) (read_package-Reread m s.dram_supp) s.ncore 0 s.cpu_data
        t size.sized size.socket (omega arith) safe)
      λ xs u done. returns done
