-- ===== src/EnergyApp/Energy.antt =====
-- What the energy functions do to the record of one package.
use powmon.Base.{
  ◌∷◌, ℕ, ◌/◌, ◌^◌, ◌≡◌, ◌≢◌, refl, ◌⊎◌, inl, inr, bit_and, ◌==◌, ne→==, u32, arith, false, zero,
  suc,
}
use powmon.Machine.{Machine, Trace, rdmsr, Cmd, and_then}
use powmon.Machine.Rules
use powmon.Machine.Rules.{Runs, returns}
use powmon.Msr.Addresses.{msr_rapl_power_unit, msr_pkg_energy_status, msr_dram_energy_status}
use powmon.Msr.Events.{IsSafe, Grows-refl, Grows-cons, ReadSince, ReadSince-newer, ReadSince-now}
use powmon.Msr.Laws.{Stopped, read_msr-bind, set_cpu_affinity-Runs}
use powmon.Leaders.Loop.{Went, Quiet}
use powmon.EnergyApp.Data.{PerCpuData}
use powmon.EnergyApp.{canc_cpu_affinity, pin, init_dram, init_drams, init_package}

pub pin-Quiet : (m : Machine) (core : ℕ) → Quiet m (pin m core)
pin-Quiet m core t safe =
    Rules.bind
      (set_cpu_affinity-Runs {Q = λ _. Went t} m core t (Grows-cons _ (Grows-refl t), (tt, safe))
        (Grows-refl t, safe))
      λ _ t' w. returns w

pub canc_cpu_affinity-Quiet : (m : Machine) (ncore : ℕ) → Quiet m (canc_cpu_affinity ncore)
unfolding canc_cpu_affinity
canc_cpu_affinity-Quiet m ncore t safe = returns (Grows-cons _ (Grows-refl t), (tt, safe))

-- The first reading of a package. With `dram_supp` 1 the DRAM counter just read is cleared again,
-- and only its initial value stays.
pub record Initialised (dram_supp : ℕ) (old : PerCpuData) (t : Trace) (new : PerCpuData)
    (t' : Trace) : Type 0 where
  pub unit : ℕ
  pub unit_read : ReadSince msr_rapl_power_unit unit t t'
  pub erg_u : new.erg_u ≡ bit_and (unit / 2 ^ 8) 0x1e
  pub energy : ℕ
  pub energy_read : ReadSince msr_pkg_energy_status energy t t'
  pub pkg_init : new.pow_pkg_init ≡ u32 energy
  pub pkg_now : new.pow_pkg ≡ u32 energy
  pub no_overflow : (new.pow_pkg_overflow ≡ 0) × (new.pow_dram_c_overflow ≡ 0)
  pub dram_off : dram_supp ≢ 1 → dram_supp ≢ 2 → new.pow_dram_c_init ≡ old.pow_dram_c_init
  pub dram_lost : dram_supp ≡ 1 → (new.pow_dram_c ≡ 0) × (new.erg_dram ≡ new.erg_u)
  pub dram_kept : dram_supp ≡ 2 → (new.pow_dram_c ≡ new.pow_dram_c_init) × (new.erg_dram ≡ 16)
  pub dram_read :
      (dram_supp ≡ 1) ⊎ (dram_supp ≡ 2)
      → (v : ℕ) × (new.pow_dram_c_init ≡ u32 v) × ReadSince msr_dram_energy_status v t t'

pub supp-cases :
    (n : ℕ) → (n ≡ 1) ⊎ (n ≡ 2) ⊎ (((n == 1) ≡ false) × ((n == 2) ≡ false) × (n ≢ 1) × (n ≢ 2))
supp-cases zero = inr (inr (refl, refl, omega arith, omega arith))
supp-cases (suc zero) = inl refl
supp-cases (suc (suc zero)) = inr (inl refl)
supp-cases (suc (suc (suc n))) =
    inr (inr (ne→== _ 1 (omega arith), ne→== _ 2 (omega arith), omega arith, omega arith))

init_dram-bind :
    {R : PerCpuData → Trace → Type 0} (m : Machine) (fd erg_dram : ℕ) (c : PerCpuData) (t : Trace)
    (k : PerCpuData → Cmd PerCpuData)
    → IsSafe t
    → ((v : ℕ)
        → IsSafe (rdmsr fd msr_dram_energy_status v ∷ t)
        → Runs R (Stopped m) (
            k
              (record c {
                pow_dram_c_last = c.pow_dram_c;
                pow_dram_c = u32 v;
                pow_dram_c_init = u32 v;
                erg_dram = erg_dram;
              })
              (rdmsr fd msr_dram_energy_status v ∷ t)))
    → Runs R (Stopped m) (and_then (init_dram m fd erg_dram c t) k)
unfolding init_dram
init_dram-bind m fd erg_dram c t k safe next =
    Rules.bind
      {Q = λ c' t'.
        (v : ℕ) × (c' ≡ record c {
          pow_dram_c_last = c.pow_dram_c;
          pow_dram_c = u32 v;
          pow_dram_c_init = u32 v;
          erg_dram = erg_dram;
        })
        × (t' ≡ rdmsr fd msr_dram_energy_status v ∷ t)}
      (read_msr-bind m fd _ t _ safe λ v p. returns (v, refl, refl))
      λ c' t' (v, e, e'). rw (e, e') (next v (tt, safe))

-- the record when the DRAM counter is read for the first time
abbrev cleared : ℕ → ℕ → PerCpuData → PerCpuData
cleared unit energy c = record c {
  pow_pkg_overflow = 0;
  pow_dram_c_overflow = 0;
  pow_dram_c = 0;
  erg_u = bit_and (unit / 2 ^ 8) 0x1e;
  pow_pkg_last = 0;
  pow_pkg = u32 energy;
  pow_pkg_init = u32 energy;
}

pub init_package-Runs :
    (m : Machine) (dram_supp fd : ℕ) (c : PerCpuData) (t : Trace)
    → IsSafe t
    → Runs
        (λ c' t'. Initialised dram_supp c t c' t' × (tt ≡ tt) × Went t t')
        (Stopped m)
        (init_package m dram_supp fd c t)
unfolding init_package init_drams init_dram
init_package-Runs m dram_supp fd c t safe = read_msr-bind m fd _ t _ safe λ unit p₀.
    read_msr-bind m fd _ _ _ p₀ λ energy p₁. elim (supp-cases dram_supp) [
      | inl e ↦ rw e (
          init_dram-bind m fd _ (cleared unit energy c) _ _ p₁ λ v p₂. returns (
            record {
              unit = unit;
              unit_read =
                  ReadSince-newer (ReadSince-now fd msr_rapl_power_unit unit (Grows-refl t))
                    (Grows-cons _ (Grows-cons _ (Grows-refl _)));
              erg_u = refl;
              energy = energy;
              energy_read =
                  ReadSince-newer
                    (ReadSince-now fd msr_pkg_energy_status energy (Grows-cons _ (Grows-refl t)))
                    (Grows-cons _ (Grows-refl _));
              pkg_init = refl;
              pkg_now = refl;
              no_overflow = (refl, refl);
              dram_off = λ n _. absurd (n refl);
              dram_lost = λ _. (refl, refl);
              dram_kept = λ h. absurd (omega arith);
              dram_read = λ _. (
                v,
                refl,
                ReadSince-now fd msr_dram_energy_status v
                    (Grows-cons _ (Grows-cons _ (Grows-refl t))),
              );
            },
            refl,
            (Grows-cons _ (Grows-cons _ (Grows-cons _ (Grows-refl t))), p₂),
          ))
      | inr (inl e) ↦ rw e (
          read_msr-bind m fd _ _ _ p₁ λ v p₂. returns (
            record {
              unit = unit;
              unit_read =
                  ReadSince-newer (ReadSince-now fd msr_rapl_power_unit unit (Grows-refl t))
                    (Grows-cons _ (Grows-cons _ (Grows-refl _)));
              erg_u = refl;
              energy = energy;
              energy_read =
                  ReadSince-newer
                    (ReadSince-now fd msr_pkg_energy_status energy (Grows-cons _ (Grows-refl t)))
                    (Grows-cons _ (Grows-refl _));
              pkg_init = refl;
              pkg_now = refl;
              no_overflow = (refl, refl);
              dram_off = λ _ n. absurd (n refl);
              dram_lost = λ h. absurd (omega arith);
              dram_kept = λ _. (refl, refl);
              dram_read = λ _. (
                v,
                refl,
                ReadSince-now fd msr_dram_energy_status v
                    (Grows-cons _ (Grows-cons _ (Grows-refl t))),
              );
            },
            refl,
            (Grows-cons _ (Grows-cons _ (Grows-cons _ (Grows-refl t))), p₂),
          ))
      | inr (inr (not_1, not_2, ne_1, ne_2)) ↦
          rw (not_1, not_2)
            (returns (
              record {
                unit = unit;
                unit_read =
                    ReadSince-newer (ReadSince-now fd msr_rapl_power_unit unit (Grows-refl t))
                      (Grows-cons _ (Grows-refl _));
                erg_u = refl;
                energy = energy;
                energy_read =
                    ReadSince-newer
                      (ReadSince-now fd msr_pkg_energy_status energy (Grows-cons _ (Grows-refl t)))
                      (Grows-refl _);
                pkg_init = refl;
                pkg_now = refl;
                no_overflow = (refl, refl);
                dram_off = λ _ _. refl;
                dram_lost = λ h. absurd (ne_1 h);
                dram_kept = λ h. absurd (ne_2 h);
                dram_read = λ h. absurd (omega arith);
              },
              refl,
              (Grows-cons _ (Grows-cons _ (Grows-refl t)), p₁),
            ))
    ]
