-- ===== src/EnergyApp/Final.antt =====
-- What the last reading does to the record of one package: `final_package`.
use powmon.Base.{
  ◌∷◌, ℕ, ◌+◌, ◌≡◌, ◌≢◌, refl, ap, inl, inr, ltb, ◌<◌, ◌≤◌, if◌then◌else◌, u32, arith,
}
use powmon.Machine.{Machine, Trace, rdmsr, Cmd, and_then, pure}
use powmon.Machine.Rules
use powmon.Machine.Rules.{Runs, returns}
use powmon.Msr.Addresses.{msr_pkg_energy_status, msr_dram_energy_status}
use powmon.Msr.Events.{IsSafe, Grows-refl, Grows-cons, ReadSince, ReadSince-newer, ReadSince-now}
use powmon.Msr.Laws.{Stopped, read_msr-bind}
use powmon.Leaders.Loop.{Went}
use powmon.EnergyApp.Data.{PerCpuData}
use powmon.EnergyApp.Energy.{supp-cases}
use powmon.EnergyApp.{read_dram, read_pkg, final_drams, final_package}

-- the initial values, which no later reading changes
pub record Start : Type 0 where
  pub pkg : ℕ
  pub dram : ℕ
  pub unit : ℕ
  dram_unit : ℕ

abbrev pub start_of : PerCpuData → Start
start_of c = record {
  pkg = c.pow_pkg_init;
  dram = c.pow_dram_c_init;
  unit = c.erg_u;
  dram_unit = c.erg_dram;
}

-- the record after its package counter was read again
abbrev pub pkg_read : PerCpuData → ℕ → PerCpuData
pkg_read c v = record c {
  pow_pkg_last = c.pow_pkg;
  pow_pkg = u32 v;
  pow_pkg_overflow =
      if ltb (u32 v) c.pow_pkg then u32 (c.pow_pkg_overflow + 1) else c.pow_pkg_overflow;
}

-- the record after its DRAM counter was read again
abbrev pub dram_read : PerCpuData → ℕ → PerCpuData
dram_read c v = record c {
  pow_dram_c_last = c.pow_dram_c;
  pow_dram_c = u32 v;
  pow_dram_c_overflow =
      if ltb (u32 v) c.pow_dram_c then u32 (c.pow_dram_c_overflow + 1) else c.pow_dram_c_overflow;
}

module _ {R : PerCpuData → Trace → Type 0} (m : Machine) (fd : ℕ) (c : PerCpuData) (t : Trace)
    (k : PerCpuData → Cmd PerCpuData) (safe : IsSafe t) where
  pub read_pkg-bind :
      ((v : ℕ)
        → IsSafe (rdmsr fd msr_pkg_energy_status v ∷ t)
        → Runs R (Stopped m) (k (pkg_read c v) (rdmsr fd msr_pkg_energy_status v ∷ t)))
      → Runs R (Stopped m) (and_then (read_pkg m fd c t) k)
  unfolding read_pkg
  read_pkg-bind next =
      Rules.bind
        {Q = λ c' t'. (v : ℕ) × (c' ≡ pkg_read c v) × (t' ≡ rdmsr fd msr_pkg_energy_status v ∷ t)}
        (read_msr-bind m fd _ t _ safe λ v p. returns (v, refl, refl))
        λ c' t' (v, e, e'). rw (e, e') (next v (tt, safe))

  pub read_dram-bind :
      ((v : ℕ)
        → IsSafe (rdmsr fd msr_dram_energy_status v ∷ t)
        → Runs R (Stopped m) (k (dram_read c v) (rdmsr fd msr_dram_energy_status v ∷ t)))
      → Runs R (Stopped m) (and_then (read_dram m fd c t) k)
  unfolding read_dram
  read_dram-bind next =
      Rules.bind
        {Q = λ c' t'. (v : ℕ) × (c' ≡ dram_read c v) × (t' ≡ rdmsr fd msr_dram_energy_status v ∷ t)}
        (read_msr-bind m fd _ t _ safe λ v p. returns (v, refl, refl))
        λ c' t' (v, e, e'). rw (e, e') (next v (tt, safe))

  -- the two statements of both branches
  final_dram-bind :
      ((v : ℕ)
        → IsSafe (rdmsr fd msr_dram_energy_status v ∷ t)
        → Runs R (Stopped m) (
            k
              (record (dram_read c v) { pow_dram_c_final = u32 v })
              (rdmsr fd msr_dram_energy_status v ∷ t)))
      → Runs R (Stopped m) (
          and_then
            (and_then (read_dram m fd c t) λ d. pure (record d { pow_dram_c_final = d.pow_dram_c }))
            k)
  unfolding read_dram
  final_dram-bind next =
      Rules.bind
        {Q = λ c' t'.
          (v : ℕ) × (c' ≡ record (dram_read c v) { pow_dram_c_final = u32 v })
          × (t' ≡ rdmsr fd msr_dram_energy_status v ∷ t)}
        (Rules.bind
          {Q = λ c' t'.
            (v : ℕ) × (c' ≡ dram_read c v) × (t' ≡ rdmsr fd msr_dram_energy_status v ∷ t)}
          (read_msr-bind m fd _ t _ safe λ v p. returns (v, refl, refl))
          λ c' t' (v, e, e').
            returns
              (v, ap (λ (x : PerCpuData). record x { pow_dram_c_final = x.pow_dram_c }) e, e'))
        λ c' t' (v, e, e'). rw (e, e') (next v (tt, safe))

-- The last reading of a package. Only with `dram_supp` 2 is there a final value of the DRAM counter.
pub record Finalised (dram_supp : ℕ) (old : PerCpuData) (t : Trace) (new : PerCpuData) (t' : Trace)
    : Type 0 where
  pub energy : ℕ
  pub energy_read : ReadSince msr_pkg_energy_status energy t t'
  pub pkg_final : new.pow_pkg_final ≡ u32 energy
  pub overflow : u32 energy < old.pow_pkg → new.pow_pkg_overflow ≡ u32 (old.pow_pkg_overflow + 1)
  pub no_overflow : old.pow_pkg ≤ u32 energy → new.pow_pkg_overflow ≡ old.pow_pkg_overflow
  pub dram_lost : dram_supp ≢ 2 → new.pow_dram_c_final ≡ 0
  pub dram_kept :
      dram_supp ≡ 2
      → (v : ℕ) × (new.pow_dram_c_final ≡ u32 v) × ReadSince msr_dram_energy_status v t t'

pub final_package-Runs :
    (m : Machine) (dram_supp fd : ℕ) (c : PerCpuData) (t : Trace)
    → IsSafe t
    → Runs
        (λ c' t'. Finalised dram_supp c t c' t' × (start_of c' ≡ start_of c) × Went t t')
        (Stopped m)
        (final_package m dram_supp fd c t)
unfolding final_package final_drams
final_package-Runs m dram_supp fd c t safe = read_pkg-bind m fd c t _ safe λ energy p₁.
    elim (supp-cases dram_supp) [
      | inl e ↦ rw e (
          final_dram-bind m fd (record (pkg_read c energy) { pow_pkg_final = u32 energy }) _ _ p₁
            λ v p₂. returns (
              record {
                energy = energy;
                energy_read =
                    ReadSince-newer (ReadSince-now fd msr_pkg_energy_status energy (Grows-refl t))
                      (Grows-cons _ (Grows-refl _));
                pkg_final = refl;
                overflow = λ h. ground arith;
                no_overflow = λ h. ground arith;
                dram_lost = λ _. refl;
                dram_kept = λ h. absurd (omega arith);
              },
              refl,
              (Grows-cons _ (Grows-cons _ (Grows-refl t)), p₂),
            ))
      | inr (inl e) ↦ rw e (
          read_dram-bind m fd (record (pkg_read c energy) { pow_pkg_final = u32 energy }) _ _ p₁
            λ v p₂. returns (
              record {
                energy = energy;
                energy_read =
                    ReadSince-newer (ReadSince-now fd msr_pkg_energy_status energy (Grows-refl t))
                      (Grows-cons _ (Grows-refl _));
                pkg_final = refl;
                overflow = λ h. ground arith;
                no_overflow = λ h. ground arith;
                dram_lost = λ n. absurd (n refl);
                dram_kept = λ _. (
                  v,
                  refl,
                  ReadSince-now fd msr_dram_energy_status v (Grows-cons _ (Grows-refl t)),
                );
              },
              refl,
              (Grows-cons _ (Grows-cons _ (Grows-refl t)), p₂),
            ))
      | inr (inr (not_1, not_2, ne_1, ne_2)) ↦
          rw (not_1, not_2)
            (returns (
              record {
                energy = energy;
                energy_read = ReadSince-now fd msr_pkg_energy_status energy (Grows-refl t);
                pkg_final = refl;
                overflow = λ h. ground arith;
                no_overflow = λ h. ground arith;
                dram_lost = λ _. refl;
                dram_kept = λ h. absurd (ne_2 h);
              },
              refl,
              (Grows-cons _ (Grows-refl t), p₁),
            ))
    ]
