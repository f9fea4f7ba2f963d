-- ===== src/PowMpi/Final.antt =====
-- What the last reading of powmpi does to the record of one package, and what its two sweeps find.
use powmon.Base.{◌∷◌, ℕ, ◌+◌, ◌≡◌, ◌≢◌, refl, inl, inr, ltb, if◌then◌else◌, u32, arith, ◌∙◌}
use powmon.Machine.{Machine, Trace, rdmsr, and_then, pure, Cmd}
use powmon.Machine.Rules
use powmon.Machine.Rules.{Runs, returns}
use powmon.Msr.Addresses.{msr_pkg_energy_status, msr_dram_energy_status}
use powmon.Msr.Events.{
  IsSafe, Grows-refl, Grows-cons, Grows-trans, ReadSince, ReadSince-older, ReadSince-newer,
  ReadSince-now,
}
use powmon.Msr.Laws.{Stopped, read_msr-bind}
use powmon.Leaders.Loop.{Went, Quiet, for_leaders-Runs}
use powmon.EnergyApp.Data.{PerCpuData, SysData}
use powmon.EnergyApp.{init_package}
use powmon.EnergyApp.Energy.{Initialised, init_package-Runs, supp-cases}
use powmon.EnergyApp.Final.{Finalised, start_of, read_dram-bind}
use powmon.EnergyApp.Totals.{IsSized, Swept}
use powmon.PowMpi.{nothing, final_package, final_drams, final_pkg, init_msr_data, final_msr_energy}

-- the record after the last reading of the package counter
abbrev pkg_final : PerCpuData → ℕ → PerCpuData
pkg_final c v = record c {
  pow_pkg_last = c.pow_pkg;
  pow_pkg_final = u32 v;
  pow_pkg_overflow =
      if ltb (u32 v) c.pow_pkg then u32 (c.pow_pkg_overflow + 1) else c.pow_pkg_overflow;
}

final_pkg-bind :
    {R : PerCpuData → Trace → Type 0} (m : Machine) (fd : ℕ) (c : PerCpuData) (t : Trace)
    (k : PerCpuData → Cmd PerCpuData)
    → IsSafe t
    → ((v : ℕ)
        → IsSafe (rdmsr fd msr_pkg_energy_status v ∷ t)
        → Runs R (Stopped m) (k (pkg_final c v) (rdmsr fd msr_pkg_energy_status v ∷ t)))
    → Runs R (Stopped m) (and_then (final_pkg m fd c t) k)
unfolding final_pkg
final_pkg-bind m fd c t k safe next =
    Rules.bind
      {Q = λ c' t'. (v : ℕ) × (c' ≡ pkg_final c v) × (t' ≡ rdmsr fd msr_pkg_energy_status v ∷ t)}
      (read_msr-bind m fd _ t _ safe λ v p. returns (v, refl, refl))
      λ c' t' (v, e, e'). rw (e, e') (next v (tt, safe))

-- What the readings of the DRAM counter leave of a record that has its last package value.
record Drams (dram_supp : ℕ) (c : PerCpuData) (t : Trace) (c' : PerCpuData) (t' : Trace)
    : Type 0 where
  kept : (c'.pow_pkg_final ≡ c.pow_pkg_final) × (c'.pow_pkg_overflow ≡ c.pow_pkg_overflow)
  start : start_of c' ≡ start_of c
  lost : dram_supp ≢ 2 → c'.pow_dram_c_final ≡ 0
  found :
      dram_supp ≡ 2
      → (v : ℕ) × (c'.pow_dram_c_final ≡ u32 v) × ReadSince msr_dram_energy_status v t t'
  went : Went t t'

final_drams-Drams :
    (m : Machine) (dram_supp fd : ℕ) (c : PerCpuData) (t : Trace)
    → IsSafe t
    → Runs (Drams dram_supp c t) (Stopped m) (final_drams m fd dram_supp c t)
unfolding final_drams
final_drams-Drams m dram_supp fd c t safe = elim (supp-cases dram_supp) [
  | inl e ↦ rw e (
      Rules.bind
        {Q = λ c' t'.
          (w : Went t t') × (start_of c' ≡ start_of c)
          × (c'.pow_pkg_final ≡ c.pow_pkg_final)
          × (c'.pow_pkg_overflow ≡ c.pow_pkg_overflow)}
        (read_dram-bind m fd c t _ safe λ v p.
          read_msr-bind m fd msr_dram_energy_status _ _ p
            λ v' p'. returns ((Grows-cons _ (Grows-cons _ (Grows-refl t)), p'), refl, refl, refl))
        λ c' t' (w, start, final, overflow). returns (record {
          kept = (final, overflow);
          start = start;
          lost = λ _. refl;
          found = λ h. absurd (omega arith);
          went = w;
        }))
  | inr (inl e) ↦ rw e (
      read_dram-bind m fd c t _ safe λ v p. returns (record {
        kept = (refl, refl);
        start = refl;
        lost = λ n. absurd (n refl);
        found = λ _. (v, refl, ReadSince-now fd msr_dram_energy_status v (Grows-refl t));
        went = (Grows-cons _ (Grows-refl t), p);
      }))
  | inr (inr (not_1, not_2, ne_1, ne_2)) ↦
      rw (not_1, not_2)
        (returns (record {
          kept = (refl, refl);
          start = refl;
          lost = λ _. refl;
          found = λ h. absurd (ne_2 h);
          went = (Grows-refl t, safe);
        }))
]

-- The last reading of a package by powmpi leaves of the record what that of energy-app does.
pub final_package-Runs :
    (m : Machine) (dram_supp fd : ℕ) (c : PerCpuData) (t : Trace)
    → IsSafe t
    → Runs
        (λ c' t'. Finalised dram_supp c t c' t' × (start_of c' ≡ start_of c) × Went t t')
        (Stopped m)
        (final_package m dram_supp fd c t)
unfolding final_package
final_package-Runs m dram_supp fd c t safe = final_pkg-bind m fd c t _ safe λ energy p.
    let u = rdmsr fd msr_pkg_energy_status energy ∷ t in
    Rules.mono (final_drams-Drams m dram_supp fd (pkg_final c energy) u p) λ c' t' d. (
      record {
        energy = energy;
        energy_read =
            ReadSince-newer (ReadSince-now fd msr_pkg_energy_status energy (Grows-refl t)) d.went.0;
        pkg_final = d.kept.0;
        overflow = λ h. d.kept.1 ∙ ground arith;
        no_overflow = λ h. d.kept.1 ∙ ground arith;
        dram_lost = d.lost;
        dram_kept = λ h.
            let (v, is, read) = d.found h in
            (v, is, ReadSince-older (Grows-cons _ (Grows-refl t)) read);
      },
      d.start,
      (Grows-trans (Grows-cons _ (Grows-refl t)) d.went.0, d.went.1),
    )

nothing-Quiet : (m : Machine) (core : ℕ) → Quiet m (nothing core)
nothing-Quiet m core t safe = returns (Grows-refl t, safe)

module _ (m : Machine) (s : SysData) (t : Trace) (size : IsSized s) (safe : IsSafe t) where
  pub init_msr_data-Swept :
      Runs (Swept (Initialised s.dram_supp) (λ _. tt) s t) (Stopped m) (init_msr_data m s t)
  unfolding init_msr_data
  init_msr_data-Swept =
      Rules.bind
        (for_leaders-Runs m s.ncpu s.ncore nothing (init_package m s.dram_supp) (pure tt)
          (Initialised s.dram_supp) (λ _. tt) (nothing-Quiet m) (nothing-Quiet m 0)
          (init_package-Runs m s.dram_supp) s.ncore 0 s.cpu_data t size.sized size.socket
          (omega arith) safe)
        λ xs u done. returns (record { frame = refl; loop = done })

  pub final_msr_energy-Swept :
      Runs (Swept (Finalised s.dram_supp) start_of s t) (Stopped m) (final_msr_energy m s t)
  unfolding final_msr_energy
  final_msr_energy-Swept =
      Rules.bind
        (for_leaders-Runs m s.ncpu s.ncore nothing (final_package m s.dram_supp) (pure tt)
          (Finalised s.dram_supp) start_of (nothing-Quiet m) (nothing-Quiet m 0)
          (final_package-Runs m s.dram_supp) s.ncore 0 s.cpu_data t size.sized size.socket
          (omega arith) safe)
        λ xs u done. returns (record { frame = refl; loop = done })
