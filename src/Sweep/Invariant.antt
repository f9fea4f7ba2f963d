-- ===== src/Sweep/Invariant.antt =====
-- The rule for an invariant of the loop over all cores, indexed by the core whose turn it is.
use mathlib.Core.Path.{subst}
use powmon.Base.{
  ℕ, zero, suc, ◌+◌, ◌<◌, ◌≡◌, refl, ap, ◌∙◌, Bool-cases, inl, inr, List, ◌∷◌, eq→==, arith,
}
use powmon.Machine.{Machine, Trace, Cmd, closed}
use powmon.Machine.Rules
use powmon.Machine.Rules.{Runs, returns}
use powmon.Msr.{read_tsc, close_msr}
use powmon.Msr.Events.{open_fds, erase, IsSafe}
use powmon.Msr.Laws.{Stopped, open_msr-bind, set_cpu_affinity-Runs}
use powmon.Leaders.{is_leader, package_of}
use powmon.Leaders.Visits.{package_of-lt}
use powmon.Sweep.{visit, every_core}

-- No descriptor was opened or closed for good, and every write was safe.
abbrev pub Tidy : Trace → Trace → Type 0
Tidy t t' = (open_fds t' ≡ open_fds t) × IsSafe t'

close_self : (n : ℕ) (xs ys : List ℕ) → xs ≡ n ∷ ys → erase n xs ≡ ys
close_self n xs ys e = rw e (rw (eq→== n n refl) refl)

module _ {S : Type 0} (m : Machine) (ncpu ncore : ℕ) (package_part : ℕ → ℕ → ℕ → S → Cmd S)
    (core_part : ℕ → ℕ → ℕ → ℕ → S → Cmd S) (I : ℕ → S → Type 0) (socket : 0 < ncore → 0 < ncpu)
    (package_part-I : (fd tsc core cpuid : ℕ) (s : S) (t : Trace)
      → cpuid < ncpu
      → I core s
      → IsSafe t
      → Runs (λ s' t'. I core s' × Tidy t t') (Stopped m) (package_part fd tsc cpuid s t))
    (core_part-I : (fd tsc core cpuid : ℕ) (s : S) (t : Trace)
      → core < ncore
      → cpuid < ncpu
      → I core s
      → IsSafe t
      → Runs
          (λ s' t'. I (core + 1) s' × Tidy t t')
          (Stopped m)
          (core_part fd tsc core cpuid s t)) where
  visit-I :
      (fd tsc core cpuid : ℕ) (s : S) (t : Trace)
      → core < ncore
      → cpuid < ncpu
      → I core s
      → IsSafe t
      → Runs
          (λ r t'. (r.0 < ncpu) × I core r.1 × Tidy t t')
          (Stopped m)
          (visit ncpu ncore package_part fd tsc core cpuid s t)
  unfolding visit
  visit-I fd tsc core cpuid s t h small i safe = elim (Bool-cases (is_leader core ncore)) [
    | inl e ↦
        let below = package_of-lt core ncpu ncore h (socket (omega arith)) in
        rw e (
          Rules.bind (package_part-I fd tsc core (package_of core ncpu ncore) s t below i safe)
            λ s' t' (i', tidy). returns (below, i', tidy))
    | inr e ↦ rw e (returns (small, i, (refl, safe)))
  ]

  -- The loop stops only at a refused access; if it returns, the invariant holds at its end.
  pub every_core-I :
      (rounds core cpuid : ℕ) (s : S) (t : Trace)
      → core + rounds ≡ ncore
      → (0 < rounds → cpuid < ncpu)
      → I core s
      → IsSafe t
      → Runs
          (λ s' t'. I ncore s' × Tidy t t')
          (Stopped m)
          (every_core m ncpu ncore package_part core_part rounds core cpuid s t)
  unfolding every_core read_tsc close_msr
  every_core-I zero core cpuid s t h small i safe =
      returns (subst (λ n. I n s) {x = core} {y = ncore} (omega arith) i, (refl, safe))
  every_core-I (suc rounds) core cpuid s t h small i safe =
      Rules.bind (set_cpu_affinity-Runs {Q = λ _. Tidy t} m core t (refl, (tt, safe)) (refl, safe))
        λ _ t₀ (fds₀, safe₀). open_msr-bind m core t₀ _ safe₀ λ fd p.
          Rules.bind (visit-I fd _ core cpuid s _ (omega arith) (small (omega arith)) i (tt, p))
            λ (cpuid', s₁) t₁ (below, i₁, tidy₁).
              Rules.bind (core_part-I fd _ core cpuid' s₁ t₁ (omega arith) below i₁ tidy₁.1)
                λ s₂ t₂ (i₂, tidy₂).
                  let fds = close_self fd _ _ (tidy₂.0 ∙ tidy₁.0 ∙ ap (λ xs. fd ∷ xs) fds₀) in
                  Rules.mono
                    (every_core-I rounds (core + 1) cpuid' s₂ (closed fd ∷ t₂) (omega arith)
                      (λ _. below) i₂ (tt, tidy₂.1))
                    λ s₃ t₃ (i₃, tidy₃). (i₃, (tidy₃.0 ∙ fds, tidy₃.1))
