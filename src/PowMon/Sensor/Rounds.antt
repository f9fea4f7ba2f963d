-- ===== src/PowMon/Sensor/Rounds.antt =====
-- What a whole run of the loop does to every core and every package.
use powmon.Base.{
  List, ℕ, zero, suc, ◌+◌, ◌≤◌, ◌<◌, ◌≡◌, refl, sym, ap, ◌∙◌, ◌∷◌, arith, get_elem?,
  get_elem?-set_self, get_elem?-set_ne, length, length-set, eq→==,
}
use powmon.Machine.{Machine, Trace, closed}
use powmon.Machine.Rules
use powmon.Machine.Rules.{Runs, returns}
use powmon.Msr.{close_msr, read_tsc}
use powmon.Msr.Addresses.{max_packages}
use powmon.Msr.Events.{open_fds, erase, IsSafe, Grows, Grows-refl, Grows-cons, Grows-trans}
use powmon.Msr.Laws.{Stopped, open_msr-bind, set_cpu_affinity-Runs}
use powmon.PowMon.Data.{SysData}
use powmon.PowMon.Sensor.{sweep}
use powmon.PowMon.Sensor.Core.{CoreStep, CoreStep-open_fds, CoreStep-Grows, read_core-Runs}
use powmon.PowMon.Sensor.Sweep.{IsReady, VisitStep, visit_package-Runs}
use powmon.Leaders.Visits.{visits}
use powmon.PowMon.Sensor.Step.{RoundStep, SweepStep, Sampled-later, Sampled-earlier, join_rounds}

CoreStep-IsReady :
    {fd tsc core cpuid ncpu ncore : ℕ} {s s' : SysData} {t t' : Trace}
    → CoreStep fd tsc core cpuid s t s' t'
    → IsReady ncpu ncore s
    → IsReady ncpu ncore s'
CoreStep-IsReady {core} {s} c r = record {
  ncpu_is = ap (λ (x : SysData). x.ncpu) c.now ∙ r.ncpu_is;
  ncore_is = ap (λ (x : SysData). x.ncore) c.now ∙ r.ncore_is;
  cpus = ap (λ (x : SysData). length x.cpu_data) c.now ∙ r.cpus;
  cores =
      ap (λ (x : SysData). length x.core_data) c.now ∙ length-set s.core_data core c.new ∙ r.cores;
  dies = ap (λ (x : SysData). length x.die_temp) c.now ∙ r.dies;
  dies_en = ap (λ (x : SysData). length x.die_temp_en) c.now ∙ r.dies_en;
  fits = r.fits;
  socket = r.socket;
}

close_self : (n : ℕ) (xs ys : List ℕ) → xs ≡ n ∷ ys → erase n xs ≡ ys
close_self n xs ys e = rw e (rw (eq→== n n refl) refl)

abbrev Pinned : Trace → Trace → Type 0
Pinned t t' = (open_fds t' ≡ open_fds t) × IsSafe t' × Grows t t'

-- The two halves of a round, and the `close` after them.
join_halves :
    {ncpu ncore fd tsc core cpuid : ℕ} {s s₁ s₂ : SysData} {t t₀ t₁ t₂ : Trace}
    → Grows t t₀
    → open_fds t₀ ≡ fd ∷ open_fds t
    → core < ncore
    → VisitStep ncpu ncore core s t₀ (cpuid, s₁) t₁
    → CoreStep fd tsc core cpuid s₁ t₁ s₂ t₂
    → RoundStep ncpu ncore core s t s₂ (closed fd ∷ t₂)
join_halves {fd} {core} {s} {s₁} {t} g opens h v c = record {
  ready = CoreStep-IsReady c v.ready;
  moved = record {
    old = c.old;
    new = c.new;
    was = ap (λ xs. get_elem? xs core) (sym v.cores_same) ∙ c.was;
    now =
        ap (λ (x : SysData). get_elem? x.core_data core) c.now
        ∙ get_elem?-set_self s₁.core_data core c.new (omega (arith, v.ready.cores));
    shifted = c.shifted;
  };
  same = λ i ne.
      ap (λ (x : SysData). get_elem? x.core_data i) c.now
      ∙ get_elem?-set_ne s₁.core_data core i c.new (λ e. ne (sym e))
      ∙ ap (λ xs. get_elem? xs i) v.cores_same;
  idle = λ j miss. ap (λ (x : SysData). get_elem? x.cpu_data j) c.now ∙ v.idle j miss;
  sampled = λ j found. Sampled-earlier refl g (
      Sampled-later (v.sampled j found) (ap (λ (x : SysData). get_elem? x.cpu_data j) c.now)
        (Grows-cons _ (CoreStep-Grows c)));
  fds = close_self fd _ _ (CoreStep-open_fds c ∙ v.fds ∙ opens);
  safe = (tt, c.safe);
  grows = Grows-trans g (Grows-trans v.grows (Grows-cons _ (CoreStep-Grows c)));
}

-- For every machine and every prepared state the loop never faults. If it returns, it has treated
-- the cores and the packages as `SweepStep` says; otherwise it has stopped at a failed access.
pub sweep-Runs :
    (m : Machine) (ncpu ncore rounds core cpuid : ℕ) (s : SysData) (t : Trace)
    → IsReady ncpu ncore s
    → core + rounds ≤ ncore
    → cpuid < max_packages
    → IsSafe t
    → Runs (SweepStep ncpu ncore rounds core s t) (Stopped m) (sweep m rounds core cpuid s t)
unfolding sweep visits read_tsc close_msr
sweep-Runs m ncpu ncore zero core cpuid s t ready h small safe = returns (record {
  ready = ready;
  moved = λ i low high. absurd (omega arith);
  same = λ i _. refl;
  idle = λ j _. refl;
  once = λ j one. absurd (omega arith);
  twice = λ j two. absurd (omega arith);
  fds = refl;
  safe = safe;
  grows = Grows-refl t;
})
sweep-Runs m ncpu ncore (suc rounds) core cpuid s t ready h small safe =
    Rules.bind
      (set_cpu_affinity-Runs {Q = λ _. Pinned t} m core t
        (refl, (tt, safe), Grows-cons _ (Grows-refl t)) (refl, safe, Grows-refl t))
      λ _ t₀ (fds₀, safe₀, grows₀). open_msr-bind m core t₀ _ safe₀ λ fd p.
        Rules.bind
          (visit_package-Runs m fd _ core cpuid ncpu ncore s _ ready (omega arith) small (tt, p))
          λ (cpuid', s₁) t₁ v.
            Rules.bind
              (read_core-Runs m fd _ core cpuid' s₁ t₁ (omega (arith, v.ready.cores))
                (omega (arith, v.cpuid_fits, v.ready.dies)) v.safe)
              λ s₂ t₂ c.
                let round =
                  join_halves (Grows-trans grows₀ (Grows-cons _ (Grows-cons _ (Grows-refl _))))
                    (ap (λ xs. fd ∷ xs) fds₀) (omega arith) v c in
                Rules.mono
                  (sweep-Runs m ncpu ncore rounds (core + 1) cpuid' s₂ (closed fd ∷ t₂) round.ready
                    (omega arith) v.cpuid_fits round.safe)
                  λ s₃ t₃ rest. join_rounds round rest
