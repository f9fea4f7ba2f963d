-- ===== src/Leaders/Loop.antt =====
-- What a loop over the leaders does to the packages, given what it does to one.
use mathlib.Core.Path.{subst}
use mathlib.Core.Option
use native.Mathlib.Decide.{dec_lt, ℕ_discrete}
use powmon.Base.{
  ◌⊎◌, ℕ, zero, suc, ◌+◌, ◌≤◌, ◌<◌, ◌≡◌, refl, ap, ◌∙◌, inl, inr, Bool-cases, some, List, ◌∷◌,
  arith, get_elem?, get_elem?-set_self, get_elem?-set_ne, ◌≢◌, set, length, length-set,
}
use powmon.Machine.{Machine, Trace, Cmd, opened}
use powmon.Machine.Rules
use powmon.Machine.Rules.{Runs, returns}
use powmon.Msr.Events.{IsSafe, Grows, Grows-refl, Grows-cons, Grows-trans}
use powmon.Msr.Laws.{Stopped, open_msr-bind, checked-bind}
use powmon.Leaders.{is_leader, package_of, treat, for_leaders}
use powmon.Leaders.Visits.{hit-other, hit-same, hit-idle, hit-cases, visits, package_of-lt}

one_of : {n : ℕ} → (n ≡ 0) ⊎ (n ≡ 1) → n ≢ 0 → n ≡ 1
one_of c h = omega arith

not_one : {n : ℕ} → (n ≡ 0) ⊎ (n ≡ 1) → n ≢ 1 → n ≡ 0
not_one c h = omega arith

-- The trace grew, with only safe writes.
abbrev pub Went : Trace → Trace → Type 0
Went t t' = Grows t t' × IsSafe t'

kept_set :
    {C K : Type 0} (key : C → K) (xs : List C) (i : ℕ) {c c' : C}
    → get_elem? xs i ≡ some c
    → key c' ≡ key c
    → i < length xs
    → (j : ℕ) → Option.map key (get_elem? (set xs i c') j) ≡ Option.map key (get_elem? xs j)
kept_set key xs i {c} {c'} was same h j = elim (ℕ_discrete i j) [
  | yes e ↦
      subst (λ k. Option.map key (get_elem? (set xs i c') k) ≡ Option.map key (get_elem? xs k)) e
        (rw (get_elem?-set_self xs i c' h, was) (ap some same))
  | no ne ↦ ap (Option.map key) (get_elem?-set_ne xs i j c' ne)
]

-- A command that may stop only at a refused access, and otherwise extends the trace.
abbrev pub Quiet : Machine → Cmd (Unit {0}) → Type 0
Quiet m k = (t : Trace) → IsSafe t → Runs (λ _. Went t) (Stopped m) (k t)

module _ {C : Type 0} (Q : C → Trace → C → Trace → Type 0) where
  -- The record of `j` was treated between `t` and `t'`; `old` is the record just before.
  pub record Treated (j : ℕ) (t : Trace) (xs' : List C) (t' : Trace) : Type 0 where
    pub old : C
    pub new : C
    pub now : get_elem? xs' j ≡ some new
    pub from : Trace
    pub to : Trace
    pub done : Q old from new to
    pub since : Grows t from
    pub until : Grows to t'

module _ {C K : Type 0} (Q : C → Trace → C → Trace → Type 0) (key : C → K) where
  -- What the rounds from `core` on have done: `key` is what no treatment changes of a record.
  pub record LoopStep (ncpu ncore rounds core : ℕ) (xs : List C) (t : Trace) (xs' : List C)
      (t' : Trace) : Type 0 where
    pub size : length xs' ≡ length xs
    pub idle : (j : ℕ) → visits j ncpu ncore rounds core ≡ 0 → get_elem? xs' j ≡ get_elem? xs j
    pub treated : (j : ℕ) → 0 < visits j ncpu ncore rounds core → Treated Q j t xs' t'
    pub kept : (j : ℕ) → Option.map key (get_elem? xs' j) ≡ Option.map key (get_elem? xs j)
    pub went : Went t t'

module _ {C K : Type 0} (m : Machine) (ncpu ncore : ℕ) (before : ℕ → Cmd (Unit {0}))
    (body : ℕ → C → Cmd C) (after : Cmd (Unit {0})) (Q : C → Trace → C → Trace → Type 0)
    (key : C → K) (quiet_before : (core : ℕ) → Quiet m (before core)) (quiet_after : Quiet m after)
    (body-Q : (fd : ℕ) (c : C) (t : Trace)
      → IsSafe t
      → Runs (λ c' t'. Q c t c' t' × (key c' ≡ key c) × Went t t') (Stopped m) (body fd c t)) where
  treat-Runs :
      (core cpuid : ℕ) (xs : List C) (t : Trace)
      → cpuid < length xs
      → IsSafe t
      → Runs
          (λ xs' t'.
            Treated Q cpuid t xs' t'
            × ((j : ℕ) → cpuid ≢ j → get_elem? xs' j ≡ get_elem? xs j)
            × (length xs' ≡ length xs)
            × ((j : ℕ) → Option.map key (get_elem? xs' j) ≡ Option.map key (get_elem? xs j))
            × Went t t')
          (Stopped m)
          (treat m ncpu ncore before body after core cpuid xs t)
  unfolding treat
  treat-Runs core cpuid xs t h safe = Rules.bind (quiet_before core t safe) λ _ t₀ (g₀, safe₀).
      open_msr-bind m core t₀ _ safe₀ λ fd p. checked-bind xs cpuid _ _ h λ c was.
        Rules.bind (body-Q fd c (opened core fd ∷ t₀) p) λ c' t₁ (q, same, w₁).
          Rules.bind (quiet_after t₁ w₁.1) λ _ t₂ (g₂, safe₂). returns (
            record {
              old = c;
              new = c';
              now = get_elem?-set_self xs cpuid c' h;
              from = opened core fd ∷ t₀;
              to = t₁;
              done = q;
              since = Grows-cons _ g₀;
              until = g₂;
            },
            (λ j ne. get_elem?-set_ne xs cpuid j c' ne),
            length-set xs cpuid c',
            kept_set key xs cpuid was same h,
            (Grows-trans (Grows-cons _ g₀) (Grows-trans w₁.0 g₂), safe₂),
          )

  Treated-later :
      {j : ℕ} {t t' : Trace} {ys xs' : List C} {u : Trace}
      → Treated Q j t ys u
      → get_elem? xs' j ≡ get_elem? ys j
      → Grows u t'
      → Treated Q j t xs' t'
  Treated-later p e g = record {
    old = p.old;
    new = p.new;
    now = e ∙ p.now;
    from = p.from;
    to = p.to;
    done = p.done;
    since = p.since;
    until = Grows-trans p.until g;
  }

  Treated-earlier :
      {j : ℕ} {t t' u : Trace} {xs' : List C}
      → Grows t u
      → Treated Q j u xs' t'
      → Treated Q j t xs' t'
  Treated-earlier g p = record {
    old = p.old;
    new = p.new;
    now = p.now;
    from = p.from;
    to = p.to;
    done = p.done;
    since = Grows-trans g p.since;
    until = p.until;
  }

  -- The loop never faults where there is a record for every package. If it returns, every package
  -- that it visits has been treated, last by the round that comes last, and no other is changed.
  pub for_leaders-Runs :
      (rounds core : ℕ) (xs : List C) (t : Trace)
      → length xs ≡ ncpu
      → (0 < ncore → 0 < ncpu)
      → core + rounds ≤ ncore
      → IsSafe t
      → Runs
          (LoopStep Q key ncpu ncore rounds core xs t)
          (Stopped m)
          (for_leaders m ncpu ncore before body after rounds core xs t)
  unfolding for_leaders visits
  for_leaders-Runs zero core xs t size socket h safe = returns (record {
    size = refl;
    idle = λ j _. refl;
    treated = λ j some_visit. absurd (omega arith);
    kept = λ j. refl;
    went = (Grows-refl t, safe);
  })
  for_leaders-Runs (suc rounds) core xs t size socket h safe =
      elim (Bool-cases (is_leader core ncore)) [
        | inl e ↦
            let own = package_of core ncpu ncore in
            let below = package_of-lt core ncpu ncore (omega arith) (socket (omega arith)) in
            rw e (
              Rules.bind (treat-Runs core own xs t (omega (arith, below)) safe)
                λ ys u (done, others, size', kept, went).
                  Rules.mono
                    (for_leaders-Runs rounds (core + 1) ys u (size' ∙ size) socket (omega arith)
                      went.1)
                    λ xs' t' r. record {
                      size = r.size ∙ size';
                      kept = λ j. r.kept j ∙ kept j;
                      idle = λ j idle.
                          r.idle j (omega arith)
                          ∙ others j (hit-other j ncpu ncore core e (omega arith));
                      treated = λ j busy. elim (dec_lt 0 (visits j ncpu ncore rounds (core + 1))) [
                        | yes later ↦ Treated-earlier went.0 (r.treated j later)
                        | no never ↦
                            let same =
                              hit-same j ncpu ncore core e
                                (one_of (hit-cases j ncpu ncore core) (omega arith)) in
                            Treated-later (subst (λ k. Treated Q k t ys u) same done)
                              (r.idle j (omega arith)) r.went.0
                      ];
                      went = (Grows-trans went.0 r.went.0, r.went.1);
                    })
        | inr e ↦ rw e (
            Rules.mono (for_leaders-Runs rounds (core + 1) xs t size socket (omega arith) safe)
              λ xs' t' r. record {
                size = r.size;
                idle = λ j idle. r.idle j (omega arith);
                treated = λ j busy. r.treated j (
                    omega (
                      arith,
                      not_one (hit-cases j ncpu ncore core) (hit-idle j ncpu ncore core e),
                    ));
                kept = r.kept;
                went = r.went;
              })
      ]
