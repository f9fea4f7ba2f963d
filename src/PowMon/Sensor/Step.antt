-- ===== src/PowMon/Sensor/Step.antt =====
-- What a round of the sweep over the cores in powmon/bin/sensor_read_lib.c does to the records, and
-- how a round and the rounds after it are joined.
use mathlib.Core.Path.{subst}
use mathlib.Core.Option.{some-injective}
use native.Mathlib.Decide.{dec_lt}
use powmon.Base.{
  ℕ, suc, ◌+◌, ◌≤◌, ◌<◌, ◌≡◌, sym, ap, ◌∙◌, ◌≢◌, inl, inr, some, arith, get_elem?, u32,
}
use powmon.Machine.{Trace}
use powmon.Msr.Addresses.{msr_pkg_energy_status}
use powmon.Msr.Events.{
  open_fds, IsSafe, Grows, Grows-trans, ReadSince, ReadSince-older, ReadSince-newer,
}
use powmon.PowMon.Data.{PerCoreData, PerCpuData, SysData}
use powmon.PowMon.Sensor.Core.{Shifted}
use powmon.PowMon.Sensor.Sweep.{IsReady, Sampled}
use powmon.Leaders.Visits.{hit, hit-cases, visits}

-- Core `i` was sampled: every counter was moved to its `_last` field.
pub record Moved (i : ℕ) (s s' : SysData) : Type 0 where
  pub old : PerCoreData
  pub new : PerCoreData
  pub was : get_elem? s.core_data i ≡ some old
  pub now : get_elem? s'.core_data i ≡ some new
  pub shifted : Shifted old new

-- What `pow_pkg_last` of package `j` holds was read in this very sweep.
pub record Overwritten (j : ℕ) (t : Trace) (s' : SysData) (t' : Trace) : Type 0 where
  pub new : PerCpuData
  pub now : get_elem? s'.cpu_data j ≡ some new
  pub energy : ℕ
  last_is : new.pow_pkg_last ≡ u32 energy
  pub seen : ReadSince msr_pkg_energy_status energy t t'

-- The state after the rounds from `core` on.
pub record SweepStep (ncpu ncore rounds core : ℕ) (s : SysData) (t : Trace) (s' : SysData)
    (t' : Trace) : Type 0 where
  pub ready : IsReady ncpu ncore s'
  pub moved : (i : ℕ) → core ≤ i → i < core + rounds → Moved i s s'
  pub same : (i : ℕ) → i < core → get_elem? s'.core_data i ≡ get_elem? s.core_data i
  pub idle :
      (j : ℕ)
      → visits j ncpu ncore rounds core ≡ 0
      → get_elem? s'.cpu_data j ≡ get_elem? s.cpu_data j
  pub once : (j : ℕ) → visits j ncpu ncore rounds core ≡ 1 → Sampled j s t s' t'
  pub twice : (j : ℕ) → visits j ncpu ncore rounds core ≡ 2 → Overwritten j t s' t'
  pub fds : open_fds t' ≡ open_fds t
  pub safe : IsSafe t'
  pub grows : Grows t t'

-- One round: `s₁` after its package part, `s₂` after its core part.
pub record RoundStep (ncpu ncore core : ℕ) (s : SysData) (t : Trace) (s' : SysData) (t' : Trace)
    : Type 0 where
  pub ready : IsReady ncpu ncore s'
  pub moved : Moved core s s'
  pub same : (i : ℕ) → i ≢ core → get_elem? s'.core_data i ≡ get_elem? s.core_data i
  pub idle : (j : ℕ) → hit j ncpu ncore core ≡ 0 → get_elem? s'.cpu_data j ≡ get_elem? s.cpu_data j
  pub sampled : (j : ℕ) → hit j ncpu ncore core ≡ 1 → Sampled j s t s' t'
  pub fds : open_fds t' ≡ open_fds t
  pub safe : IsSafe t'
  pub grows : Grows t t'

module _ {s : SysData} where
  Moved-later :
      {i : ℕ} {s' s'' : SysData}
      → Moved i s s'
      → get_elem? s''.core_data i ≡ get_elem? s'.core_data i
      → Moved i s s''
  Moved-later p e = record {
    old = p.old;
    new = p.new;
    was = p.was;
    now = e ∙ p.now;
    shifted = p.shifted;
  }

  Moved-earlier :
      {i : ℕ} {s' s'' : SysData}
      → get_elem? s'.core_data i ≡ get_elem? s.core_data i
      → Moved i s' s''
      → Moved i s s''
  Moved-earlier e p = record {
    old = p.old;
    new = p.new;
    was = sym e ∙ p.was;
    now = p.now;
    shifted = p.shifted;
  }

module _ {s : SysData} {t : Trace} where
  -- the part of a package that a round hit, seen past the round
  pub Sampled-later :
      {j : ℕ} {s' s'' : SysData} {t' t'' : Trace}
      → Sampled j s t s' t'
      → get_elem? s''.cpu_data j ≡ get_elem? s'.cpu_data j
      → Grows t' t''
      → Sampled j s t s'' t''
  Sampled-later p e g = record {
    old = p.old;
    new = p.new;
    was = p.was;
    now = e ∙ p.now;
    moved = p.moved;
    energy = p.energy;
    energy_is = p.energy_is;
    seen = ReadSince-newer p.seen g;
  }

  pub Sampled-earlier :
      {j : ℕ} {s' s'' : SysData} {t' t'' : Trace}
      → get_elem? s'.cpu_data j ≡ get_elem? s.cpu_data j
      → Grows t t'
      → Sampled j s' t' s'' t''
      → Sampled j s t s'' t''
  Sampled-earlier e g p = record {
    old = p.old;
    new = p.new;
    was = sym e ∙ p.was;
    now = p.now;
    moved = p.moved;
    energy = p.energy;
    energy_is = p.energy_is;
    seen = ReadSince-older g p.seen;
  }

Overwritten-earlier :
    {j : ℕ} {s : SysData} {t u v : Trace} → Grows t u → Overwritten j u s v → Overwritten j t s v
Overwritten-earlier g p = record {
  new = p.new;
  now = p.now;
  energy = p.energy;
  last_is = p.last_is;
  seen = ReadSince-older g p.seen;
}

module _ {ncpu ncore core : ℕ} {s : SysData} {t : Trace} where
  pub join_rounds :
      {rounds : ℕ} {s' s'' : SysData} {t' t'' : Trace}
      → RoundStep ncpu ncore core s t s' t'
      → SweepStep ncpu ncore rounds (core + 1) s' t' s'' t''
      → SweepStep ncpu ncore (suc rounds) core s t s'' t''
  unfolding visits
  join_rounds {rounds} {s''} {t''} a b = record {
    ready = b.ready;
    moved = λ i low high. elim (dec_lt core i) [
      | yes later ↦ Moved-earlier (a.same i (omega arith)) (b.moved i (omega arith) (omega arith))
      | no earlier ↦
          subst (λ k. Moved k s s'') {x = core} (omega arith)
            (Moved-later a.moved (b.same core (omega arith)))
    ];
    same = λ i below. b.same i (omega arith) ∙ a.same i (omega arith);
    idle = λ j none_hit. b.idle j (omega arith) ∙ a.idle j (omega arith);
    once = λ j one. elim (hit-cases j ncpu ncore core) [
      | inl miss ↦ Sampled-earlier (a.idle j miss) a.grows (b.once j (omega arith))
      | inr found ↦ Sampled-later (a.sampled j found) (b.idle j (omega arith)) b.grows
    ];
    twice = λ j two. elim (hit-cases j ncpu ncore core) [
      | inl miss ↦ Overwritten-earlier a.grows (b.twice j (omega arith))
      | inr found ↦
          let first = a.sampled j found in
          let second = b.once j (omega arith) in
          record {
            new = second.new;
            now = second.now;
            energy = first.energy;
            last_is =
                second.moved
                ∙ ap (λ (c : PerCpuData). c.pow_pkg)
                    (some-injective _ _ (sym second.was ∙ first.now))
                ∙ first.energy_is;
            seen = ReadSince-newer first.seen b.grows;
          }
    ];
    fds = b.fds ∙ a.fds;
    safe = b.safe;
    grows = Grows-trans a.grows b.grows;
  }
