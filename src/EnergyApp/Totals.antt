-- ===== src/EnergyApp/Totals.antt =====
-- What a whole measurement finds: `measure` and the differences that `show_result` prints.
use mathlib.Core.Path.{subst}
use mathlib.Core.Option
use mathlib.Core.Option.{some-injective}
use powmon.Base.{
  ℕ, ◌+◌, ◌<◌, ◌^◌, ◌/◌, bit_and, ◌≡◌, refl, sym, ap, ◌∙◌, inl, inr, some, List, length, get_elem?,
  u32, sub_u32, arith, ℤ,
}
use powmon.Machine.{Machine, Trace, Cmd, ret}
use powmon.Machine.Rules
use powmon.Machine.Rules.{Runs, returns}
use powmon.Msr.Addresses.{msr_rapl_power_unit, msr_pkg_energy_status, msr_dram_energy_status}
use powmon.Msr.Events.{IsSafe, ReadSince, ReadSince-older, ReadSince-newer}
use powmon.Msr.Laws.{Stopped}
use powmon.Leaders.Visits.{visits}
use powmon.Leaders.Loop.{Quiet, Treated, LoopStep, for_leaders-Runs}
use powmon.EnergyApp.Data.{PerCpuData, SysData}
use powmon.EnergyApp.{
  init_msr_data, final_msr_energy, measure, pkg_diff, dram_diff, pin, init_package, final_package,
  canc_cpu_affinity,
}
use powmon.EnergyApp.Energy.{Initialised, init_package-Runs, pin-Quiet, canc_cpu_affinity-Quiet}
use powmon.EnergyApp.Final.{Finalised, final_package-Runs, Start, start_of}

-- There is a record for every package, and a package if there is a core.
pub record IsSized (s : SysData) : Type 0 where
  pub sized : length s.cpu_data ≡ s.ncpu
  pub socket : 0 < s.ncore → 0 < s.ncpu

-- A loop over the leaders of `s`, which changes nothing but the records.
pub record Swept {K : Type 0} (Q : PerCpuData → Trace → PerCpuData → Trace → Type 0)
    (key : PerCpuData → K) (s : SysData) (t : Trace) (s' : SysData) (t' : Trace) : Type 0 where
  pub frame : s' ≡ record s { cpu_data = s'.cpu_data }
  pub loop : LoopStep Q key s.ncpu s.ncore s.ncore 0 s.cpu_data t s'.cpu_data t'

module _ (m : Machine) (s : SysData) (t : Trace) (size : IsSized s) (safe : IsSafe t) where
  init_msr_data-Swept :
      Runs (Swept (Initialised s.dram_supp) (λ _. tt) s t) (Stopped m) (init_msr_data m s t)
  unfolding init_msr_data
  init_msr_data-Swept =
      Rules.bind
        (for_leaders-Runs m s.ncpu s.ncore (pin m) (init_package m s.dram_supp)
          (canc_cpu_affinity s.ncore) (Initialised s.dram_supp) (λ _. tt) (pin-Quiet m)
          (canc_cpu_affinity-Quiet m s.ncore) (init_package-Runs m s.dram_supp) s.ncore 0 s.cpu_data
          t size.sized size.socket (omega arith) safe)
        λ xs u done. returns (record { frame = refl; loop = done })

  final_msr_energy-Swept :
      Runs (Swept (Finalised s.dram_supp) start_of s t) (Stopped m) (final_msr_energy m s t)
  unfolding final_msr_energy
  final_msr_energy-Swept =
      Rules.bind
        (for_leaders-Runs m s.ncpu s.ncore (pin m) (final_package m s.dram_supp)
          (canc_cpu_affinity s.ncore) (Finalised s.dram_supp) start_of (pin-Quiet m)
          (canc_cpu_affinity-Quiet m s.ncore) (final_package-Runs m s.dram_supp) s.ncore 0
          s.cpu_data t size.sized size.socket (omega arith) safe)
        λ xs u done. returns (record { frame = refl; loop = done })

-- What the record of a package says after a run of the program from `from` to `to`: `first` was read
-- before it and `final` after it, and the difference is the advance of the counter, modulo 2 ^ 32.
pub record Measured (Ran : Trace → Trace → Type 0) (dram_supp : ℕ) (t : Trace) (last : PerCpuData)
    (t' : Trace) : Type 0 where
  pub from : Trace
  pub to : Trace
  pub ran : Ran from to
  pub first : ℕ
  pub final : ℕ
  pub first_read : ReadSince msr_pkg_energy_status first t from
  pub final_read : ReadSince msr_pkg_energy_status final to t'
  pub unit : ℕ
  pub unit_read : ReadSince msr_rapl_power_unit unit t from
  pub erg_u : last.erg_u ≡ bit_and (unit / 2 ^ 8) 0x1e
  pub pkg_counted : (u32 (first + pkg_diff last) ≡ u32 final) × (pkg_diff last < 2 ^ 32)
  pub dram_lost :
      dram_supp ≡ 1
      → (v : ℕ) × ReadSince msr_dram_energy_status v t from × (dram_diff last ≡ sub_u32 0 (u32 v))
  pub dram_counted :
      dram_supp ≡ 2
      → (v w : ℕ) × ReadSince msr_dram_energy_status v t from
        × ReadSince msr_dram_energy_status w to t'
        × (dram_diff last ≡ sub_u32 (u32 w) (u32 v))

diff-counted :
    (a b first final : ℕ)
    → a ≡ u32 final
    → b ≡ u32 first
    → (u32 (first + sub_u32 a b) ≡ u32 final) × (sub_u32 a b < 2 ^ 32)
diff-counted a b first final e f = rw (e, f) (omega arith, omega arith)

measured :
    {Ran : Trace → Trace → Type 0} {supp j : ℕ} {t u v w : Trace} {xs ys : List PerCpuData}
    → (p : Treated (Initialised supp) j t xs u) → Ran u v
    → (q : Treated (Finalised supp) j v ys w) → start_of q.new ≡ start_of p.new
    → Measured Ran supp t q.new w
measured {u} {v} p ran q same =
    let e = ap (λ (x : Start). x.pkg) same in
    let d = ap (λ (x : Start). x.dram) same in
    record {
      from = u;
      to = v;
      ran = ran;
      first = p.done.energy;
      final = q.done.energy;
      first_read = ReadSince-older p.since (ReadSince-newer p.done.energy_read p.until);
      final_read = ReadSince-older q.since (ReadSince-newer q.done.energy_read q.until);
      unit = p.done.unit;
      unit_read = ReadSince-older p.since (ReadSince-newer p.done.unit_read p.until);
      erg_u = ap (λ (x : Start). x.unit) same ∙ p.done.erg_u;
      pkg_counted = diff-counted _ _ p.done.energy _ q.done.pkg_final (e ∙ p.done.pkg_init);
      dram_lost = λ one.
          let (n, is, read) = p.done.dram_read (inl one) in
          (
            n,
            ReadSince-older p.since (ReadSince-newer read p.until),
            rw (q.done.dram_lost (omega arith), d, is) refl,
          );
      dram_counted = λ two.
          let (n, is, read) = p.done.dram_read (inr two) in
          let (n', is', read') = q.done.dram_kept two in
          (
            n,
            n',
            ReadSince-older p.since (ReadSince-newer read p.until),
            ReadSince-older q.since (ReadSince-newer read' q.until),
            rw (is', d, is) refl,
          );
    }

-- the same of the two sweeps: the final one starts where the program ended
pub swept_both :
    {Ran : Trace → Trace → Type 0} (j ncpu ncore n : ℕ) {supp : ℕ} {t u v w : Trace}
    {xs ys zs : List PerCpuData}
    → LoopStep (Initialised supp) (λ _. tt) ncpu ncore n 0 xs t ys u
    → Ran u v
    → LoopStep (Finalised supp) start_of ncpu ncore n 0 ys v zs w
    → 0 < visits j ncpu ncore n 0
    → (last : PerCpuData) × (get_elem? zs j ≡ some last) × Measured Ran supp t last w
swept_both j ncpu ncore n a ran b h =
    let p = a.treated j h in
    let q = b.treated j h in
    (
      q.new,
      q.now,
      measured p ran q (
          some-injective _ _
            (sym (ap (Option.map start_of) q.now) ∙ b.kept j ∙ ap (Option.map start_of) p.now)),
    )

-- What a measurement leaves of the data besides the counts.
pub record Kept (s s' : SysData) : Type 0 where
  pub ncpu : s'.ncpu ≡ s.ncpu
  pub dram_supp : s'.dram_supp ≡ s.dram_supp
  pub size : length s'.cpu_data ≡ s.ncpu

module _ (now : Trace → ℤ) (program : Cmd (Unit {0})) (m : Machine) (s : SysData) (t : Trace)
    (j : ℕ) (size : IsSized s) (quiet : Quiet m program) (safe : IsSafe t)
    (busy : 0 < visits j s.ncpu s.ncore s.ncore 0) where
  pub measure-Kept :
      Runs
        (λ s' t'.
          Kept s s'
          × (last : PerCpuData) × (get_elem? s'.cpu_data j ≡ some last)
          × Measured (λ u v. program u ≡ ret tt v) s.dram_supp t last t')
        (Stopped m)
        (measure now program m s t)
  unfolding measure
  measure-Kept =
      Rules.bind
        (init_msr_data-Swept m (record s { time_us_init = now t }) t
          (record { sized = size.sized; socket = size.socket }) safe)
        λ s₁ u a. Rules.bind (Rules.recall (quiet u a.loop.went.1)) λ _ v (ran, went).
          let ncpu : s₁.ncpu ≡ s.ncpu = ap (λ (x : SysData). x.ncpu) a.frame in
          let ncore : s₁.ncore ≡ s.ncore = ap (λ (x : SysData). x.ncore) a.frame in
          let supp : s₁.dram_supp ≡ s.dram_supp = ap (λ (x : SysData). x.dram_supp) a.frame in
          Rules.mono
            (final_msr_energy-Swept m (record s₁ { time_us_final = now v }) v
              (record {
                sized = a.loop.size ∙ size.sized ∙ sym ncpu;
                socket =
                    λ h. subst (λ k. 0 < k) (sym ncpu) (size.socket (subst (λ k. 0 < k) ncore h));
              })
              went.1)
            λ s' w b.
              let (last, is, measured) =
                swept_both j s.ncpu s.ncore s.ncore a.loop ran
                  (subst
                    (λ (x : SysData).
                      LoopStep (Finalised x.dram_supp) start_of x.ncpu x.ncore x.ncore 0 s₁.cpu_data
                        v s'.cpu_data w)
                    a.frame b.loop)
                  busy in
              let kept : Kept s s' = record {
                ncpu = ap (λ (x : SysData). x.ncpu) b.frame ∙ ncpu;
                dram_supp = ap (λ (x : SysData). x.dram_supp) b.frame ∙ supp;
                size = b.loop.size ∙ a.loop.size ∙ size.sized;
              } in
              (kept, last, is, measured)
