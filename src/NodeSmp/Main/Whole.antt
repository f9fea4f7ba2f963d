-- ===== src/NodeSmp/Main/Whole.antt =====
-- pow_node_smp as a whole: what its command line, its detection and its loop make together.
use mathlib.Core.Path.{subst}
use powmon.Base.{
  All, ℕ, ◌*◌, ◌≡◌, refl, ap, ◌∙◌, true, some, List, [], ◌∷◌, length, Bool-cases, inl, inr, ◌||◌, ℤ,
  is_positive,
}
use powmon.Machine.{Trace, ret}
use powmon.Machine.Rules.{of_ret, and_then-eq_ret}
use powmon.Clib.{ok, bytes, >>=-eq-ok}
use powmon.Fpu.{Fpu, Float, Double}
use powmon.Msr.Addresses.{max_cores, max_packages}
use powmon.PowMon.Detect.{physical_tag, core_tag}
use powmon.PowMon.Detect.Topology.{distinct}
use powmon.PowMon.Detect.Range.{FitsTables}
use powmon.PowMon.Options.{same, value}
use powmon.PowMon.Start.{command, command-eq_ret}
use powmon.NodeSmp.Data.{SysData}
use powmon.NodeSmp.Detect.{detect_cpu_model}
use powmon.NodeSmp.Main.{Site, parse, until_loop}
use powmon.NodeSmp.Main.Started.{IsMalloc, Started, set_up-Started}
use powmon.NodeSmp.Run.{Env, init_pow_mon, Loop, Reach, entered}
use powmon.NodeSmp.Run.Rounds.{Reach-Kept}
use powmon.NodeSmp.Run.Round.{Going, IsReadable}

-- The options change the interval alone.
pub parse-interval :
    (fpu : Fpu) (atof : List ℕ → Double) (args : List (List ℕ)) (s s' : SysData)
    → parse fpu atof args s ≡ ok s'
    → (dt : Float) × (s' ≡ record s { dt = dt })
unfolding parse
parse-interval fpu atof [] s s' e = (s.dt, cc e)
parse-interval fpu atof (a ∷ args) s s' e =
    elim (Bool-cases (same a (bytes "-v") || same a (bytes "-h"))) [
      | inl stop ↦ let never = rw stop at e in absurd (cc never)
      | inr go ↦ elim (Bool-cases (same a (bytes "-s"))) [
        | inl given ↦
            let run = rw (go, given) at e in
            let (v, _, rest) = >>=-eq-ok (value args) _ run in
            let (dt, now) = parse-interval fpu atof args _ s' rest in (dt, now)
        | inr other ↦ parse-interval fpu atof args s s' (rw (go, other) at e)
      ]
    ]

pub init_pow_mon-dies :
    (length init_pow_mon.die_temp ≡ max_packages) × (length init_pow_mon.die_temp_en ≡ max_packages)
unfolding init_pow_mon
init_pow_mon-dies = (refl, refl)

pub All-counts :
    {A B : Type 0} (a b : ℕ) {ncpu ncore : ℕ}
    → a ≡ ncpu
    → b ≡ ncore
    → (rs : List (List A × List B)) → All (λ r. (length r.0 ≡ a) × (length r.1 ≡ b)) rs
    → All (λ r. (length r.0 ≡ ncpu) × (length r.1 ≡ ncore)) rs
All-counts a b e f [] h = tt
All-counts a b e f (r ∷ rs) h = ((h.0.0 ∙ e, h.0.1 ∙ f), All-counts a b e f rs h.1)

-- The file names a known model, whatever the data are.
abbrev pub NamesModel : List ℕ → Type 0
NamesModel file =
    (s : SysData)
    → (found : ℤ × SysData) × (detect_cpu_model (some file) s ≡ ok found)
      × (is_positive found.0 ≡ true)

-- What a state of the loop has, for a topology.
pub record Monitors (ncpu ncore : ℕ) (s : SysData) (t : Trace) (l : Loop) : Type 0 where
  pub started : Started ncpu ncore [] s t
  pub going : Going s t l.sysd l.trace
  pub printed : All (λ r. (length r.0 ≡ ncpu) × (length r.1 ≡ ncore)) l.screen

module _ (env : Env) (site : Site) (law : IsMalloc env) (readable : IsReadable env)
    (names : NamesModel site.model_file) (fits : FitsTables site.topology_file) where
  until_loop-Started :
      (s : SysData) (t : Trace)
      → until_loop env site [] ≡ ret s t
      → Started
          (distinct physical_tag 3 max_packages site.topology_file)
          (distinct core_tag 3 max_cores site.topology_file
            * distinct physical_tag 3 max_packages site.topology_file)
          []
          s
          t
  unfolding until_loop
  until_loop-Started s t e =
      let given = parse env.fpu site.atof site.args (record init_pow_mon { dt = 0x3f800000 }) in
      let (s₁, u, e₁, e₂) = and_then-eq_ret (command given []) _ e in
      let (came, start) = command-eq_ret given e₁ in
      let (dt, now) = parse-interval env.fpu site.atof site.args _ s₁ came in
      let (found, known, positive) = names s₁ in
      let ncpu = distinct physical_tag 3 max_packages site.topology_file in
      let ncore = distinct core_tag 3 max_cores site.topology_file * ncpu in
      subst (λ v. Started ncpu ncore v s t) start
        (of_ret e₂ (
          set_up-Started env law site.model_file site.topology_file s₁ found u known positive fits
            (ap (λ (x : SysData). length x.die_temp) now ∙ init_pow_mon-dies.0)
            (ap (λ (x : SysData). length x.die_temp_en) now ∙ init_pow_mon-dies.1) (rw start tt)))

  -- Where the files name a known model and fit the tables, `malloc` gives what it is asked for, and
  -- /proc/meminfo can be read: if pow_node_smp comes to its loop, whatever its options, it does so with
  -- records that fit the topology of the file and with a descriptor open for every core; and from there
  -- on, however many rounds are made and whenever the signal comes, its data fit that topology, no
  -- sampling leaves a descriptor open, `aperf_last` and `mperf_last` of each core still are what they
  -- were when the loop was entered, and each round prints a line for every package and every core.
  pub until_loop-Monitors :
      (s : SysData) (t : Trace) {l : Loop}
      → until_loop env site [] ≡ ret s t
      → Reach env (entered s t) l
      → Monitors
          (distinct physical_tag 3 max_packages site.topology_file)
          (distinct core_tag 3 max_cores site.topology_file
            * distinct physical_tag 3 max_packages site.topology_file)
          s
          t
          l
  until_loop-Monitors s t {l} e r =
      let started = until_loop-Started s t e in
      let kept = Reach-Kept env readable s t started.ready started.safe r in
      record {
        started = started;
        going = kept.0;
        printed = All-counts s.ncpu s.ncore started.ncpu_is started.ncore_is l.screen kept.1;
      }
