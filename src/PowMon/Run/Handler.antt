-- ===== src/PowMon/Run/Handler.antt =====
-- What a call of `samp_handler` of powmon keeps.
use mathlib.Core.Path.{subst}
use powmon.Base.{
  Option, Bool, Bool-cases, inl, inr, sym, ◌&&◌, ap, All, ℕ, ◌≡◌, refl, ◌∙◌, true, List, ◌∷◌,
  length, arith,
}
use powmon.Machine.{Trace, ret}
use powmon.Machine.Rules.{of_ret, and_then-eq_ret}
use powmon.Clib.{ok, ok-injective, >>=-eq-ok}
use powmon.ForEach.{for_each}
use powmon.ForEach.Rounds.{for_each-Each}
use powmon.Fpu.{Fpu, Float}
use powmon.Msr.Events.{open_fds, IsSafe}
use powmon.PowMon.Sensor.{read_msr_data}
use powmon.PowMon.Start.{command-eq_ret}
use powmon.PowMon.Broker.{
  CpuLocals, CoreLocals, CpuMessage, CoreMessage, push_cpu, push_core, push_to_broker, room,
}
use powmon.PowMon.Data.{SysData}
use powmon.PowMon.Message.{Reply, on_message}
use powmon.PowMon.Message.Kept.{but_command, on_message-kept}
use powmon.PowMon.Sensor.Sweep.{IsReady}
use powmon.PowMon.Sensor.Sampling.{read_msr_data-Sampling}
use powmon.PowMon.Run.{Env, stamped, samp_handler, Process, Samples, sample}

-- What publishing leaves of data that fit the topology.
record Sent (ncpu ncore : ℕ) (s' : SysData) (cpus : List CpuMessage) (cores : List CoreMessage)
    : Type 0 where
  pub ready : IsReady ncpu ncore s'
  pub cpu_count : length cpus ≡ ncpu
  pub core_count : length cores ≡ ncore

push_to_broker-Sent :
    (fpu : Fpu) (cpu_locals : CpuLocals) (core_locals : CoreLocals) (ncpu ncore : ℕ) (s : SysData)
    → IsReady ncpu ncore s
    → (opens : Bool) → (opens && room s) ≡ true
    → (s' : SysData) × (cpus : List CpuMessage) × (cores : List CoreMessage) × (push_to_broker fpu
          opens cpu_locals core_locals s
        ≡ ok (s', cpus, cores))
      × Sent ncpu ncore s' cpus cores
unfolding push_to_broker
push_to_broker-Sent fpu cpu_locals core_locals ncpu ncore s r opens fits =
    let (_, cpu_data, cpus, run, done) =
      for_each-Each (push_cpu fpu s) s.ncpu 0 cpu_locals s.cpu_data
        (omega (arith, r.cpus, r.ncpu_is)) in
    let (_, core_data, cores, run', done') =
      for_each-Each (push_core fpu s) s.ncore 0 core_locals s.core_data
        (omega (arith, r.cores, r.ncore_is)) in
    (
      record s { cpu_data = cpu_data; core_data = core_data },
      cpus,
      cores,
      rw (run, run', fits) refl,
      record {
        ready = record {
          ncpu_is = r.ncpu_is;
          ncore_is = r.ncore_is;
          cpus = done.size ∙ r.cpus;
          cores = done'.size ∙ r.cores;
          dies = r.dies;
          dies_en = r.dies_en;
          fits = r.fits;
          socket = r.socket;
        };
        cpu_count = done.count ∙ r.ncpu_is;
        core_count = done'.count ∙ r.ncore_is;
      },
    )

-- A call that returned had a log that opens and topics that fit.
push_to_broker-room :
    (fpu : Fpu) (opens : Bool) (cpu_locals : CpuLocals) (core_locals : CoreLocals) (s : SysData)
    (r : SysData × List CpuMessage × List CoreMessage)
    → push_to_broker fpu opens cpu_locals core_locals s ≡ ok r
    → (opens && room s) ≡ true
unfolding push_to_broker
push_to_broker-room fpu opens cpu_locals core_locals s r e =
    let (c, _, e₁) = >>=-eq-ok (for_each (push_cpu fpu s) s.ncpu 0 cpu_locals s.cpu_data) _ e in
    let (d, _, e₂) =
      >>=-eq-ok (for_each (push_core fpu s) s.ncore 0 core_locals s.core_data) _ e₁ in
    elim (Bool-cases (opens && room s)) [
      | inl h ↦ h
      | inr h ↦ let never = rw h at e₂ in absurd (cc never)
    ]

-- What a call leaves.
record Handled (ncpu ncore : ℕ) (t : Trace) (r : SysData × List CpuMessage × List CoreMessage)
    (t' : Trace) : Type 0 where
  pub sent : Sent ncpu ncore r.0 r.1 r.2
  pub fds : open_fds t' ≡ open_fds t
  pub safe : IsSafe t'

-- Every call that returns leaves that.
samp_handler-Handled :
    (env : Env) (ncpu ncore : ℕ) (s : SysData) (t : Trace)
    (r : SysData × List CpuMessage × List CoreMessage) (t' : Trace)
    → IsReady ncpu ncore s
    → IsSafe t
    → samp_handler env s t ≡ ret r t'
    → Handled ncpu ncore t r t'
unfolding samp_handler
samp_handler-Handled env ncpu ncore s t r t' ready safe e =
    let now = stamped (env.timestamp t) s in
    let fit : IsReady ncpu ncore now = record {
      ncpu_is = ready.ncpu_is;
      ncore_is = ready.ncore_is;
      cpus = ready.cpus;
      cores = ready.cores;
      dies = ready.dies;
      dies_en = ready.dies_en;
      fits = ready.fits;
      socket = ready.socket;
    } in
    let (u, v, e₁, e₂) = and_then-eq_ret (read_msr_data env.machine now t) _ e in
    let p = of_ret e₁ (read_msr_data-Sampling env.machine ncpu ncore now t fit safe) in
    let push = push_to_broker env.fpu (env.log_opens v) (env.cpu_locals v) (env.core_locals v) u in
    let (came, same) = command-eq_ret push e₂ in
    let fits =
      push_to_broker-room env.fpu (env.log_opens v) (env.cpu_locals v) (env.core_locals v) u r
        came in
    let (w, cpus, cores, run, sent) =
      push_to_broker-Sent env.fpu (env.cpu_locals v) (env.core_locals v) ncpu ncore u p.ready
        (env.log_opens v) fits in
    let found : ◌≡◌ {A = SysData × List CpuMessage × List CoreMessage} (w, cpus, cores) r =
      ok-injective (w, cpus, cores) r (sym run ∙ came) in
    record {
      sent =
          subst (λ (q : SysData × List CpuMessage × List CoreMessage). Sent ncpu ncore q.0 q.1 q.2)
            found sent;
      fds = ap open_fds same ∙ p.fds;
      safe = subst IsSafe (sym same) p.safe;
    }

-- What every sampling keeps: the data fit the topology, no descriptor is left open, every write was
-- safe, and each sampling published a message for every package and every core.
pub record Sound (ncpu ncore : ℕ) (t : Trace) (p : Process) : Type 0 where
  pub ready : IsReady ncpu ncore p.sysd
  pub fds : open_fds p.trace ≡ open_fds t
  pub safe : IsSafe p.trace
  pub counts : All (λ r. (length r.0 ≡ ncpu) × (length r.1 ≡ ncore)) p.published

Sound-next :
    {ncpu ncore : ℕ} {t u : Trace} (p : Process) (s : SysData) {cpus : List CpuMessage}
    {cores : List CoreMessage}
    → Sound ncpu ncore t p
    → Handled ncpu ncore p.trace (s, cpus, cores) u
    → Sound ncpu ncore t (record { sysd = s; trace = u; published = (cpus, cores) ∷ p.published })
Sound-next p s i h = record {
  ready = h.sent.ready;
  fds = h.fds ∙ i.fds;
  safe = h.safe;
  counts = ((h.sent.cpu_count, h.sent.core_count), i.counts);
}

-- Data that differ in the interval and the topic alone fit the same topology.
IsReady-kept :
    {ncpu ncore : ℕ} {s s' : SysData}
    → but_command s' ≡ but_command s
    → IsReady ncpu ncore s
    → IsReady ncpu ncore s'
IsReady-kept {s} {s'} kept r = record {
  ncpu_is = ap (λ (x : SysData). x.ncpu) kept ∙ r.ncpu_is;
  ncore_is = ap (λ (x : SysData). x.ncore) kept ∙ r.ncore_is;
  cpus = ap (λ (x : SysData). length x.cpu_data) kept ∙ r.cpus;
  cores = ap (λ (x : SysData). length x.core_data) kept ∙ r.cores;
  dies = ap (λ (x : SysData). length x.die_temp) kept ∙ r.dies;
  dies_en = ap (λ (x : SysData). length x.die_temp_en) kept ∙ r.dies_en;
  fits = r.fits;
  socket = r.socket;
}

-- A command keeps what the samplings keep.
pub on_message-Sound :
    {ncpu ncore : ℕ} {t : Trace} (scan_float : List ℕ → Option Float) (payload : List ℕ)
    (p : Process) (r : Reply)
    → on_message scan_float payload p.sysd ≡ ok r
    → Sound ncpu ncore t p
    → Sound ncpu ncore t (record p { sysd = r.sysd })
on_message-Sound scan_float payload p r e i = record {
  ready = IsReady-kept (on_message-kept scan_float payload p.sysd r e) i.ready;
  fds = i.fds;
  safe = i.safe;
  counts = i.counts;
}

pub Samples-Sound :
    (env : Env) (ncpu ncore : ℕ) (t : Trace) {p q : Process}
    → Samples env p q
    → Sound ncpu ncore t p
    → Sound ncpu ncore t q
Samples-Sound env ncpu ncore t (sample p s cpus cores u run) i =
    Sound-next p s i
      (samp_handler-Handled env ncpu ncore p.sysd p.trace (s, cpus, cores) u i.ready i.safe run)
