-- ===== src/Tests/Loops.antt =====
-- The loop of powmon on a machine of two sockets with four cores.
use powmon.Base.{none, ◌≡◌, true, false, refl, ◌⊎◌, [], ◌==◌}
use powmon.PowMon.Run.{
  Env, Process, TimedLoop, TimedStep, TimedReach, testing, pausing, started_loop,
}
use powmon.PowMon.Run.Timed.{TimedReach-waits}
use powmon.Tests.{counting, host, whole, cpu_locals, core_locals}

abbrev pub env : Env
env = record {
  machine = counting;
  fpu = whole;
  timestamp = λ t. "1.000";
  log_opens = λ t. true;
  cpu_locals = λ t. cpu_locals;
  core_locals = λ t. core_locals;
  scan_float = λ text. none;
  zero_interval = λ dt. dt == 0;
}

abbrev entry : Process
entry = record { sysd = host 2 4; trace = []; published = [] }

abbrev loop : TimedLoop
loop = started_loop env entry true true

loop-testing : loop.place ≡ testing
unfolding started_loop
loop-testing = refl

loop-on : loop.keep_running ≡ true
unfolding started_loop
loop-on = refl

TimedReach-waits_example :
    (k : TimedLoop) × TimedReach env loop k
    × (k.place ≡ pausing)
    × (k.keep_running ≡ false)
    × (k.timer ≡ false)
    × ((n : TimedLoop)
        → TimedStep env k n
        → ((n.place ≡ pausing) × (n.keep_running ≡ false)) ⊎ (n ≡ record k { place = testing }))
TimedReach-waits_example = TimedReach-waits env loop loop-testing loop-on
