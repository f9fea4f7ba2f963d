-- ===== src/Tests/Daemon.antt =====
-- What the theorems on the daemon say where one runs, and where none does.
use powmon.Base.{ℕ, ◌<◌, ltb, ◌++◌, true, false, none, ◌≡◌, refl, some, [], ◌∷◌, arith}
use powmon.Clib.{ok, quit, bytes}
use powmon.PowMon.Daemon.{System, start, daemon_status}
use powmon.PowMon.Daemonize.{parent, launch}
use powmon.PowMon.Daemonize.Controlled.{Controls, launch-Controls}
use powmon.PowMon.Connection.{Broker, lib_init, new, loop_start, open_session}
use powmon.PowMon.Connection.Retried.{retried, open_session-retried}
use powmon.Tests.{host}

-- The daemon runs as process 42, or there is no pid file.
abbrev pub running : System
running = record {
  pidfile = some (bytes "42\n");
  comm = λ pid. some (bytes "pow_mon\n");
  signals = [];
}

-- No daemon runs, and /proc names every process pow_mon.
abbrev free : System
free = record { pidfile = none; comm = λ pid. some (bytes "pow_mon\n"); signals = [] }

free-idle : daemon_status free ≡ ok 0
unfolding daemon_status
free-idle = refl

launch-Controls_example :
    ((launch start (parent 42) true true free).0 ≡ quit 0)
    × Controls 42 (launch start (parent 42) true true free).1
launch-Controls_example = launch-Controls 42 true free (omega arith) free-idle refl

-- a broker that refuses twice
abbrev pub broker : Broker
broker = record { creates = true; accepts = λ i. ltb 1 i; disconnects = true; log_opens = true }

pub two-refused : (i : ℕ) → i < 2 → broker.accepts i ≡ false
two-refused i h = ground arith

open_session-retried_example :
    open_session broker (host 2 4) 3
    ≡ some (ok (lib_init ∷ new ∷ (retried (host 2 4) 2 ++ loop_start ∷ [])))
open_session-retried_example =
    open_session-retried broker (host 2 4) 2 3 refl (omega arith) two-refused refl
