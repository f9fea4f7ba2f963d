-- ===== src/PowMon/Daemonize.antt =====
-- `daemonize` of powmon/bin/pow_mon.c, after which the process goes on as its own child, and the
-- branch of `main` that calls it. What `fork`, `fopen` and `setsid` answer are arguments; the closing
-- of the standard streams is left out.
pub mod Controlled
use powmon.Base.{ℕ, ◌≡◌, Bool, true, false, some, List, ◌++◌, if◌then◌else◌}
use powmon.Clib.{Outcome, ok, quit, undefined, ◌>>=◌, bytes}
use powmon.Clib.Decimal.{decimal}
use powmon.PowMon.Daemon.{
  System, Mode, start, run, stop, status, restart, other, Next, sample_here, sample_in_child,
  choose, daemon_stop,
}

-- what `fork` answers: a failure, in the parent the number of the child, or the child itself
pub data Fork : Type 0 where
  refused : Fork
  parent : (pid : ℕ) → Fork
  child : Fork

-- How the call ends, and the system after it. The file is not tested before it is written to.
unfoldable pub daemonize : Fork → Bool → Bool → System → Outcome (Unit {0}) × System
unfolding decimal
daemonize refused opens session sys = (quit 1, sys)
daemonize (parent pid) opens session sys =
    if opens
    then (quit 0, record sys { pidfile = some (decimal pid ++ bytes "\n") })
    else (undefined, sys)
daemonize child opens session sys = (if session then ok tt else quit 1, sys)

-- the process after the choice of the mode
abbrev pub go_on : Fork → Bool → Bool → Next × System → Outcome (Unit {0}) × System
go_on fork opens session (sample_here, sys) = (ok tt, sys)
go_on fork opens session (sample_in_child, sys) = daemonize fork opens session sys

abbrev after_choice :
    (Next × System → Outcome (Unit {0}) × System)
    → System
    → Outcome (Next × System)
    → Outcome (Unit {0}) × System
after_choice f sys (ok r) = f r
after_choice f sys (quit c) = (quit c, sys)
after_choice f sys undefined = (undefined, sys)

abbrev after_stop : System → Outcome (ℕ × System) → System
after_stop sys (ok (r, sys')) = sys'
after_stop sys (quit c) = sys
after_stop sys undefined = sys

-- the system where the choice of the mode ends the process: only `stop` has changed it
abbrev left_by : Mode → System → System
left_by stop sys = after_stop sys (daemon_stop sys)
left_by start sys = sys
left_by run sys = sys
left_by status sys = sys
left_by restart sys = sys
left_by other sys = sys

-- `main` from the `switch` on the mode to the detection
unfoldable pub launch : Mode → Fork → Bool → Bool → System → Outcome (Unit {0}) × System
unfolding daemonize
launch mode fork opens session sys =
    after_choice (go_on fork opens session) (left_by mode sys) (choose mode sys)
