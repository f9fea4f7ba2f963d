-- ===== src/PowMon/Run.antt =====
-- `samp_handler` of powmon/bin/pow_mon.c, and the loop of `main` that it is built for with the timer, as
-- pow_mon.h asks for by `USE_TIMER`. What the process meets besides the
-- machine is a record: the clock, whether the log opens, and the local variables as they happen to be.
pub mod Handler
pub mod Timed
use Prim.Native.String.{String}
use powmon.Base.{ℕ, ◌+◌, ◌≡◌, Bool, true, false, Option, List, [], ◌∷◌, ◌==◌, if◌then◌else◌}
use powmon.Machine.{Machine, Trace, Cmd, ret, fault, exit, ◌>>=◌}
use powmon.Clib.{ok}
use powmon.Fpu.{Fpu, Float}
use powmon.PowMon.Broker.{CpuLocals, CoreLocals, CpuMessage, CoreMessage, push_to_broker}
use powmon.PowMon.Data.{SysData}
use powmon.PowMon.Message.{Reply, on_message}
use powmon.PowMon.Sensor.{read_msr_data}
use powmon.PowMon.Start.{command}

pub record Env : Type 0 where
  pub machine : Machine
  pub fpu : Fpu
  -- `get_timestamp`, at a point of the run
  pub timestamp : Trace → String
  pub log_opens : Trace → Bool
  pub cpu_locals : Trace → CpuLocals
  pub core_locals : Trace → CoreLocals
  -- what `%f` reads of a text
  pub scan_float : List ℕ → Option Float
  -- whether the interval that `start_timer` makes of `dT` is zero, seconds and nanoseconds
  pub zero_interval : Float → Bool

abbrev pub stamped : String → SysData → SysData
stamped now s = record s { tmpstr = now }

unfoldable pub samp_handler : Env → SysData → Cmd (SysData × List CpuMessage × List CoreMessage)
samp_handler env s t =
    (do
      s' ← read_msr_data env.machine (stamped (env.timestamp t) s)
      λ u.
          command
            (push_to_broker env.fpu (env.log_opens u) (env.cpu_locals u) (env.core_locals u) s') u)
      t

-- The data, the machine, and the messages of each sampling, the newest first.
pub record Process : Type 0 where
  pub sysd : SysData
  pub trace : Trace
  pub published : List (List CpuMessage × List CoreMessage)

-- One call of `samp_handler` that returns.
pub data Samples (env : Env) : Process → Process → Type 0 where
  sample :
      (p : Process) (s : SysData) (cpus : List CpuMessage) (cores : List CoreMessage) (t : Trace)
      → samp_handler env p.sysd p.trace ≡ ret (s, cpus, cores) t
      → Samples env p (record { sysd = s; trace = t; published = (cpus, cores) ∷ p.published })

-- `start_timer`: whether `timer_create` and `timer_settime` succeed, then the value returned, which
-- `main` does not test, and whether the timer runs: a zero interval disarms it.
unfoldable pub start_timer : Env → Float → Bool → Bool → ℕ × Bool
start_timer env dt created settime =
    if created
    then (if settime then (0, if env.zero_interval dt then false else true) else (1, false))
    else (1, false)

-- Where `main` is: before the test of `keepRunning`, between the test and the call of `pause`, in
-- `pause`, or past the loop.
pub data Place : Type 0 where
  testing : Place
  entering : Place
  pausing : Place
  left : Place

-- `pause` returns after a signal handler.
abbrev pub woken : Place → Place
woken testing = testing
woken entering = entering
woken pausing = testing
woken left = left

pub record TimedLoop : Type 0 where
  pub process : Process
  pub keep_running : Bool
  pub timer : Bool
  pub place : Place

-- The steps of `main`, of the two handlers and of a command of the broker. The interrupt handler only deletes the timer and
-- clears a variable that a sampling does not read, so an interrupt within a sampling is taken as one
-- after it. The network thread serves commands until `main` disconnects, so they are steps at every
-- place; `left` is the code from the end of the loop to that call.
pub data TimedStep (env : Env) : TimedLoop → TimedLoop → Type 0 where
  goes_on :
      (l : TimedLoop)
      → l.place ≡ testing
      → l.keep_running ≡ true
      → TimedStep env l (record l { place = entering })
  pauses : (l : TimedLoop) → l.place ≡ entering → TimedStep env l (record l { place = pausing })
  leaves :
      (l : TimedLoop)
      → l.place ≡ testing
      → l.keep_running ≡ false
      → TimedStep env l (record l { place = left })
  alarm :
      (l : TimedLoop) (p : Process)
      → l.timer ≡ true
      → Samples env l.process p
      → TimedStep env l (record l { process = p; place = woken l.place })
  commanded :
      (l : TimedLoop) (payload : List ℕ) (reply : Reply) (created settime : Bool)
      → on_message env.scan_float payload l.process.sysd ≡ ok reply
      → TimedStep env l (record l {
        process = record l.process { sysd = reply.sysd };
        timer =
            if reply.restarts then (start_timer env reply.sysd.dt created settime).1 else l.timer;
      })
  sig_handler :
      (l : TimedLoop)
      → TimedStep env l (record l { keep_running = false; timer = false; place = woken l.place })

pub data TimedReach (env : Env) (l : TimedLoop) : TimedLoop → Type 0 where
  here : TimedReach env l l
  next : {k n : TimedLoop} → TimedReach env l k → TimedStep env k n → TimedReach env l n

-- the loop after `start_timer`
unfoldable pub started_loop : Env → Process → Bool → Bool → TimedLoop
unfolding start_timer
started_loop env p created settime = record {
  process = p;
  keep_running = true;
  timer = (start_timer env p.sysd.dt created settime).1;
  place = testing;
}
