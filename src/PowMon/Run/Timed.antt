-- ===== src/PowMon/Run/Timed.antt =====
-- The loop of powmon with the timer, and how it ends.
use powmon.Base.{ℕ, ◌≡◌, refl, Bool, true, false, ◌⊎◌, inl, inr}
use powmon.Machine.{Trace}
use powmon.PowMon.Run.{
  Env, Process, Place, testing, entering, pausing, left, woken, TimedLoop, TimedStep, goes_on,
  pauses, leaves, alarm, commanded, sig_handler, TimedReach, here, next, started_loop,
}
use powmon.PowMon.Run.Handler.{Sound, Samples-Sound, on_message-Sound}

-- What every state of the loop has: what the samplings keep, and `main` leaves the loop only when
-- `keepRunning` is cleared.
pub record Kept (ncpu ncore : ℕ) (t : Trace) (l : TimedLoop) : Type 0 where
  pub sound : Sound ncpu ncore t l.process
  pub gone : l.place ≡ left → l.keep_running ≡ false

woken-left : (p : Place) → woken p ≡ left → p ≡ left
woken-left testing e = cc
woken-left entering e = cc
woken-left pausing e = cc
woken-left left e = refl

module _ (env : Env) (ncpu ncore : ℕ) (t : Trace) where
  TimedStep-Kept : {l k : TimedLoop} → TimedStep env l k → Kept ncpu ncore t l → Kept ncpu ncore t k
  TimedStep-Kept (goes_on l at on) i = record { sound = i.sound; gone = λ e. cc }
  TimedStep-Kept (pauses l at) i = record { sound = i.sound; gone = λ e. cc }
  TimedStep-Kept (leaves l at off) i = record { sound = i.sound; gone = λ _. off }
  TimedStep-Kept (alarm l p on s) i = record {
    sound = Samples-Sound env ncpu ncore t s i.sound;
    gone = λ e. i.gone (woken-left l.place e);
  }
  TimedStep-Kept (commanded l payload reply created settime e) i = record {
    sound = on_message-Sound env.scan_float payload l.process reply e i.sound;
    gone = i.gone;
  }
  TimedStep-Kept (sig_handler l) i = record { sound = i.sound; gone = λ _. refl }

  module _ (p : Process) (created settime : Bool) (sound : Sound ncpu ncore t p) where
    -- In every state that the loop with the timer reaches, however the alarms, the commands and
    -- the interrupts come: the data fit the topology, no descriptor is open that was not at the start, every write
    -- was safe, each sampling published a message for every package and every core, and `main` is past
    -- the loop only where `keepRunning` is cleared.
    pub TimedReach-Kept :
        {l : TimedLoop}
        → TimedReach env (started_loop env p created settime) l
        → Kept ncpu ncore t l
    unfolding started_loop
    TimedReach-Kept here = record { sound = sound; gone = λ e. cc }
    TimedReach-Kept (next r step) = TimedStep-Kept step (TimedReach-Kept r)

-- From every state in which `main` is about to test `keepRunning` and it is still set, an interrupt can
-- come after the test and before `pause`. `main` is then in `pause` with the timer deleted and
-- `keepRunning` cleared, and every next step is a command, after which it is still there, or another
-- interrupt, which alone lets it go on.
pub TimedReach-waits :
    (env : Env) (l : TimedLoop)
    → l.place ≡ testing
    → l.keep_running ≡ true
    → (k : TimedLoop) × TimedReach env l k
      × (k.place ≡ pausing)
      × (k.keep_running ≡ false)
      × (k.timer ≡ false)
      × ((n : TimedLoop)
          → TimedStep env k n
          → ((n.place ≡ pausing) × (n.keep_running ≡ false)) ⊎ (n ≡ record k { place = testing }))
TimedReach-waits env l at on =
    let k = record l { keep_running = false; timer = false; place = pausing } in
    (
      k,
      next (next (next here (goes_on l at on)) (sig_handler _)) (pauses _ refl),
      refl,
      refl,
      refl,
      λ n step. only step refl refl refl,
    )
  where
    only :
        {k n : TimedLoop}
        → TimedStep env k n
        → k.place ≡ pausing
        → k.timer ≡ false
        → k.keep_running ≡ false
        → ((n.place ≡ pausing) × (n.keep_running ≡ false)) ⊎ (n ≡ record k { place = testing })
    only (goes_on l at' on') e off done = cc
    only (pauses l at') e off done = cc
    only (leaves l at' off') e off done = cc
    only (alarm l q on' s) e off done = cc
    only (commanded l payload reply c w m) e off done = inl (e, done)
    only (sig_handler l) e off done = inr (rw (e, off, done) refl)
