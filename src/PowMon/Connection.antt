-- ===== src/PowMon/Connection.antt =====
-- The connection to the broker in powmon/bin/pow_mon.c: `on_connect_callback`, and `main` from the
-- first sampling to the loop and from the loop to its end. The library mosquitto is a parameter, by
-- what its calls answer; what `main` calls is a list, in order.
pub mod Retried
use powmon.Base.{
  ℕ, zero, suc, ◌+◌, ◌≡◌, Bool, true, false, if◌then◌else◌, Option, none, some, List, [], ◌∷◌, ◌++◌,
  ℤ, is,
}
use powmon.Clib.{Outcome, ok, quit, undefined}
use powmon.PowMon.Data.{SysData}

pub data Call : Type 0 where
  lib_init : Call
  new : Call
  connect : (host : Option (List ℕ)) (port : ℤ) → Call
  sleep_minute : Call
  loop_start : Call
  log : Call
  disconnect : Call
  destroy : Call
  free_records : Call

-- What mosquitto answers: whether `mosquitto_new` gives a client, whether each attempt to connect
-- succeeds, and whether the client disconnects; and whether the log can be opened at the end.
pub record Broker : Type 0 where
  pub creates : Bool
  pub accepts : ℕ → Bool
  pub disconnects : Bool
  pub log_opens : Bool

-- The topic that `on_connect_callback` subscribes to, where the connection was made.
unfoldable on_connect : ℤ → SysData → Option (Option (List ℕ))
on_connect result s = if is result 0 then some s.cmd_topic else none

module _ (broker : Broker) (s : SysData) where
  abbrev pub attempt : Call
  attempt = connect s.broker_host s.broker_port

  -- an attempt that failed, before the others
  abbrev retry : Option (List Call) → Option (List Call)
  retry none = none
  retry (some calls) = some (attempt ∷ sleep_minute ∷ calls)

  -- The loop around `mosquitto_connect`, with the attempts made so far. It has no bound of its own:
  -- `none` says that the fuel ran out.
  unfoldable pub connecting : ℕ → ℕ → Option (List Call)
  connecting zero made = none
  connecting (suc fuel) made =
      let again = retry (connecting fuel (made + 1)) in
      if broker.accepts made then some (attempt ∷ []) else again

  abbrev pub opened : Option (List Call) → Option (Outcome (List Call))
  opened none = none
  opened (some calls) = some (ok (lib_init ∷ new ∷ (calls ++ loop_start ∷ [])))

  -- from the first sampling to the loop
  unfoldable pub open_session : ℕ → Option (Outcome (List Call))
  unfolding connecting
  open_session fuel = if broker.creates then opened (connecting fuel 0) else some (quit 1)

  -- from the loop to the end, with the calls made. The log is not tested before it is written to.
  unfoldable pub close_session : Outcome (Unit {0}) × List Call
  close_session =
      if broker.log_opens
      then (if broker.disconnects
          then (quit 0, log ∷ disconnect ∷ destroy ∷ free_records ∷ [])
          else (quit 1, log ∷ disconnect ∷ []))
      else (undefined, log ∷ [])
