-- ===== src/PowMon/Message.antt =====
-- `on_message_callback` of powmon/bin/pow_mon.c: the commands that the broker passes on. The payload
-- is taken as a text that ends with a zero, as the code reads it; what `%f` reads is a parameter. The
-- calls that go to the broker are recorded.
pub mod Kept
use powmon.Base.{ℕ, ◌≡◌, Bool, true, false, Option, none, some, List, [], ◌∷◌, if◌then◌else◌, ℤ}
use powmon.Clib.{
  Outcome, ok, undefined, ◌>>=◌, bytes, bufsiz, has_prefix, skip_spaces, skip_word, skip_string,
  scan_int, Scanned, matched, unmatched, out_of_range,
}
use powmon.Fpu.{Float}
use powmon.PowMon.Daemon.{word}
use powmon.PowMon.Data.{SysData}
use powmon.PowMon.Options.{fits}

-- What a command does: to the data, to the timer, and to the connection.
pub record Reply : Type 0 where
  pub sysd : SysData
  pub restarts : Bool
  pub connects : Option (List ℕ × ℤ)

-- the text after the command's word, where there is one
abbrev pub operands : List ℕ → List ℕ
operands payload = elim (skip_string payload) [ none ↦ [] | some rest ↦ rest ]

-- `%s` into a buffer that was not set before: without a word the buffer is used as it is
abbrev pub scanned : ℕ → List ℕ → Outcome (List ℕ)
scanned size [] = undefined
scanned size (c ∷ w) = fits size (c ∷ w)

-- `%d` into a variable that was not set before
abbrev pub port_of : Scanned → Outcome ℤ
port_of (matched z) = ok z
port_of unmatched = undefined
port_of out_of_range = undefined

abbrev read_or : Float → Option Float → Float
read_or old none = old
read_or old (some new) = new

unfoldable pub set_interval : (List ℕ → Option Float) → List ℕ → Reply → Outcome Reply
set_interval scan_float payload r =
    if has_prefix (bytes "-s") payload
    then ok (record r {
      sysd = record r.sysd { dt = read_or r.sysd.dt (scan_float (operands payload)) };
      restarts = true;
    })
    else ok r

unfoldable pub set_broker : List ℕ → Reply → Outcome Reply
unfolding skip_spaces skip_word skip_string word scan_int
set_broker payload r =
    if has_prefix (bytes "-b") payload
    then (do
      host ← scanned 256 (word (skip_spaces (operands payload)))
      port ← port_of (scan_int (skip_word (skip_spaces (operands payload))))
      ok (record r { connects = some (host, port) }))
    else ok r

unfoldable pub set_topic : List ℕ → Reply → Outcome Reply
unfolding skip_spaces skip_string word
set_topic payload r =
    if has_prefix (bytes "-t") payload
    then (do
      topic ← scanned bufsiz (word (skip_spaces (operands payload)))
      ok (record r { sysd = record r.sysd { topic = some topic } }))
    else ok r

-- The three tests, one after the other. A message without a payload does nothing.
unfoldable pub on_message : (List ℕ → Option Float) → List ℕ → SysData → Outcome Reply
unfolding set_interval set_broker set_topic
on_message scan_float payload s = do
  r₁ ← set_interval scan_float payload (record { sysd = s; restarts = false; connects = none })
  r₂ ← set_broker payload r₁
  set_topic payload r₂
