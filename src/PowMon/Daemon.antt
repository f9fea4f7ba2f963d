-- ===== src/PowMon/Daemon.antt =====
-- The control of the daemon in powmon/bin/pow_mon.c: `daemon_status`, `daemon_stop`, and the `switch`
-- of `main` on the mode. What is printed is left out, and so is the log file that two modes open.
pub mod Modes
pub mod Stop
use powmon.Base.{ℕ, Option, none, some, List, [], ◌∷◌, ltb, if◌then◌else◌, ◌==◌, length, ℤ, pos}
use powmon.Clib.{
  Outcome, ok, quit, undefined, ◌>>=◌, bytes, has_prefix, is_space, skip_spaces, scan_int, Scanned,
  matched, unmatched, out_of_range,
}

-- What the functions see of the system: the pid file and, for a process by the text of its number,
-- the name that /proc gives. `signals` lists the processes sent a SIGINT, the newest first.
pub record System : Type 0 where
  pub pidfile : Option (List ℕ)
  pub comm : List ℕ → Option (List ℕ)
  pub signals : List ℤ

unfoldable pub word : List ℕ → List ℕ
word [] = []
word (c ∷ s) = let rest = word s in if is_space c then [] else c ∷ rest

-- the word in a buffer of 100 bytes that were not set before
abbrev pub buffered : List ℕ → Outcome (List ℕ)
buffered [] = undefined
buffered (c ∷ w) = if ltb (length (c ∷ w)) 100 then ok (c ∷ w) else undefined

-- `fscanf(fp, "%s", buffer)`. Where no word is found the buffer is used as it is, and a longer word
-- overruns it.
unfoldable pub scan_word : List ℕ → Outcome (List ℕ)
unfolding skip_spaces word
scan_word file = buffered (word (skip_spaces file))

abbrev own_name : List ℕ
own_name = bytes "pow_mon"

abbrev name_status : Option (List ℕ) → Outcome ℕ
name_status none = ok 0
name_status (some comm) = do name ← scan_word comm; ok (if has_prefix own_name name then 1 else 0)

-- The path made of the number is to fit 100 bytes with its closing zero, which leaves 88 to the number.
abbrev file_status : (List ℕ → Option (List ℕ)) → Option (List ℕ) → Outcome ℕ
file_status comm none = ok 0
file_status comm (some file) = do
  pid ← scan_word file
  if ltb (length pid) 89 then name_status (comm pid) else undefined

unfoldable pub daemon_status : System → Outcome ℕ
unfolding scan_word
daemon_status sys = file_status sys.comm sys.pidfile

-- `atoi`
abbrev pub atoi : Scanned → Outcome ℤ
atoi (matched z) = ok z
atoi unmatched = ok (pos 0)
atoi out_of_range = undefined

-- The number that `daemon_stop` reads first. Without a file it is not set, and not used.
unfoldable pub read_pid : Option (List ℕ) → Outcome ℤ
unfolding scan_word scan_int
read_pid none = ok (pos 0)
read_pid (some file) = do pid ← scan_word file; atoi (scan_int pid)

-- the value returned and the system
unfoldable pub daemon_stop : System → Outcome (ℕ × System)
unfolding read_pid daemon_status
daemon_stop sys = do
  pid ← read_pid sys.pidfile
  status ← daemon_status sys
  ok (if status == 0 then (0, sys) else (1, record sys { signals = pid ∷ sys.signals }))

pub data Mode : Type 0 where
  start : Mode
  run : Mode
  stop : Mode
  status : Mode
  restart : Mode
  -- any other number, as -1 where no mode was given
  other : Mode

-- What `main` goes on with: sampling in this process, or in a child by `daemonize`.
pub data Next : Type 0 where
  sample_here : Next
  sample_in_child : Next

unfoldable pub choose : Mode → System → Outcome (Next × System)
unfolding daemon_stop
choose start sys = do
  running ← daemon_status sys
  if running == 0 then ok (sample_in_child, sys) else quit 0
choose stop sys = daemon_stop sys >>= λ _. quit 0
choose run sys = do
  running ← daemon_status sys
  if running == 0 then ok (sample_here, sys) else quit 0
choose status sys = daemon_status sys >>= λ _. quit 0
choose restart sys = do
  running ← daemon_status sys
  if running == 0 then quit 0 else (do (_, sys') ← daemon_stop sys; ok (sample_in_child, sys'))
choose other sys = quit 0
