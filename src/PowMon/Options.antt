-- ===== src/PowMon/Options.antt =====
-- What `main` of powmon/bin/pow_mon.c does first: the configuration file, the command line, and the
-- names made of the host's name. iniparser, `atof` and the floating-point unit are parameters. A text
-- is the list of its bytes.
pub mod Parsing
pub mod Kept
pub mod Names
use Prim.Native.String.{String}
use powmon.Base.{
  ℕ, ◌+◌, ◌≡◌, Bool, true, false, ◌&&◌, Option, none, some, List, [], ◌∷◌, ◌++◌, length, ltb, ◌==◌,
  if◌then◌else◌, ℤ, pos, is,
}
use powmon.Clib.{Outcome, ok, quit, undefined, ◌>>=◌, bytes, scan_int}
use powmon.Fpu.{Fpu, Double}
use powmon.PowMon.Daemon.{
  atoi, Mode, start, run, stop, status, restart, other, System, Next, choose,
}
use powmon.PowMon.Data.{SysData}

-- iniparser: the value of a key, or the default
pub record Ini : Type 0 where
  pub getstring : String → Option (List ℕ) → Option (List ℕ)
  pub getint : String → ℤ → ℤ
  pub getdouble : String → Double → Double
  pub getboolean : String → ℤ → ℤ

-- the local variables of `main` with the data
pub record Settings : Type 0 where
  pub sysd : SysData
  pub daemon : Mode
  pub pidfiledir : List ℕ
  pub logfiledir : List ℕ

unfoldable pub mode_of : ℤ → Mode
mode_of z =
    if is z 0
    then run
    else if is z 1
    then start
    else if is z 2
    then stop
    else if is z 3
    then status
    else if is z 4
    then restart
    else other

-- `sprintf` or `strcpy` into a buffer of that size, with the closing zero
abbrev pub fits : ℕ → List ℕ → Outcome (List ℕ)
fits size text = if ltb (length text) size then ok text else undefined

-- a null pointer is not to be used
abbrev pub given : Option (List ℕ) → Outcome (List ℕ)
given none = undefined
given (some text) = ok text

-- `iniparser_load` of the file here, then of the one in /etc; without either `usage` ends the process
unfoldable pub load_conf : (List ℕ → Option Ini) → Outcome Ini
load_conf load = elim (load (bytes "pow_mon.conf")) [
  | some ini ↦ ok ini
  | none ↦ elim (load (bytes "/etc/pow_mon.conf")) [ some ini ↦ ok ini | none ↦ quit 0 ]
]

unfoldable pub configured : Fpu → Ini → SysData → Outcome Settings
unfolding mode_of
configured fpu ini s = do
  pid_dir ← given (ini.getstring "Daemon:pidfilename" (some (bytes "./")))
  pidfiledir ← fits 256 pid_dir
  log_dir ← given (ini.getstring "Daemon:logfilename" (some (bytes "./")))
  logfiledir ← fits 256 log_dir
  ok (record {
    sysd = record s {
      broker_host = ini.getstring "MQTT:brokerHost" none;
      broker_port = ini.getint "MQTT:brokerPort" (pos 1883);
      topic = ini.getstring "MQTT:topic" none;
      cmd_topic = ini.getstring "MQTT:cmd_topic" none;
      qos = ini.getint "MQTT:qos" (pos 0);
      dt = fpu.float_of_double (ini.getdouble "Daemon:dT" (fpu.double_of_int (pos 1)));
      hostid = ini.getstring "Daemon:hostid" (some (bytes "node"));
    };
    daemon = mode_of (ini.getboolean "Daemon:daemonize" (pos 0));
    pidfiledir = pidfiledir;
    logfiledir = logfiledir;
  })

-- `strcmp(a, b) == 0`
abbrev pub same : List ℕ → List ℕ → Bool
same [] [] = true
same [] (d ∷ b) = false
same (c ∷ a) [] = false
same (c ∷ a) (d ∷ b) = c == d && same a b

-- the branches of the loop over the arguments
pub data Flag : Type 0 where
  opt_p : Flag
  opt_t : Flag
  opt_i : Flag
  opt_b : Flag
  opt_q : Flag
  opt_s : Flag
  opt_n : Flag
  opt_x : Flag
  opt_l : Flag
  opt_h : Flag
  opt_v : Flag
  word_of : Mode → Flag
  no_flag : Flag

-- the tests of the loop, in their order
unfoldable pub flag : List ℕ → Flag
flag a =
    if same a (bytes "-p")
    then opt_p
    else if same a (bytes "-t")
    then opt_t
    else if same a (bytes "-i")
    then opt_i
    else if same a (bytes "-b")
    then opt_b
    else if same a (bytes "-q")
    then opt_q
    else if same a (bytes "-s")
    then opt_s
    else if same a (bytes "-n")
    then opt_n
    else if same a (bytes "-x")
    then opt_x
    else if same a (bytes "-l")
    then opt_l
    else if same a (bytes "-h")
    then opt_h
    else if same a (bytes "-v")
    then opt_v
    else if same a (bytes "start")
    then word_of start
    else if same a (bytes "run")
    then word_of run
    else if same a (bytes "stop")
    then word_of stop
    else if same a (bytes "status")
    then word_of status
    else if same a (bytes "restart")
    then word_of restart
    else no_flag

-- `argv[i + 1]`: after the last argument it is a null pointer, which every branch then uses.
abbrev pub value : List (List ℕ) → Outcome (List ℕ)
value [] = undefined
value (v ∷ rest) = ok v

module _ (fpu : Fpu) (atof : List ℕ → Double) where
  -- the body of a branch, with the arguments that follow
  unfoldable pub set_option : Flag → List (List ℕ) → Settings → Outcome Settings
  set_option opt_p rest o = do
    v ← value rest
    n ← atoi (scan_int v)
    ok (record o { sysd = record o.sysd { broker_port = n } })
  set_option opt_t rest o = do
    v ← value rest
    ok (record o { sysd = record o.sysd { topic = some v } })
  set_option opt_i rest o = do
    v ← value rest
    ok (record o { sysd = record o.sysd { cmd_topic = some v } })
  set_option opt_b rest o = do
    v ← value rest
    ok (record o { sysd = record o.sysd { broker_host = some v } })
  set_option opt_q rest o = do
    v ← value rest
    n ← atoi (scan_int v)
    ok (record o { sysd = record o.sysd { qos = n } })
  set_option opt_s rest o = do
    v ← value rest
    ok (record o { sysd = record o.sysd { dt = fpu.float_of_double (atof v) } })
  set_option opt_n rest o = do
    v ← value rest
    ok (record o { sysd = record o.sysd { hostid = some v } })
  set_option opt_x rest o = do v ← value rest; dir ← fits 256 v; ok (record o { pidfiledir = dir })
  set_option opt_l rest o = do v ← value rest; dir ← fits 256 v; ok (record o { logfiledir = dir })
  set_option opt_h rest o = quit 0
  set_option opt_v rest o = quit 0
  set_option (word_of mode) rest o = ok (record o { daemon = mode })
  set_option no_flag rest o = ok o

  -- The loop: the value of an option is an argument again in the next round.
  unfoldable pub parse : List (List ℕ) → Settings → Outcome Settings
  unfolding set_option flag
  parse [] o = ok o
  parse (a ∷ rest) o = do o' ← set_option (flag a) rest o; parse rest o'

-- The names made of the host's name: the pid file, and in the data the log file and the two topics.
-- The topic for commands is made anew, whatever was configured.
unfoldable pub named : Option (List ℕ) → Settings → Outcome (List ℕ × SysData)
named none o = quit 1
named (some hostname) o = do
  pidfile ← fits 256 (o.pidfiledir ++ hostname ++ bytes "_pow_mon.pid")
  logfile ← fits 256 (o.logfiledir ++ hostname ++ bytes "_pow_mon.log")
  topic ← given o.sysd.topic
  cmd_topic ← fits 1024 (topic ++ bytes "/" ++ hostname ++ bytes "/")
  data_topic ← fits 1024 (topic ++ bytes "/" ++ hostname)
  ok (
    pidfile,
    record o.sysd { logfile = logfile; cmd_topic = some cmd_topic; topic = some data_topic },
  )

-- `main` up to the choice of the mode. The broker's name is used for `rdate`, so it must be there.
unfoldable pub start_up :
    Fpu
    → (List ℕ → Double)
    → (List ℕ → Option Ini)
    → List (List ℕ)
    → Option (List ℕ)
    → (List ℕ → System)
    → SysData
    → Outcome (SysData × Next × System)
unfolding load_conf configured parse named choose
start_up fpu atof load args hostname system s = do
  ini ← load_conf load
  o ← configured fpu ini s
  o' ← parse fpu atof args o
  (pidfile, s') ← named hostname o'
  _ ← given s'.broker_host
  (next, sys) ← choose o'.daemon (system pidfile)
  ok (s', next, sys)
