-- ===== src/PowMon/Options/Names.antt =====
-- What `main` of powmon has found when it goes on to the detection.
use powmon.Base.{ℕ, ◌<◌, ◌≡◌, refl, sym, ap, ◌∙◌, Option, none, some, List, [], ◌++◌, length, pos}
use mathlib.Core.Path.{subst}
use powmon.Clib.{ok, bytes, >>=-eq-ok, ok-injective}
use powmon.Fpu.{Fpu, Double}
use powmon.PowMon.Daemon.{System, Next, choose}
use powmon.PowMon.Daemon.Modes.{Allowed, choose-Allowed}
use powmon.PowMon.Data.{SysData}
use powmon.PowMon.Options.{
  Ini, Settings, fits, given, load_conf, configured, parse, named, start_up,
}
use powmon.PowMon.Options.Kept.{parse-Kept, fits-eq}

-- The names made of the host's, for the topic configured.
record Named (host : List ℕ) (o : Settings) (pidfile : List ℕ) (s : SysData) : Type 0 where
  pub base : List ℕ
  pub configured : o.sysd.topic ≡ some base
  pub topic : s.topic ≡ some (base ++ bytes "/" ++ host)
  pub cmd_topic : s.cmd_topic ≡ some (base ++ bytes "/" ++ host ++ bytes "/")
  pub pid_file : pidfile ≡ o.pidfiledir ++ host ++ bytes "_pow_mon.pid"
  pub pid_room : length pidfile < 256
  pub log_room : length s.logfile < 256
  pub frame : s ≡ record o.sysd { logfile = s.logfile; topic = s.topic; cmd_topic = s.cmd_topic }

given-eq : (v : Option (List ℕ)) {w : List ℕ} → given v ≡ ok w → v ≡ some w
given-eq none e = absurd (cc e)
given-eq (some v) e = ap some (ok-injective _ _ e)

named-Named :
    (host : List ℕ) (o : Settings) (r : List ℕ × SysData)
    → named (some host) o ≡ ok r
    → Named host o r.0 r.1
unfolding named
named-Named host o r e =
    let (pidfile, p, e₁) =
      >>=-eq-ok (fits 256 (o.pidfiledir ++ host ++ bytes "_pow_mon.pid")) _ e in
    let (logfile, l, e₂) =
      >>=-eq-ok (fits 256 (o.logfiledir ++ host ++ bytes "_pow_mon.log")) _ e₁ in
    let (base, b, e₃) = >>=-eq-ok (given o.sysd.topic) _ e₂ in
    let (cmd, c, e₄) = >>=-eq-ok (fits 1024 (base ++ bytes "/" ++ host ++ bytes "/")) _ e₃ in
    let (full, d, e₅) = >>=-eq-ok (fits 1024 (base ++ bytes "/" ++ host)) _ e₄ in
    subst (λ (r : List ℕ × SysData). Named host o r.0 r.1) (ok-injective _ _ e₅)
      (record {
        base = base;
        configured = given-eq o.sysd.topic b;
        topic = ap some (fits-eq _ d).0;
        cmd_topic = ap some (fits-eq _ c).0;
        pid_file = (fits-eq _ p).0;
        pid_room = (fits-eq _ p).1;
        log_room = (fits-eq _ l).1;
        frame = refl;
      })

-- the data without what the options and the names set
abbrev but_options : SysData → SysData
but_options s = record s {
  broker_host = none;
  broker_port = pos 0;
  topic = none;
  cmd_topic = none;
  qos = pos 0;
  dt = 0;
  hostid = none;
  logfile = [];
}

configured-kept :
    (fpu : Fpu) (ini : Ini) (s : SysData) (o : Settings)
    → configured fpu ini s ≡ ok o
    → but_options o.sysd ≡ but_options s
unfolding configured
configured-kept fpu ini s o e =
    let (pid_dir, _, e₁) =
      >>=-eq-ok (given (ini.getstring "Daemon:pidfilename" (some (bytes "./")))) _ e in
    let (_, _, e₂) = >>=-eq-ok (fits 256 pid_dir) _ e₁ in
    let (log_dir, _, e₃) =
      >>=-eq-ok (given (ini.getstring "Daemon:logfilename" (some (bytes "./")))) _ e₂ in
    let (_, _, e₄) = >>=-eq-ok (fits 256 log_dir) _ e₃ in
    sym (ap (λ (r : Settings). but_options r.sysd) (ok-injective _ _ e₄))

-- What `main` has when it goes on to the detection: `options` are the settings of the configuration
-- file after the command line.
pub record Up (fpu : Fpu) (atof : List ℕ → Double) (load : List ℕ → Option Ini)
    (args : List (List ℕ)) (system : List ℕ → System) (host : List ℕ) (s s' : SysData)
    (r : Next × System) : Type 0 where
  pub ini : Ini
  pub loaded : load_conf load ≡ ok ini
  pub defaults : Settings
  pub configured : configured fpu ini s ≡ ok defaults
  pub options : Settings
  pub parsed : parse fpu atof args defaults ≡ ok options
  pub kept : but_options s' ≡ but_options s
  pub base : List ℕ
  pub base_is : options.sysd.topic ≡ some base
  pub topic : s'.topic ≡ some (base ++ bytes "/" ++ host)
  pub cmd_topic : s'.cmd_topic ≡ some (base ++ bytes "/" ++ host ++ bytes "/")
  pub log_room : length s'.logfile < 256
  pub pidfile : List ℕ
  pub pid_file : pidfile ≡ options.pidfiledir ++ host ++ bytes "_pow_mon.pid"
  pub frame :
      s' ≡ record options.sysd { logfile = s'.logfile; topic = s'.topic; cmd_topic = s'.cmd_topic }
  pub pid_room : length pidfile < 256
  pub allowed : Allowed (system pidfile) options.daemon r

-- Where `main` goes on to the detection, of the data only the options, the log file and the topics
-- have changed. The options are those of the configuration file, with what the command line sets over
-- them; the data topic is the topic among them with the host's name, and the topic for commands is that
-- with a slash, whatever was configured for it. The pid file has the host's name in the directory among
-- the options, both file names fit their buffers, and `main` goes on in a way that the mode among the
-- options allows for the process of that file.
pub start_up-Up :
    (fpu : Fpu) (atof : List ℕ → Double) (load : List ℕ → Option Ini) (args : List (List ℕ))
    (host : List ℕ) (system : List ℕ → System) (s : SysData) (r : SysData × Next × System)
    → start_up fpu atof load args (some host) system s ≡ ok r
    → Up fpu atof load args system host s r.0 (r.1, r.2)
unfolding start_up
start_up-Up fpu atof load args host system s r e =
    let (ini, l, e₁) = >>=-eq-ok (load_conf load) _ e in
    let (o, c, e₂) = >>=-eq-ok (configured fpu ini s) _ e₁ in
    let (o', p, e₃) = >>=-eq-ok (parse fpu atof args o) _ e₂ in
    let ((pidfile, s'), n, e₄) = >>=-eq-ok (named (some host) o') _ e₃ in
    let (_, _, e₅) = >>=-eq-ok (given s'.broker_host) _ e₄ in
    let (next, chosen, e₆) = >>=-eq-ok (choose o'.daemon (system pidfile)) _ e₅ in
    let names = named-Named host o' (pidfile, s') n in
    subst (λ (r : SysData × Next × System). Up fpu atof load args system host s r.0 (r.1, r.2))
      (ok-injective _ _ e₆)
      (record {
        kept =
            ap but_options names.frame
            ∙ ap but_options (parse-Kept fpu atof args o o' p).frame
            ∙ configured-kept fpu ini s o c;
        ini = ini;
        loaded = l;
        defaults = o;
        configured = c;
        options = o';
        parsed = p;
        base = names.base;
        base_is = names.configured;
        topic = names.topic;
        cmd_topic = names.cmd_topic;
        log_room = names.log_room;
        pidfile = pidfile;
        pid_file = names.pid_file;
        frame = names.frame;
        pid_room = names.pid_room;
        allowed = choose-Allowed o'.daemon (system pidfile) next chosen;
      })
