-- ===== src/Tests/Options.antt =====
-- A command line, a configuration file and a host.
use powmon.Base.{ℕ, ◌≡◌, ◌≢◌, refl, none, some, List, [], ◌∷◌}
use powmon.Clib.{ok, bytes}
use powmon.PowMon.Data.{SysData}
use powmon.PowMon.Daemon.{run, sample_here, choose, daemon_status}
use powmon.PowMon.Options.{
  Ini, Settings, Flag, opt_p, opt_t, flag, set_option, parse, load_conf, configured, named, mode_of,
  start_up,
}
use powmon.PowMon.Options.Parsing.{render, applied, IsPlain, parse-render, parse-missing}
use powmon.PowMon.Options.Names.{Up, start_up-Up}
use powmon.Tests.{host, whole, idle}

-- a file with a broker and a topic
abbrev pub ini : Ini
ini = record {
  getstring = λ key default. elim default [ none ↦ some (bytes "org") | some d ↦ some d ];
  getint = λ key default. default;
  getdouble = λ key default. default;
  getboolean = λ key default. default;
}

abbrev settings : Settings
settings = record {
  sysd = host 0 0;
  daemon = run;
  pidfiledir = bytes "./";
  logfiledir = bytes "./";
}

abbrev options : List (Flag × List ℕ)
options = (opt_p, bytes "1884") ∷ (opt_t, bytes "lab") ∷ []

options-IsPlain : IsPlain options
unfolding flag
options-IsPlain = (refl, refl, (refl, refl, tt))

parse-render_example :
    parse whole (λ v. 0) (render options) settings ≡ applied whole (λ v. 0) options settings
parse-render_example = parse-render whole (λ v. 0) options settings options-IsPlain

parse-missing_example : parse whole (λ v. 0) (bytes "run" ∷ bytes "-t" ∷ []) settings ≢ ok settings
parse-missing_example = parse-missing whole (λ v. 0) (bytes "run" ∷ []) opt_t settings settings refl

abbrev site : SysData
site = record (host 0 0) {
  logfile = bytes "./n1_pow_mon.log";
  hostid = some (bytes "node");
  topic = some (bytes "lab/n1");
  cmd_topic = some (bytes "lab/n1/");
  broker_host = some (bytes "org");
}

abbrev pub args : List (List ℕ)
args = bytes "-t" ∷ bytes "lab" ∷ bytes "run" ∷ []

site-starts :
    start_up whole (λ v. 0) (λ path. some ini) args (some (bytes "n1")) (λ path. idle) (host 0 0)
    ≡ ok (record site { dt = 0 }, sample_here, idle)
unfolding start_up load_conf configured mode_of parse set_option flag named choose daemon_status
site-starts = refl

start_up-Up_example :
    Up whole
      (λ v. 0)
      (λ path. some ini)
      args
      (λ path. idle)
      (bytes "n1")
      (host 0 0)
      site
      (sample_here, idle)
start_up-Up_example =
    start_up-Up whole (λ v. 0) (λ path. some ini) args (bytes "n1") (λ path. idle) (host 0 0)
      (record site { dt = 0 }, sample_here, idle) site-starts
