-- ===== src/NodeSmp/Main.antt =====
-- `main` of pow_node_smp/pow_mon.c from its start to its loop: the three options of the command line,
-- the detection and the first sampling. What is printed is left out, and `atof` is a parameter.
pub mod Started
pub mod Whole
pub mod Returns
use powmon.Base.{ℕ, ◌||◌, if◌then◌else◌, Option, some, List, [], ◌∷◌}
use powmon.Machine.{Cmd, ◌>>=◌ as and_then}
use powmon.Clib.{Outcome, ok, quit, ◌>>=◌, bytes}
use powmon.Fpu.{Fpu, Double}
use powmon.PowMon.Options.{same, value}
use powmon.PowMon.Start.{command}
use powmon.NodeSmp.Data.{SysData}
use powmon.NodeSmp.Run.{Env, init_pow_mon, set_up}

-- what the process finds on the system and on its command line
pub record Site : Type 0 where
  pub atof : List ℕ → Double
  pub args : List (List ℕ)
  pub model_file : List ℕ
  pub topology_file : List ℕ

module _ (fpu : Fpu) (atof : List ℕ → Double) where
  -- The loop over the arguments. The value of -s is tested as an argument again.
  unfoldable pub parse : List (List ℕ) → SysData → Outcome SysData
  parse [] s = ok s
  parse (a ∷ args) s =
      let interval = (do
        v ← value args
        parse args (record s { dt = fpu.float_of_double (atof v) })) in
      let other = parse args s in
      if same a (bytes "-v") || same a (bytes "-h")
      then quit 0
      else if same a (bytes "-s")
      then interval
      else other

-- the data with which the loop is entered
unfoldable pub until_loop : Env → Site → Cmd SysData
unfolding parse
until_loop env site =
    and_then (command (parse env.fpu site.atof site.args (record init_pow_mon { dt = 0x3f800000 })))
      (set_up env (some site.model_file) (some site.topology_file))
