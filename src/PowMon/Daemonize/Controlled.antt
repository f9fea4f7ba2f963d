-- ===== src/PowMon/Daemonize/Controlled.antt =====
-- The daemon which `daemonize` leaves behind, and what later calls find.
use mathlib.Core.Path.{subst}
use powmon.Base.{
  ℕ, suc, ◌==◌, if◌then◌else◌, ◌<◌, ◌^◌, ◌≡◌, refl, sym, ap, ◌∙◌, true, Bool, some, List, [], ◌∷◌,
  ◌++◌, length, pos, arith,
}
use powmon.Clib.{ok, quit, ◌>>=◌, bytes}
use powmon.Clib.Decimal.{decimal, digits_fuel, digits_fuel-Spells}
use powmon.Clib.Numbers.{value, AllDigits, written}
use powmon.PowMon.Daemon.{
  System, daemon_status, daemon_stop, start, run, choose, sample_here, sample_in_child,
}
use powmon.PowMon.Daemon.Stop.{daemon_stop-written, daemon_status-written}
use powmon.PowMon.Daemonize.{parent, launch, daemonize}

choose-idle :
    (sys : System) → daemon_status sys ≡ ok 0 → choose start sys ≡ ok (sample_in_child, sys)
unfolding choose
choose-idle sys e =
    ap (λ o. o >>= λ running. if running == 0 then ok (sample_in_child, sys) else quit 0) e

choose-busy :
    (sys : System)
    → daemon_status sys ≡ ok 1
    → (choose start sys ≡ quit 0) × (choose run sys ≡ quit 0)
unfolding choose
choose-busy sys e = (
  ap (λ o. o >>= λ running. if running == 0 then ok (sample_in_child, sys) else quit 0) e,
  ap (λ o. o >>= λ running. if running == 0 then ok (sample_here, sys) else quit 0) e,
)

length-written : (ds : List ℕ) → length (written ds) ≡ length ds
length-written [] = refl
length-written (d ∷ ds) = ap suc (length-written ds)

decimal-written : (n : ℕ) {ds : List ℕ} → digits_fuel 10 n ≡ ds → decimal n ≡ written ds
unfolding decimal
decimal-written n e = ap written e

-- What later calls find of a daemon with this number.
pub record Controls (pid : ℕ) (sys : System) : Type 0 where
  pub running : daemon_status sys ≡ ok 1
  pub no_second : (choose start sys ≡ quit 0) × (choose run sys ≡ quit 0)
  pub stops : daemon_stop sys ≡ ok (1, record sys { signals = pos pid ∷ sys.signals })

-- Let no daemon run, the pid file be writable, and `fork` answer the parent with a number that fits an
-- `int`. Then the parent ends with status 0 and has written the pid file; and as long as /proc names
-- that process `pow_mon`, the calls that come later see it run, start no second one, and a stop sends
-- one SIGINT, to exactly that process.
pub launch-Controls :
    (pid : ℕ) (session : Bool) (sys : System)
    → pid < 2 ^ 31
    → daemon_status sys ≡ ok 0
    → sys.comm (decimal pid) ≡ some (bytes "pow_mon\n")
    → ((launch start (parent pid) true session sys).0 ≡ quit 0)
      × Controls pid (launch start (parent pid) true session sys).1
unfolding launch daemonize
launch-Controls pid session sys small idle comm =
    let s = digits_fuel-Spells 9 pid (omega arith) in
    let now = record sys { pidfile = some (decimal pid ++ bytes "\n") } in
    let spelled = decimal-written pid s.is in
    let file : now.pidfile ≡ some (written (s.first ∷ s.others) ++ bytes "\n") =
      ap (λ w. some (w ++ bytes "\n")) spelled in
    let named : sys.comm (written (s.first ∷ s.others)) ≡ some (bytes "pow_mon\n") =
      ap sys.comm (sym spelled) ∙ comm in
    let digits : AllDigits (s.first ∷ s.others) = subst AllDigits s.is s.digits in
    let number : value 0 (s.first ∷ s.others) ≡ pid = ap (value 0) (sym s.is) ∙ s.number in
    let short : length (written (s.first ∷ s.others)) < 89 =
      omega (arith, length-written (s.first ∷ s.others), ap length s.is, s.short) in
    let runs = daemon_status-written now s.first s.others file named digits short in
    rw (choose-idle sys idle) (
      refl,
      record {
        running = runs;
        no_second = choose-busy now runs;
        stops =
            daemon_stop-written now s.first s.others file named digits short (omega (arith, number))
            ∙ ap (λ (n : ℕ). ok (1, record now { signals = pos n ∷ sys.signals })) number;
      },
    )
