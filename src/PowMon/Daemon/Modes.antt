-- ===== src/PowMon/Daemon/Modes.antt =====
-- When the monitor samples, and which process it stops.
use mathlib.Core.Path.{subst}
use powmon.Base.{
  ℕ, ◌≡◌, ◌≢◌, refl, sym, ap, ◌∙◌, ◌⊎◌, inl, inr, Bool-cases, false, ◌∷◌, ◌==◌, ==→eq, ℤ, arith,
}
use powmon.Clib.{Outcome, ok, ok-injective, >>=-eq-ok}
use powmon.PowMon.Daemon.{
  System, daemon_status, daemon_stop, read_pid, Mode, start, run, stop, status, restart, other,
  Next, sample_here, sample_in_child, choose,
}

-- What `main` may go on with, and what it did before.
pub data Allowed (sys : System) : Mode → Next × System → Type 0 where
  starts : daemon_status sys ≡ ok 0 → Allowed sys start (sample_in_child, sys)
  runs : daemon_status sys ≡ ok 0 → Allowed sys run (sample_here, sys)
  restarts :
      {n : ℕ} (pid : ℤ)
      → daemon_status sys ≡ ok n
      → n ≢ 0
      → read_pid sys.pidfile ≡ ok pid
      → Allowed sys restart (sample_in_child, record sys { signals = pid ∷ sys.signals })

-- `daemon_stop` returns 0 and does nothing where no daemon runs; otherwise it returns 1 and has sent
-- a SIGINT to the process of the pid file.
abbrev pub Stops : System → ℕ × System → Type 0
Stops sys (r, sys') =
    ((daemon_status sys ≡ ok 0) × (r ≡ 0) × (sys' ≡ sys))
    ⊎ ((r ≡ 1)
        × (daemon_status sys ≢ ok 0)
        × (pid : ℤ) × (read_pid sys.pidfile ≡ ok pid)
        × (sys' ≡ record sys { signals = pid ∷ sys.signals }))

not_ok_zero : {o : Outcome ℕ} {n : ℕ} → o ≡ ok n → (n == 0) ≡ false → o ≢ ok 0
not_ok_zero {o} {n} e h z = let same = ok-injective n 0 (sym e ∙ z) in ground arith

-- A `daemon_stop` that returns gives 0 and leaves the system where no daemon runs; otherwise it gives
-- 1 and has sent one SIGINT, to the process that the pid file names.
daemon_stop-Stops : (sys : System) (r : ℕ × System) → daemon_stop sys ≡ ok r → Stops sys r
unfolding daemon_stop
daemon_stop-Stops sys r h =
    let (pid, read, rest) = >>=-eq-ok (read_pid sys.pidfile) _ h in
    let (n, found, last) = >>=-eq-ok (daemon_status sys) _ rest in
    elim (Bool-cases (n == 0)) [
      | inl e ↦
          let same = ok-injective (0, sys) r (rw e at last) in
          subst (Stops sys) same (inl (found ∙ ap ok (==→eq n 0 e), refl, refl))
      | inr e ↦
          let same =
            ok-injective (1, record sys { signals = pid ∷ sys.signals }) r (rw e at last) in
          subst (Stops sys) same (inr (refl, not_ok_zero found e, pid, read, refl))
    ]

-- Where `main` goes on to sample, in whichever mode, it does so as that mode allows: `start` and
-- `run` only where no daemon was running, with the system untouched, and `restart` only where one
-- was, after a SIGINT to the process of the pid file. The other modes end the process.
pub choose-Allowed :
    (mode : Mode) (sys : System) (r : Next × System) → choose mode sys ≡ ok r → Allowed sys mode r
unfolding choose
choose-Allowed start sys r h =
    let (n, found, last) = >>=-eq-ok (daemon_status sys) _ h in
    elim (Bool-cases (n == 0)) [
      | inl e ↦
          subst (Allowed sys start) (ok-injective (sample_in_child, sys) r (rw e at last))
            (starts (found ∙ ap ok (==→eq n 0 e)))
      | inr e ↦ let never = rw e at last in cc
    ]
choose-Allowed run sys r h =
    let (n, found, last) = >>=-eq-ok (daemon_status sys) _ h in
    elim (Bool-cases (n == 0)) [
      | inl e ↦
          subst (Allowed sys run) (ok-injective (sample_here, sys) r (rw e at last))
            (runs (found ∙ ap ok (==→eq n 0 e)))
      | inr e ↦ let never = rw e at last in cc
    ]
choose-Allowed stop sys r h = let (done, found, last) = >>=-eq-ok (daemon_stop sys) _ h in cc
choose-Allowed status sys r h = let (n, found, last) = >>=-eq-ok (daemon_status sys) _ h in cc
choose-Allowed restart sys r h =
    let (n, found, last) = >>=-eq-ok (daemon_status sys) _ h in
    elim (Bool-cases (n == 0)) [
      | inl e ↦ let never = rw e at last in cc
      | inr e ↦
          let (done, stopped, ended) = >>=-eq-ok (daemon_stop sys) _ (rw e at last) in
          elim (daemon_stop-Stops sys done stopped) [
            | inl (idle, _, _) ↦ absurd (not_ok_zero found e idle)
            | inr (one, busy, pid, read, now) ↦
                subst (Allowed sys restart)
                  (ok-injective (sample_in_child, record sys { signals = pid ∷ sys.signals }) r
                    (ap (λ x. ok (sample_in_child, x)) (sym now) ∙ ended))
                  (restarts pid found (λ z. ground arith) read)
          ]
    ]
choose-Allowed other sys r h = cc
