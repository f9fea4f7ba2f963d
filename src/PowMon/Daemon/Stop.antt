-- ===== src/PowMon/Daemon/Stop.antt =====
-- What `daemon_stop` does with the number that `daemonize` writes.
use powmon.Base.{
  arith, ℕ, ◌+◌, ◌<◌, ◌^◌, ◌≡◌, refl, ap, ◌∙◌, some, List, [], ◌∷◌, ◌++◌, length, pos,
}
use powmon.Clib.{ok, bytes, skip_spaces}
use powmon.Clib.Numbers.{value, AllDigits, written, not_space, ltb-true, scan_int-all}
use powmon.PowMon.Daemon.{System, word, scan_word, buffered, daemon_status, read_pid, daemon_stop}

word-written : (ds : List ℕ) → AllDigits ds → word (written ds ++ bytes "\n") ≡ written ds
unfolding word
word-written [] h = refl
word-written (d ∷ ds) h = rw (not_space d h.0) (ap (λ s. (d + b'0') ∷ s) (word-written ds h.1))

skip_spaces-written : (d : ℕ) (s : List ℕ) → d < 10 → skip_spaces ((d + b'0') ∷ s) ≡ (d + b'0') ∷ s
unfolding skip_spaces
skip_spaces-written d s h = rw (not_space d h) refl

scan_word-written :
    (d : ℕ) (ds : List ℕ)
    → AllDigits (d ∷ ds)
    → length (written (d ∷ ds)) < 100
    → scan_word (written (d ∷ ds) ++ bytes "\n") ≡ ok (written (d ∷ ds))
unfolding scan_word
scan_word-written d ds h small =
    ap (λ s. buffered (word s)) (skip_spaces-written d (written ds ++ bytes "\n") h.0)
    ∙ ap buffered (word-written (d ∷ ds) h)
    ∙ rw (ltb-true small) refl

pub daemon_status-written :
    (sys : System) (d : ℕ) (ds : List ℕ)
    → sys.pidfile ≡ some (written (d ∷ ds) ++ bytes "\n")
    → sys.comm (written (d ∷ ds)) ≡ some (bytes "pow_mon\n")
    → AllDigits (d ∷ ds)
    → length (written (d ∷ ds)) < 89
    → daemon_status sys ≡ ok 1
unfolding daemon_status
daemon_status-written sys d ds file comm digits short =
    rw (file, scan_word-written d ds digits (omega arith), ltb-true short, comm) refl

-- Let the pid file hold a decimal number with a newline, as `daemonize` writes it, which fits an
-- `int` and the buffer, and let /proc name that process `pow_mon`. Then `daemon_stop` returns 1 and
-- has sent one SIGINT, to that process.
pub daemon_stop-written :
    (sys : System) (d : ℕ) (ds : List ℕ)
    → sys.pidfile ≡ some (written (d ∷ ds) ++ bytes "\n")
    → sys.comm (written (d ∷ ds)) ≡ some (bytes "pow_mon\n")
    → AllDigits (d ∷ ds)
    → length (written (d ∷ ds)) < 89
    → value 0 (d ∷ ds) < 2 ^ 31
    → daemon_stop sys ≡ ok (1, record sys { signals = pos (value 0 (d ∷ ds)) ∷ sys.signals })
unfolding daemon_stop read_pid daemon_status
daemon_stop-written sys d ds file comm digits short small =
    rw
      (
        file,
        scan_word-written d ds digits (omega arith),
        ltb-true short,
        scan_int-all d ds digits small,
        comm,
      )
      refl
