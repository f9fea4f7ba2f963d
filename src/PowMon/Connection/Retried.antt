-- ===== src/PowMon/Connection/Retried.antt =====
-- How long the connection to the broker takes, and how the process ends.
use powmon.Base.{
  ℕ, zero, suc, ◌+◌, ◌<◌, ◌≡◌, refl, ap, ◌∙◌, true, false, some, List, [], ◌∷◌, ◌++◌, arith,
}
use powmon.Clib.{ok}
use powmon.PowMon.Data.{SysData}
use powmon.PowMon.Connection.{
  Call, lib_init, new, connect, sleep_minute, loop_start, Broker, connecting, open_session,
}

-- so many failed attempts, each with its sleep, and one that succeeds
abbrev pub retried : SysData → ℕ → List Call
retried s zero = connect s.broker_host s.broker_port ∷ []
retried s (suc n) = connect s.broker_host s.broker_port ∷ sleep_minute ∷ retried s n

module _ (broker : Broker) (s : SysData) where
  connecting-retried :
      (failures fuel made : ℕ)
      → failures < fuel
      → ((i : ℕ) → i < failures → broker.accepts (made + i) ≡ false)
      → broker.accepts (made + failures) ≡ true
      → connecting broker s fuel made ≡ some (retried s failures)
  unfolding connecting
  connecting-retried failures zero made enough bad good = absurd (omega arith)
  connecting-retried zero (suc fuel) made enough bad good =
      rw (ap broker.accepts {x = made} {y = made + 0} (omega arith) ∙ good) refl
  connecting-retried (suc n) (suc fuel) made enough bad good =
      let first : broker.accepts made ≡ false =
        ap broker.accepts {x = made} {y = made + 0} (omega arith) ∙ bad 0 (omega arith) in
      let rest =
        connecting-retried n fuel (made + 1) (omega arith)
          (λ i lt.
            ap broker.accepts {x = made + 1 + i} {y = made + (i + 1)} (omega arith)
            ∙ bad (i + 1) (omega arith))
          (ap broker.accepts {x = made + 1 + n} {y = made + suc n} (omega arith) ∙ good) in
      rw first (rw rest refl)

  -- Where mosquitto gives a client and so many attempts fail before one succeeds, any fuel above that
  -- number is enough: `main` comes to its loop with the network thread started, having tried once more
  -- than it failed, and slept a minute after each failure.
  pub open_session-retried :
      (failures fuel : ℕ)
      → broker.creates ≡ true
      → failures < fuel
      → ((i : ℕ) → i < failures → broker.accepts i ≡ false)
      → broker.accepts failures ≡ true
      → open_session broker s fuel
        ≡ some (ok (lib_init ∷ new ∷ (retried s failures ++ loop_start ∷ [])))
  unfolding open_session
  open_session-retried failures fuel created enough bad good =
      let run =
        connecting-retried failures fuel 0 enough
          (λ i lt. ap broker.accepts {x = 0 + i} {y = i} (omega arith) ∙ bad i lt)
          (ap broker.accepts {x = 0 + failures} {y = failures} (omega arith) ∙ good) in
      rw (created, run) refl
