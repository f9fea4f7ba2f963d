-- ===== src/PowMon/Message/Kept.antt =====
-- What a command leaves of the data.
use mathlib.Core.Path.{subst}
use powmon.Base.{ℕ, ◌≡◌, refl, ◌∙◌, Option, List, Bool, true, false, none, if◌then◌else◌}
use powmon.Clib.{
  Outcome, ok, >>=-eq-ok, ok-injective, bytes, bufsiz, has_prefix, skip_spaces, skip_word, scan_int,
}
use powmon.Fpu.{Float}
use powmon.PowMon.Daemon.{word}
use powmon.PowMon.Data.{SysData}
use powmon.PowMon.Message.{
  Reply, operands, scanned, port_of, set_interval, set_broker, set_topic, on_message,
}

-- the data but for the interval and the topic
abbrev pub but_command : SysData → SysData
but_command s = record s { dt = 0; topic = none }

-- either branch of a test
branch :
    {A : Type 0} (b : Bool) (x y : Outcome A) (P : A → Type 0)
    → ((a : A) → x ≡ ok a → P a)
    → ((a : A) → y ≡ ok a → P a)
    → (a : A) → (if b then x else y) ≡ ok a
    → P a
branch true x y P f g = f
branch false x y P f g = g

module _ (payload : List ℕ) (r : Reply) where
  abbrev Keeps : Reply → Type 0
  Keeps r' = but_command r'.sysd ≡ but_command r.sysd

  settled : (q : Reply) → Keeps q → (r' : Reply) → ok q ≡ ok r' → Keeps r'
  settled q k r' e = subst Keeps (ok-injective q r' e) k

  set_interval-Keeps :
      (scan_float : List ℕ → Option Float) (r' : Reply)
      → set_interval scan_float payload r ≡ ok r'
      → Keeps r'
  unfolding set_interval
  set_interval-Keeps scan_float =
      branch (has_prefix (bytes "-s") payload) _ _ Keeps (settled _ refl) (settled r refl)

  set_broker-Keeps : (r' : Reply) → set_broker payload r ≡ ok r' → Keeps r'
  unfolding set_broker
  set_broker-Keeps =
      branch (has_prefix (bytes "-b") payload) _ _ Keeps
        (λ r' e.
          let (_, _, e') = >>=-eq-ok (scanned 256 (word (skip_spaces (operands payload)))) _ e in
          let (_, _, e'') =
            >>=-eq-ok (port_of (scan_int (skip_word (skip_spaces (operands payload))))) _ e' in
          settled _ refl r' e'')
        (settled r refl)

  set_topic-Keeps : (r' : Reply) → set_topic payload r ≡ ok r' → Keeps r'
  unfolding set_topic
  set_topic-Keeps =
      branch (has_prefix (bytes "-t") payload) _ _ Keeps
        (λ r' e.
          let (_, _, e') = >>=-eq-ok (scanned bufsiz (word (skip_spaces (operands payload)))) _ e in
          settled _ refl r' e')
        (settled r refl)

-- A command changes nothing of the data but the interval and the topic.
pub on_message-kept :
    (scan_float : List ℕ → Option Float) (payload : List ℕ) (s : SysData) (r : Reply)
    → on_message scan_float payload s ≡ ok r
    → but_command r.sysd ≡ but_command s
unfolding on_message
on_message-kept scan_float payload s r e =
    let (r₁, e₁, rest) = >>=-eq-ok (set_interval scan_float payload _) _ e in
    let (r₂, e₂, e₃) = >>=-eq-ok (set_broker payload r₁) _ rest in
    set_topic-Keeps payload r₂ r e₃
    ∙ set_broker-Keeps payload r₁ r₂ e₂
    ∙ set_interval-Keeps payload _ scan_float r₁ e₁
