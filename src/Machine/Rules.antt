-- ===== src/Machine/Rules.antt =====
-- Postconditions of commands: `Runs Q E r` says that `r` is no fault, that its value and trace
-- satisfy `Q` if it returns, and that its status and trace satisfy `E` if it exits.
use mathlib.Core.Path.{subst}
use powmon.Base.{ℕ, ◌≡◌, refl, Option, some}
use powmon.Machine.{Trace, Run, ret, exit, fault, Cmd, and_then, checked}

pub data Runs {A : Type 0} (Q : A → Trace → Type 0) (E : ℕ → Trace → Type 0) : Run A → Type 0 where
  returns : {a : A} {t : Trace} → Q a t → Runs Q E (ret a t)
  exits : {c : ℕ} {t : Trace} → E c t → Runs Q E (exit c t)

module _ {A : Type 0} {Q : A → Trace → Type 0} {E : ℕ → Trace → Type 0} where
  pub bind :
      {B : Type 0} {R : B → Trace → Type 0} {r : Run A} {k : A → Cmd B}
      → Runs Q E r
      → ((a : A) (t : Trace) → Q a t → Runs R E (k a t))
      → Runs R E (and_then r k)
  bind (returns q) next = next _ _ q
  bind (exits e) next = exits e

  pub mono :
      {R : A → Trace → Type 0} {r : Run A}
      → Runs Q E r
      → ((a : A) (t : Trace) → Q a t → R a t)
      → Runs R E r
  mono (returns q) weaken = returns (weaken _ _ q)
  mono (exits e) weaken = exits e

module _ {A : Type 0} {Q : A → Trace → Type 0} {E : ℕ → Trace → Type 0} where
  returned : {a : A} {t : Trace} → Runs Q E (ret a t) → Q a t
  returned (returns q) = q

  -- The postcondition of a command that returned.
  pub of_ret : {r : Run A} {a : A} {t : Trace} → r ≡ ret a t → Runs Q E r → Q a t
  of_ret e p = returned (subst (Runs Q E) e p)

-- A command that returned, as an equation beside its postcondition.
pub recall :
    {A : Type 0} {Q : A → Trace → Type 0} {E : ℕ → Trace → Type 0} {r : Run A}
    → Runs Q E r
    → Runs (λ a t. (r ≡ ret a t) × Q a t) E r
recall (returns q) = returns (refl, q)
recall (exits e) = exits e

-- The condition of a command that ended the process.
pub of_exit :
    {A : Type 0} {Q : A → Trace → Type 0} {E : ℕ → Trace → Type 0} {r : Run A} {c : ℕ} {t : Trace}
    → r ≡ exit c t
    → Runs Q E r
    → E c t
of_exit {Q} {E} e p = stopped (subst (Runs Q E) e p)
  where
    stopped : {c : ℕ} {t : Trace} → Runs Q E (exit c t) → E c t
    stopped (exits x) = x

-- Inversion of a bind that returned.
pub and_then-eq_ret :
    {A B : Type 0} (r : Run A) (k : A → Cmd B) {b : B} {t : Trace}
    → and_then r k ≡ ret b t
    → (a : A) × (u : Trace) × (r ≡ ret a u) × (k a u ≡ ret b t)
and_then-eq_ret (ret a u) k e = (a, u, refl, e)
and_then-eq_ret (exit c u) k e = cc
and_then-eq_ret (fault u) k e = cc

-- An access in range reads the element.
checked-eq_some :
    {A : Type 0} {o : Option A} {a : A} (t : Trace) → o ≡ some a → checked o t ≡ ret a t
checked-eq_some t e = rw e
