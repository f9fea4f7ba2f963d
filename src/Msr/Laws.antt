-- ===== src/Msr/Laws.antt =====
-- How each call passes to what follows it: the rest of a command need only be proved at the trace
-- that the call leaves. A register access may also end the process, with status 127, 2 or 3.
use powmon.Base.{
  ℕ, ◌%◌, ◌^◌, ◌<◌, ◌≡◌, refl, Bool, true, false, Option, none, some, List, ◌∷◌, if◌then◌else◌,
  get_elem?, get_elem?-lt, length, ℤ, pos, minus_one,
}
use powmon.Machine.{
  Machine, Opening, descriptor, failed, opened, rdmsr, wrmsr, pinned, Trace, Run, ret, exit, Cmd,
  and_then, checked,
}
use powmon.Machine.Rules
use powmon.Machine.Rules.{Runs, returns, exits}
use powmon.Msr.{open_status, open_msr, read_msr, write_msr, set_cpu_affinity}
use powmon.Msr.Events.{IsSafe}

-- The call that the machine refused, at the trace it refused it at, with the status that follows.
pub data Refusal (m : Machine) (c : ℕ) (t : Trace) : Type 0 where
  no_open : {e : ℕ} (core : ℕ) → m.open_file t core ≡ failed e → c ≡ open_status e → Refusal m c t
  no_read : (fd which : ℕ) → m.pread t fd which ≡ none → c ≡ 127 → Refusal m c t
  no_write : (fd which value : ℕ) → m.pwrite t fd which value ≡ false → c ≡ 127 → Refusal m c t

-- How a run may exit: at a refused access, with only safe writes made before.
pub record Stopped (m : Machine) (c : ℕ) (t : Trace) : Type 0 where
  pub cause : Refusal m c t
  pub safe : IsSafe t

-- A machine that refuses no register access.
pub record Responsive (m : Machine) : Type 0 where
  pub opens : (t : Trace) (core : ℕ) → (n : ℕ) × (m.open_file t core ≡ descriptor n)
  pub reads : (t : Trace) (fd which : ℕ) → (v : ℕ) × (m.pread t fd which ≡ some v)
  pub writes : (t : Trace) (fd which value : ℕ) → m.pwrite t fd which value ≡ true

Refusal-⊥ : {m : Machine} {c : ℕ} {t : Trace} → Responsive m → Refusal m c t → ⊥
Refusal-⊥ {t} r (no_open core e _) = cc ((r.opens t core).1)
Refusal-⊥ {t} r (no_read fd which e _) = cc ((r.reads t fd which).1)
Refusal-⊥ {t} r (no_write fd which value e _) = cc (r.writes t fd which value)

-- On such a machine a run that can only stop at a refusal returns.
pub Runs-returns :
    {A : Type 0} {Q : A → Trace → Type 0} {m : Machine} {r : Run A}
    → Responsive m
    → Runs Q (Stopped m) r
    → (a : A) × (t : Trace) × (r ≡ ret a t) × Q a t
Runs-returns h (returns q) = (_, _, refl, q)
Runs-returns h (exits e) = absurd (Refusal-⊥ h e.cause)

pub write_msr-Runs :
    {Q : Unit {0} → Trace → Type 0} (m : Machine) (fd which value : ℕ) (t : Trace)
    → IsSafe t
    → Q tt (wrmsr fd which value ∷ t)
    → Runs Q (Stopped m) (write_msr m fd which value t)
unfolding write_msr
write_msr-Runs {Q} m fd which value t safe done = go (m.pwrite t fd which value) refl
  where
    go :
        (b : Bool)
        → m.pwrite t fd which value ≡ b
        → Runs Q (Stopped m) (if b then ret tt (wrmsr fd which value ∷ t) else exit 127 t)
    go true e = returns done
    go false e = exits (record { cause = no_write fd which value e refl; safe = safe })

module _ {B : Type 0} {R : B → Trace → Type 0} where
  pub read_msr-bind :
      (m : Machine) (fd which : ℕ) (t : Trace) (k : ℕ → Cmd B)
      → IsSafe t
      → ((v : ℕ) → IsSafe (rdmsr fd which v ∷ t) → Runs R (Stopped m) (k v (rdmsr fd which v ∷ t)))
      → Runs R (Stopped m) (and_then (read_msr m fd which t) k)
  unfolding read_msr
  read_msr-bind m fd which t k safe next = go (m.pread t fd which) refl
    where
      go :
          (o : Option ℕ)
          → m.pread t fd which ≡ o
          → Runs R (Stopped m) (
              and_then
                (elim o [
                  | none ↦ exit 127 t
                  | some v ↦ ret (v % 2 ^ 64) (rdmsr fd which (v % 2 ^ 64) ∷ t)
                ])
                k)
      go none e = exits (record { cause = no_read fd which e refl; safe = safe })
      go (some v) e = next (v % 2 ^ 64) (tt, safe)

  pub write_msr-bind :
      (m : Machine) (fd which value : ℕ) (t : Trace) (k : Unit {0} → Cmd B)
      → IsSafe t
      → Runs R (Stopped m) (k tt (wrmsr fd which value ∷ t))
      → Runs R (Stopped m) (and_then (write_msr m fd which value t) k)
  write_msr-bind m fd which value t k safe next =
      Rules.bind {Q = λ _ u. u ≡ wrmsr fd which value ∷ t}
        (write_msr-Runs m fd which value t safe refl) λ _ u e. rw e next

  pub open_msr-bind :
      (m : Machine) (core : ℕ) (t : Trace) (k : ℕ → Cmd B)
      → IsSafe t
      → ((n : ℕ) → IsSafe (opened core n ∷ t) → Runs R (Stopped m) (k n (opened core n ∷ t)))
      → Runs R (Stopped m) (and_then (open_msr m core t) k)
  unfolding open_msr
  open_msr-bind m core t k safe next = go (m.open_file t core) refl
    where
      go :
          (o : Opening)
          → m.open_file t core ≡ o
          → Runs R (Stopped m) (
              and_then
                (elim o [
                  | descriptor n ↦ ret n (opened core n ∷ t)
                  | failed e ↦ exit (open_status e) t
                ])
                k)
      go (descriptor n) e = next n (tt, safe)
      go (failed n) e = exits (record { cause = no_open core e refl; safe = safe })

  pub checked-bind :
      {A : Type 0} {E : ℕ → Trace → Type 0} (xs : List A) (i : ℕ) (t : Trace) (k : A → Cmd B)
      → i < length xs
      → ((a : A) → get_elem? xs i ≡ some a → Runs R E (k a t))
      → Runs R E (and_then (checked (get_elem? xs i) t) k)
  checked-bind xs i t k h next = let (a, e) = get_elem?-lt xs i h in rw e (next a e)

-- The affinity call leaves the trace alone or adds its event.
pub set_cpu_affinity-Runs :
    {Q : ℤ → Trace → Type 0} (m : Machine) (core : ℕ) (t : Trace)
    → Q (pos 0) (pinned core ∷ t)
    → Q minus_one t
    → Runs Q (Stopped m) (set_cpu_affinity m core t)
unfolding set_cpu_affinity
set_cpu_affinity-Runs {Q} m core t done refused = go (m.setaffinity t core)
  where
    go :
        (b : Bool)
        → Runs Q (Stopped m) (if b then ret (pos 0) (pinned core ∷ t) else ret minus_one t)
    go true = returns done
    go false = returns refused
