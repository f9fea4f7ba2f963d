-- ===== src/Machine.antt =====
-- What the monitors ask of the machine they run on: the calls of the kernel (`open`, `pread`,
-- `pwrite`, `close` on /dev/cpu/N/msr, `sched_setaffinity`) and the `rdtsc` instruction. The machine
-- is a parameter: each answer is any function of the calls made so far, which a trace records with
-- the newest first. A command ends by returning, by `exit`, or by a fault, which is a step that C
-- leaves undefined (an array index out of range, a conversion that overflows).
pub mod Rules
use powmon.Base.{ℕ, Bool, Option, none, some, List}

pub data Event : Type 0 where
  opened : (core fd : ℕ) → Event
  closed : (fd : ℕ) → Event
  rdmsr : (fd which value : ℕ) → Event
  wrmsr : (fd which value : ℕ) → Event
  pinned : (core : ℕ) → Event
  unpinned : (ncore : ℕ) → Event
  rdtsc : (low high : ℕ) → Event

abbrev pub Trace : Type 0
Trace = List Event

-- `open` gives a descriptor, or fails with an `errno`.
pub data Opening : Type 0 where
  descriptor : ℕ → Opening
  failed : ℕ → Opening

pub record Machine : Type 0 where
  pub open_file : Trace → ℕ → Opening
  -- the eight bytes read, or `none` where `pread` does not return 8
  pub pread : Trace → ℕ → ℕ → Option ℕ
  -- whether `pwrite` returns 8
  pub pwrite : Trace → ℕ → ℕ → ℕ → Bool
  pub setaffinity : Trace → ℕ → Bool
  -- the registers EAX and EDX after `rdtsc`
  pub eax : Trace → ℕ
  pub edx : Trace → ℕ

pub data Run (A : Type 0) : Type 0 where
  ret : A → Trace → Run A
  exit : ℕ → Trace → Run A
  fault : Trace → Run A

abbrev pub Cmd : Type 0 → Type 0
Cmd A = Trace → Run A

abbrev pub pure : {A : Type 0} → A → Cmd A
pure = ret

module _ {A B : Type 0} where
  abbrev pub and_then : Run A → (A → Cmd B) → Run B
  and_then (ret a t) k = k a t
  and_then (exit c t) k = exit c t
  and_then (fault t) k = fault t

  infixl 5 ◌>>=◌ ◌>>◌
  abbrev pub ◌>>=◌ : Cmd A → (A → Cmd B) → Cmd B
  m >>= k = λ t. and_then (m t) k

  abbrev pub ◌>>◌ : Cmd A → Cmd B → Cmd B
  m >> n = m >>= λ _. n

-- The element that a C array access reads; out of range is a fault.
abbrev pub checked : {A : Type 0} → Option A → Cmd A
checked none t = fault t
checked (some a) t = ret a t
