-- ===== src/Msr/Events.antt =====
-- Views of a trace: the descriptors that are open, and the registers that were written.
use powmon.Base.{ℕ, List, [], ◌∷◌, ◌++◌, ◌≡◌, refl, sym, ap, ◌∙◌, ◌⊎◌, bit_or, ◌==◌, if◌then◌else◌}
use mathlib.Core.List.{append_assoc}
use powmon.Machine.{Event, opened, closed, rdmsr, wrmsr, Trace}
use powmon.Msr.Addresses.{msr_core_perf_fixed_ctr_ctrl, u_msr_pmon_uclk_fixed_ctl}

-- the newest copy of `n` taken out
abbrev pub erase : ℕ → List ℕ → List ℕ
erase n [] = []
erase n (x ∷ xs) = if x == n then xs else x ∷ erase n xs

-- The descriptors that are open after a trace, the newest first.
abbrev pub open_fds : Trace → List ℕ
open_fds [] = []
open_fds (opened core n ∷ t) = n ∷ open_fds t
open_fds (closed n ∷ t) = erase n (open_fds t)
open_fds (e ∷ t) = open_fds t

-- A write that sets bits: of the fixed-counter control, those of 0x333, or of the uncore clock
-- control, bit 22; the other bits are those that the read just before it gave.
abbrev SetsBits : Event → Trace → Type 0
SetsBits (wrmsr n which value) (rdmsr k addr old ∷ t) =
    (k ≡ n)
    × (addr ≡ which)
    × (((which ≡ msr_core_perf_fixed_ctr_ctrl) × (value ≡ bit_or old 0x333))
        ⊎ ((which ≡ u_msr_pmon_uclk_fixed_ctl) × (value ≡ bit_or old 0x400000)))
SetsBits (wrmsr n which value) t = ⊥
SetsBits e t = Unit

-- Every write of the trace sets bits in that way.
abbrev pub IsSafe : Trace → Type 0
IsSafe [] = Unit
IsSafe (e ∷ t) = SetsBits e t × IsSafe t

-- The trace grows only by reads through one descriptor.
pub data Reads (n : ℕ) (t : Trace) : Trace → Type 0 where
  none_read : Reads n t t
  read : {t' : Trace} (which value : ℕ) → Reads n t t' → Reads n t (rdmsr n which value ∷ t')

pub Reads-trans : {n : ℕ} {t u v : Trace} → Reads n t u → Reads n u v → Reads n t v
Reads-trans r none_read = r
Reads-trans r (read which value q) = read which value (Reads-trans r q)

-- Reads open and close nothing.
pub open_fds-Reads : {n : ℕ} {t t' : Trace} → Reads n t t' → open_fds t' ≡ open_fds t
open_fds-Reads none_read = refl
open_fds-Reads (read which value r) = open_fds-Reads r

pub IsSafe-Reads : {n : ℕ} {t t' : Trace} → Reads n t t' → IsSafe t → IsSafe t'
IsSafe-Reads none_read h = h
IsSafe-Reads (read which value r) h = (tt, IsSafe-Reads r h)

-- `t'` has grown from `t`: the new events come first.
pub record Grows (t t' : Trace) : Type 0 where
  pub recent : Trace
  pub joined : t' ≡ recent ++ t

pub Grows-refl : (t : Trace) → Grows t t
Grows-refl t = record { recent = []; joined = refl }

pub Grows-cons : {t t' : Trace} (e : Event) → Grows t t' → Grows t (e ∷ t')
Grows-cons e g = record { recent = e ∷ g.recent; joined = ap (λ u. e ∷ u) g.joined }

pub Grows-trans : {t u v : Trace} → Grows t u → Grows u v → Grows t v
Grows-trans {t} g h = record {
  recent = h.recent ++ g.recent;
  joined = h.joined ∙ ap (λ w. h.recent ++ w) g.joined ∙ sym (append_assoc h.recent g.recent t);
}

pub Grows-Reads : {n : ℕ} {t t' : Trace} → Reads n t t' → Grows t t'
Grows-Reads none_read = Grows-refl _
Grows-Reads (read which value r) = Grows-cons _ (Grows-Reads r)

-- Register `which` was read as `value` between `t` and `t'`.
pub record ReadSince (which value : ℕ) (t t' : Trace) : Type 0 where
  pub fd : ℕ
  pub before : Trace
  pub older : Grows t before
  pub newer : Grows (rdmsr fd which value ∷ before) t'

pub ReadSince-older :
    {which value : ℕ} {t u v : Trace}
    → Grows t u
    → ReadSince which value u v
    → ReadSince which value t v
ReadSince-older g r = record {
  fd = r.fd;
  before = r.before;
  older = Grows-trans g r.older;
  newer = r.newer;
}

pub ReadSince-newer :
    {which value : ℕ} {t u v : Trace}
    → ReadSince which value t u
    → Grows u v
    → ReadSince which value t v
ReadSince-newer r g = record {
  fd = r.fd;
  before = r.before;
  older = r.older;
  newer = Grows-trans r.newer g;
}

-- the read just made
pub ReadSince-now :
    {t u : Trace} (n which value : ℕ)
    → Grows t u
    → ReadSince which value t (rdmsr n which value ∷ u)
ReadSince-now n which value g = record { fd = n; before = _; older = g; newer = Grows-refl _ }
