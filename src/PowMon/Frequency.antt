-- ===== src/PowMon/Frequency.antt =====
-- `detect_nominal_frequency` of powmon/bin/sensor_read_lib.c: the nominal frequency is a ratio that a
-- register holds times the bus frequency of the model. The conversion to `float` is a parameter.
use powmon.Base.{
  ℕ, ◌*◌, ◌/◌, ◌^◌, ◌≡◌, ◌≢◌, refl, ◌⊎◌, inl, inr, true, Bool-cases, ◌||◌, bit_and, ◌==◌, ==→eq,
  eq→==, ◌∷◌, if◌then◌else◌, ℤ, pos, minus_one, is, is_positive, arith,
}
use powmon.Machine.{closed, opened, rdmsr, Machine, Trace, Cmd, pure, ◌>>=◌, ◌>>◌}
use powmon.Machine.Rules.{Runs, returns}
use powmon.Msr.{open_msr, read_msr, close_msr}
use powmon.Msr.Addresses.{
  platform_info_addr, sandybridge, sandybridge_ep, ivybridge, ivybridge_ep, haswell, haswell_ep,
  broadwell, broadwell_ep, broadwell_de, skylake_hs,
}
use powmon.Msr.Events.{
  open_fds, IsSafe, Grows, Grows-refl, Grows-cons, ReadSince, ReadSince-now, ReadSince-newer,
}
use powmon.Msr.Laws.{Stopped, open_msr-bind, read_msr-bind}
use powmon.Fpu.{Float}
use powmon.PowMon.Data.{SysData}

unfoldable pub bus_freq : ℤ → ℕ
bus_freq model =
    if is model sandybridge
      || is model sandybridge_ep
      || is model ivybridge
      || is model ivybridge_ep
      || is model haswell
      || is model haswell_ep
      || is model broadwell
      || is model broadwell_ep
      || is model broadwell_de
      || is model skylake_hs
    then 100000000
    else 133333333

-- the value returned and the data
abbrev pub with_frequency : (ℕ → Float) → SysData → ℕ → ℤ × SysData
with_frequency to_float s nom_freq =
    if nom_freq == 0 then (minus_one, s) else (pos 0, record s { nom_freq = to_float nom_freq })

unfoldable pub detect_nominal_frequency : Machine → (ℕ → Float) → SysData → Cmd (ℤ × SysData)
unfolding bus_freq close_msr
detect_nominal_frequency m to_float s =
    if is_positive s.cpu_model
    then (do
      fd ← open_msr m 0
      result ← read_msr m fd platform_info_addr
      close_msr fd
      pure (with_frequency to_float s (bit_and (result / 2 ^ 8) 0xff * bus_freq s.cpu_model)))
    else pure (minus_one, s)

-- The frequency found is that of a register read on the way, or there was none.
pub record Tuned (to_float : ℕ → Float) (s : SysData) (t : Trace) (r : ℤ × SysData) (t' : Trace)
    : Type 0 where
  pub platform : ℕ
  -- a descriptor of core 0, through which it was read and which was closed
  pub fd : ℕ
  pub calls : t' ≡ closed fd ∷ rdmsr fd platform_info_addr platform ∷ opened 0 fd ∷ t
  pub read : ReadSince platform_info_addr platform t t'
  pub found :
      ((bit_and (platform / 2 ^ 8) 0xff ≡ 0) × (r ≡ (minus_one, s)))
      ⊎ ((bit_and (platform / 2 ^ 8) 0xff ≢ 0)
          × (r ≡ (
            pos 0,
            record s {
              nom_freq = to_float (bit_and (platform / 2 ^ 8) 0xff * bus_freq s.cpu_model);
            },
          )))
  pub fds : open_fds t' ≡ open_fds t
  pub grows : Grows t t'
  pub safe : IsSafe t'

pub bus_freq-cases : (model : ℤ) → (bus_freq model ≡ 100000000) ⊎ (bus_freq model ≡ 133333333)
unfolding bus_freq
bus_freq-cases model = ground arith

pub product-eq_zero :
    (factor bus : ℕ) → (bus ≡ 100000000) ⊎ (bus ≡ 133333333) → (factor * bus == 0) ≡ (factor == 0)
product-eq_zero factor bus (inl e) = rw e (ground arith)
product-eq_zero factor bus (inr e) = rw e (ground arith)

pub with_frequency-found :
    (to_float : ℕ → Float) (s : SysData) (factor bus : ℕ)
    → (bus ≡ 100000000) ⊎ (bus ≡ 133333333)
    → ((factor ≡ 0) × (with_frequency to_float s (factor * bus) ≡ (minus_one, s)))
      ⊎ ((factor ≢ 0)
          × (with_frequency to_float s (factor * bus)
              ≡ (pos 0, record s { nom_freq = to_float (factor * bus) })))
with_frequency-found to_float s factor bus cases = elim (Bool-cases (factor == 0)) [
  | inl e ↦ inl (==→eq factor 0 e, rw (product-eq_zero factor bus cases, e) refl)
  | inr e ↦ inr (λ h. ground arith, rw (product-eq_zero factor bus cases, e) refl)
]

-- With a model detected, `detect_nominal_frequency` stops only at a refused access. If it returns,
-- it has read the platform register of core 0 and closed the descriptor. If the ratio in it is 0 it
-- gives -1 and leaves the data; otherwise it gives 0 and has stored the ratio times the bus frequency.
pub detect_nominal_frequency-Tuned :
    (m : Machine) (to_float : ℕ → Float) (s : SysData) (t : Trace)
    → is_positive s.cpu_model ≡ true
    → IsSafe t
    → Runs (Tuned to_float s t) (Stopped m) (detect_nominal_frequency m to_float s t)
unfolding detect_nominal_frequency
detect_nominal_frequency-Tuned m to_float s t known safe = rw known (
    open_msr-bind m 0 t _ safe λ fd p. read_msr-bind m fd _ _ _ p λ v p'. returns (record {
      platform = v;
      fd = fd;
      calls = refl;
      read =
          ReadSince-newer (ReadSince-now fd platform_info_addr v (Grows-cons _ (Grows-refl t)))
            (Grows-cons _ (Grows-refl _));
      found = with_frequency-found to_float s _ _ (bus_freq-cases s.cpu_model);
      fds = rw (eq→== fd fd refl) refl;
      grows = Grows-cons _ (Grows-cons _ (Grows-cons _ (Grows-refl t)));
      safe = (tt, p');
    }))
