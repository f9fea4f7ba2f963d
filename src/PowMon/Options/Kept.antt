-- ===== src/PowMon/Options/Kept.antt =====
-- What the loop over the command line leaves of the data and of the two directories.
use mathlib.Core.Path.{subst}
use powmon.Base.{
  ℕ, ◌<◌, ◌≡◌, refl, sym, ap, ◌∙◌, Bool-cases, inl, inr, List, [], ◌∷◌, length, ltb, if◌then◌else◌,
  arith,
}
use powmon.Clib.{ok, undefined, >>=-eq-ok, ok-injective, scan_int}
use powmon.Fpu.{Fpu, Double}
use powmon.PowMon.Daemon.{atoi}
use powmon.PowMon.Data.{SysData}
use powmon.PowMon.Options.{
  Flag, opt_p, opt_t, opt_i, opt_b, opt_q, opt_s, opt_n, opt_x, opt_l, opt_h, opt_v, word_of,
  no_flag, flag, fits, Settings, set_option, parse,
}

-- What a step leaves of the data besides the options.
pub record Kept (o o' : Settings) : Type 0 where
  pub frame : o'.sysd ≡ record o.sysd {
    broker_host = o'.sysd.broker_host;
    broker_port = o'.sysd.broker_port;
    topic = o'.sysd.topic;
    cmd_topic = o'.sysd.cmd_topic;
    qos = o'.sysd.qos;
    dt = o'.sysd.dt;
    hostid = o'.sysd.hostid;
  }
  pub pid_dir : length o.pidfiledir < 256 → length o'.pidfiledir < 256
  pub log_dir : length o.logfiledir < 256 → length o'.logfiledir < 256

pub fits-eq :
    {size : ℕ} (v : List ℕ) {w : List ℕ} → fits size v ≡ ok w → (w ≡ v) × (length w < size)
fits-eq {size} v {w} e = elim (Bool-cases (ltb (length v) size)) [
  | inl h ↦
      let e' = subst (λ b. (if b then ok v else undefined) ≡ ok w) h e in
      let same = ok-injective v w e' in (sym same, subst (λ x. length x < size) same (ground arith))
  | inr h ↦ absurd (cc (subst (λ b. (if b then ok v else undefined) ≡ ok w) h e))
]

-- settings that are those of an outcome
same_settings : (o o₁ : Settings) {o' : Settings} → ok o₁ ≡ ok o' → Kept o o₁ → Kept o o'
same_settings o o₁ {o'} e kept = subst (Kept o) (ok-injective o₁ o' e) kept

Kept-refl : (o : Settings) → Kept o o
Kept-refl o = record { frame = refl; pid_dir = λ h. h; log_dir = λ h. h }

-- a step that sets an option of the data alone
Kept-sysd :
    (o : Settings) (s : SysData)
    → s ≡ record o.sysd {
      broker_host = s.broker_host;
      broker_port = s.broker_port;
      topic = s.topic;
      cmd_topic = s.cmd_topic;
      qos = s.qos;
      dt = s.dt;
      hostid = s.hostid;
    }
    → Kept o (record o { sysd = s })
Kept-sysd o s frame = record { frame = frame; pid_dir = λ h. h; log_dir = λ h. h }

module _ (fpu : Fpu) (atof : List ℕ → Double) where
  set_option-Kept :
      (f : Flag) (rest : List (List ℕ)) (o o' : Settings)
      → set_option fpu atof f rest o ≡ ok o'
      → Kept o o'
  unfolding set_option
  set_option-Kept opt_p [] o o' e = absurd (cc e)
  set_option-Kept opt_p (v ∷ rest) o o' e =
      let (n, _, e') = >>=-eq-ok (atoi (scan_int v)) _ e in
      same_settings o _ e' (Kept-sysd o _ refl)
  set_option-Kept opt_q [] o o' e = absurd (cc e)
  set_option-Kept opt_q (v ∷ rest) o o' e =
      let (n, _, e') = >>=-eq-ok (atoi (scan_int v)) _ e in
      same_settings o _ e' (Kept-sysd o _ refl)
  set_option-Kept opt_t [] o o' e = absurd (cc e)
  set_option-Kept opt_t (v ∷ rest) o o' e = same_settings o _ e (Kept-sysd o _ refl)
  set_option-Kept opt_i [] o o' e = absurd (cc e)
  set_option-Kept opt_i (v ∷ rest) o o' e = same_settings o _ e (Kept-sysd o _ refl)
  set_option-Kept opt_b [] o o' e = absurd (cc e)
  set_option-Kept opt_b (v ∷ rest) o o' e = same_settings o _ e (Kept-sysd o _ refl)
  set_option-Kept opt_s [] o o' e = absurd (cc e)
  set_option-Kept opt_s (v ∷ rest) o o' e = same_settings o _ e (Kept-sysd o _ refl)
  set_option-Kept opt_n [] o o' e = absurd (cc e)
  set_option-Kept opt_n (v ∷ rest) o o' e = same_settings o _ e (Kept-sysd o _ refl)
  set_option-Kept opt_x [] o o' e = absurd (cc e)
  set_option-Kept opt_x (v ∷ rest) o o' e =
      let (dir, short, e') = >>=-eq-ok (fits 256 v) _ e in
      same_settings o _ e'
        (record { frame = refl; pid_dir = λ _. (fits-eq v short).1; log_dir = λ h. h })
  set_option-Kept opt_l [] o o' e = absurd (cc e)
  set_option-Kept opt_l (v ∷ rest) o o' e =
      let (dir, short, e') = >>=-eq-ok (fits 256 v) _ e in
      same_settings o _ e'
        (record { frame = refl; pid_dir = λ h. h; log_dir = λ _. (fits-eq v short).1 })
  set_option-Kept opt_h rest o o' e = absurd (cc e)
  set_option-Kept opt_v rest o o' e = absurd (cc e)
  set_option-Kept (word_of mode) rest o o' e =
      same_settings o _ e (record { frame = refl; pid_dir = λ h. h; log_dir = λ h. h })
  set_option-Kept no_flag rest o o' e = same_settings o _ e (Kept-refl o)

  Kept-trans : {o o₁ o' : Settings} → Kept o o₁ → Kept o₁ o' → Kept o o'
  Kept-trans {o} {o₁} {o'} k k' = record {
    frame =
        k'.frame
        ∙ ap
            (λ (x : SysData). record x {
              broker_host = o'.sysd.broker_host;
              broker_port = o'.sysd.broker_port;
              topic = o'.sysd.topic;
              cmd_topic = o'.sysd.cmd_topic;
              qos = o'.sysd.qos;
              dt = o'.sysd.dt;
              hostid = o'.sysd.hostid;
            })
            k.frame;
    pid_dir = λ h. k'.pid_dir (k.pid_dir h);
    log_dir = λ h. k'.log_dir (k.log_dir h);
  }

  -- A command line that gives settings changes nothing of the data but the options that it can set,
  -- and the two directories still fit their buffers if they did before.
  pub parse-Kept :
      (args : List (List ℕ)) (o o' : Settings) → parse fpu atof args o ≡ ok o' → Kept o o'
  unfolding parse
  parse-Kept [] o o' e = same_settings o o e (Kept-refl o)
  parse-Kept (a ∷ args) o o' e =
      let (o₁, first, e') = >>=-eq-ok (set_option fpu atof (flag a) args o) _ e in
      Kept-trans (set_option-Kept (flag a) args o o₁ first) (parse-Kept args o₁ o' e')
