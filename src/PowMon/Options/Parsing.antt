-- ===== src/PowMon/Options/Parsing.antt =====
-- What the loop over the command line does.
use mathlib.Core.Path.{subst}
use powmon.Base.{ℕ, ◌≡◌, ◌≢◌, refl, Bool, true, false, List, [], ◌∷◌, ◌++◌}
use powmon.Clib.{Outcome, ok, quit, undefined, ◌>>=◌, >>=-eq-ok, bytes}
use powmon.Fpu.{Fpu, Double}
use powmon.PowMon.Options.{
  Flag, opt_p, opt_t, opt_i, opt_b, opt_q, opt_s, opt_n, opt_x, opt_l, opt_h, opt_v, word_of,
  no_flag, flag, Settings, set_option, parse,
}

-- How an option is spelled, for those that take a value.
abbrev spelling : Flag → List ℕ
spelling opt_p = bytes "-p"
spelling opt_t = bytes "-t"
spelling opt_i = bytes "-i"
spelling opt_b = bytes "-b"
spelling opt_q = bytes "-q"
spelling opt_s = bytes "-s"
spelling opt_n = bytes "-n"
spelling opt_x = bytes "-x"
spelling opt_l = bytes "-l"
spelling f = []

abbrev takes_value : Flag → Bool
takes_value opt_h = false
takes_value opt_v = false
takes_value (word_of mode) = false
takes_value no_flag = false
takes_value f = true

flag-spelling : (f : Flag) → takes_value f ≡ true → flag (spelling f) ≡ f
unfolding flag
flag-spelling opt_p e = refl
flag-spelling opt_t e = refl
flag-spelling opt_i e = refl
flag-spelling opt_b e = refl
flag-spelling opt_q e = refl
flag-spelling opt_s e = refl
flag-spelling opt_n e = refl
flag-spelling opt_x e = refl
flag-spelling opt_l e = refl
flag-spelling opt_h e = absurd (cc e)
flag-spelling opt_v e = absurd (cc e)
flag-spelling (word_of mode) e = absurd (cc e)
flag-spelling no_flag e = absurd (cc e)

bind-cong :
    {A B : Type 0} (m : Outcome A) (f g : A → Outcome B)
    → ((a : A) → f a ≡ g a)
    → (m >>= f) ≡ (m >>= g)
bind-cong (ok a) f g h = h a
bind-cong (quit c) f g h = refl
bind-cong undefined f g h = refl

-- options with their values, as they stand on a command line
abbrev pub render : List (Flag × List ℕ) → List (List ℕ)
render [] = []
render ((f, v) ∷ rest) = spelling f ∷ v ∷ render rest

-- The options take values, and no value is spelled like an option or a mode.
abbrev pub IsPlain : List (Flag × List ℕ) → Type 0
IsPlain [] = Unit
IsPlain ((f, v) ∷ rest) = (takes_value f ≡ true) × (flag v ≡ no_flag) × IsPlain rest

module _ (fpu : Fpu) (atof : List ℕ → Double) where
  -- each option on its own, in their order
  abbrev pub applied : List (Flag × List ℕ) → Settings → Outcome Settings
  applied [] o = ok o
  applied ((f, v) ∷ rest) o = set_option fpu atof f (v ∷ []) o >>= applied rest

  set_option-head :
      (f : Flag) (v : List ℕ) (rest : List (List ℕ)) (o : Settings)
      → takes_value f ≡ true
      → set_option fpu atof f (v ∷ rest) o ≡ set_option fpu atof f (v ∷ []) o
  unfolding set_option
  set_option-head opt_p v rest o e = refl
  set_option-head opt_t v rest o e = refl
  set_option-head opt_i v rest o e = refl
  set_option-head opt_b v rest o e = refl
  set_option-head opt_q v rest o e = refl
  set_option-head opt_s v rest o e = refl
  set_option-head opt_n v rest o e = refl
  set_option-head opt_x v rest o e = refl
  set_option-head opt_l v rest o e = refl
  set_option-head opt_h v rest o e = refl
  set_option-head opt_v v rest o e = refl
  set_option-head (word_of mode) v rest o e = refl
  set_option-head no_flag v rest o e = refl

  -- A command line of options with their values, none of which is spelled like an option or a mode,
  -- does what the options do one by one, each with its own value.
  pub parse-render :
      (options : List (Flag × List ℕ)) (o : Settings)
      → IsPlain options
      → parse fpu atof (render options) o ≡ applied options o
  unfolding parse set_option
  parse-render [] o plain = refl
  parse-render ((f, v) ∷ rest) o (valued, unlike, plain) =
      rw (flag-spelling f valued, set_option-head f v (render rest) o valued)
        (bind-cong (set_option fpu atof f (v ∷ []) o) _ (applied rest)
          λ o'. rw unlike (parse-render rest o' plain))

  set_option-missing :
      (f : Flag) (o : Settings) → takes_value f ≡ true → set_option fpu atof f [] o ≡ undefined
  unfolding set_option
  set_option-missing opt_p o e = refl
  set_option-missing opt_t o e = refl
  set_option-missing opt_i o e = refl
  set_option-missing opt_b o e = refl
  set_option-missing opt_q o e = refl
  set_option-missing opt_s o e = refl
  set_option-missing opt_n o e = refl
  set_option-missing opt_x o e = refl
  set_option-missing opt_l o e = refl
  set_option-missing opt_h o e = absurd (cc e)
  set_option-missing opt_v o e = absurd (cc e)
  set_option-missing (word_of mode) o e = absurd (cc e)
  set_option-missing no_flag o e = absurd (cc e)

  -- A command line that ends with an option without its value never gives settings, whatever stands
  -- before: the null pointer after the last argument is read, unless the process ended earlier.
  pub parse-missing :
      (args : List (List ℕ)) (f : Flag) (o o' : Settings)
      → takes_value f ≡ true
      → parse fpu atof (args ++ spelling f ∷ []) o ≢ ok o'
  unfolding parse
  parse-missing [] f o o' valued e =
      let lost = set_option-missing f o valued in
      let (o₁, e', _) = >>=-eq-ok (set_option fpu atof (flag (spelling f)) [] o) _ e in
      let e'' = subst (λ g. set_option fpu atof g [] o ≡ ok o₁) (flag-spelling f valued) e' in
      absurd (cc (lost, e''))
  parse-missing (a ∷ args) f o o' valued e =
      let (o₁, _, e') = >>=-eq-ok (set_option fpu atof (flag a) (args ++ spelling f ∷ []) o) _ e in
      parse-missing args f o₁ o' valued e'
