-- ===== src/PowMpi/Election/Names.antt =====
-- The colours of the nodes, and that each colour has one process that monitors.
use mathlib.Core.List.{append-nil}
use powmon.Base.{
  All, ℕ, ◌+◌, ◌^◌, ◌<◌, ◌≡◌, refl, sym, ap, ◌∙◌, true, false, List, [], ◌∷◌, ◌++◌, pos, arith,
  some,
}
use powmon.Clib.{ok, bytes}
use powmon.Clib.Numbers.{AllDigits, written, value, scan_int-all}
use powmon.PowMpi.Election.{is_one_of, skip_any, cut, strtok, color_of}

-- A word holds no delimiter, and what follows it begins with one.
abbrev IsWord : List ℕ → List ℕ → Type 0
IsWord ds w = All (λ c. is_one_of ds c ≡ false) w

abbrev Stops : List ℕ → List ℕ → Type 0
Stops ds [] = Unit
Stops ds (c ∷ s) = is_one_of ds c ≡ true

abbrev rest_of : List ℕ → List ℕ
rest_of [] = []
rest_of (c ∷ s) = s

cut-word :
    (ds w tail : List ℕ) → IsWord ds w → Stops ds tail → cut ds (w ++ tail) ≡ (w, rest_of tail)
unfolding cut
cut-word ds [] [] plain stop = refl
cut-word ds [] (c ∷ tail) plain stop = rw stop refl
cut-word ds (c ∷ w) tail plain stop = rw (plain.0, cut-word ds w tail plain.1 stop) refl

strtok-word :
    (ds : List ℕ) (c : ℕ) (w tail : List ℕ)
    → IsWord ds (c ∷ w)
    → Stops ds tail
    → strtok ds ((c ∷ w) ++ tail) ≡ some (c ∷ w, rest_of tail)
unfolding strtok skip_any
strtok-word ds c w tail plain stop =
    rw (strtok, plain.0) (ap some (cut-word ds (c ∷ w) tail plain stop))

IsWord-append : (ds a b : List ℕ) → IsWord ds a → IsWord ds b → IsWord ds (a ++ b)
IsWord-append ds [] b p q = q
IsWord-append ds (c ∷ a) b p q = (p.0, IsWord-append ds a b p.1 q)

-- a part of a name holds neither a dash nor what ends the name
pub record IsPart (w : List ℕ) : Type 0 where
  pub name : IsWord (bytes " \t.\n") w
  pub dash : IsWord (bytes "-") w

written-IsPart : (ds : List ℕ) → AllDigits ds → IsPart (written ds)
written-IsPart [] h = record { name = tt; dash = tt }
written-IsPart (d ∷ ds) h =
    let rest = written-IsPart ds h.1 in
    let small = h.0 in record { name = (ground arith, rest.name); dash = (ground arith, rest.dash) }

-- The colour of a process on a host whose name has three parts joined by dashes, the third a decimal
-- number that fits an `int`, is that number, whatever the other two parts and the domain are.
pub color_of-written :
    (a b d : ℕ) (first second digits domain : List ℕ)
    → IsPart (a ∷ first)
    → IsPart (b ∷ second)
    → AllDigits (d ∷ digits)
    → value 0 (d ∷ digits) < 2 ^ 31
    → Stops (bytes " \t.\n") domain
    → color_of (((a ∷ first) ++ (b'-' ∷ ((b ∷ second) ++ (b'-' ∷ written (d ∷ digits))))) ++ domain)
      ≡ ok (pos (value 0 (d ∷ digits)))
unfolding color_of
color_of-written a b d first second digits domain p q h small stop =
    let third = written-IsPart (d ∷ digits) h in
    let tail = b'-' ∷ written (d ∷ digits) in
    let whole =
      IsWord-append (bytes " \t.\n") (a ∷ first) (b'-' ∷ ((b ∷ second) ++ tail)) p.name
        (refl, IsWord-append (bytes " \t.\n") (b ∷ second) tail q.name (refl, third.name)) in
    rw
      (
        strtok-word (bytes " \t.\n") a (first ++ (b'-' ∷ ((b ∷ second) ++ tail))) domain whole stop,
        strtok-word (bytes "-") a first (b'-' ∷ ((b ∷ second) ++ tail)) p.dash refl,
        strtok-word (bytes "-") b second tail q.dash refl,
        ap (strtok (bytes "-")) (sym (append-nil (written (d ∷ digits))))
            ∙ strtok-word (bytes "-") (d + 48) (written digits) [] third.dash tt,
        scan_int-all d digits h small,
      )
      refl
