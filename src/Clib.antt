-- ===== src/Clib.antt =====
-- The C library on bytes, as far as the sources use it: `fgets`, `strncmp` with a literal, and
-- `sscanf` with skipped words and a number. A text is the list of its bytes.
pub mod Numbers
pub mod Lines
pub mod Decimal
use Prim.Native.Char.{code}
use Prim.Native.String.{String}
use powmon.Base.{
  ℕ, zero, suc, ◌+◌, ◌-◌, ◌*◌, ◌^◌, ◌≡◌, refl, Bool, true, false, ◌&&◌, ◌||◌, Option, none, some,
  List, [], ◌∷◌, ◌++◌, ltb, leb, ◌==◌, if◌then◌else◌, length, ℤ, pos, negate,
}

-- What a call does: it returns, it ends the process, or its behaviour is undefined in C.
pub data Outcome (A : Type 0) : Type 0 where
  ok : A → Outcome A
  quit : ℕ → Outcome A
  undefined : Outcome A

pub ok-injective : {A : Type 0} (a b : A) → ok a ≡ ok b → a ≡ b
ok-injective a b e = cc

infixl 5 ◌>>=◌ ◌>>◌
abbrev pub ◌>>=◌ : {A B : Type 0} → Outcome A → (A → Outcome B) → Outcome B
ok a >>= f = f a
quit c >>= f = quit c
undefined >>= f = undefined

abbrev pub ◌>>◌ : {B : Type 0} → Outcome (Unit {0}) → Outcome B → Outcome B
m >> k = m >>= λ _. k

-- Inversion of a bind that returned.
pub >>=-eq-ok :
    {A B : Type 0} (o : Outcome A) (f : A → Outcome B) {b : B}
    → (o >>= f) ≡ ok b
    → (a : A) × (o ≡ ok a) × (f a ≡ ok b)
>>=-eq-ok (ok a) f h = (a, refl, h)
>>=-eq-ok (quit c) f h = cc
>>=-eq-ok undefined f h = cc

-- the bytes of a literal
abbrev pub bytes : String → List ℕ
bytes String.[] = []
bytes (String.◌∷◌ c s) = code c ∷ bytes s

-- `isspace`
abbrev pub is_space : ℕ → Bool
is_space c = c == 32 || (leb 9 c && leb c 13)

abbrev pub is_digit : ℕ → Bool
is_digit c = leb b'0' c && leb c b'9'

-- `!strncmp(s, prefix, strlen(prefix))`, for a prefix with no zero byte
abbrev pub has_prefix : List ℕ → List ℕ → Bool
has_prefix [] s = true
has_prefix (p ∷ ps) [] = false
has_prefix (p ∷ ps) (c ∷ s) = p == c && has_prefix ps s

unfoldable pub skip_spaces : List ℕ → List ℕ
skip_spaces [] = []
skip_spaces (c ∷ s) = let rest = skip_spaces s in if is_space c then rest else c ∷ s

-- the rest of a word
unfoldable pub skip_word : List ℕ → List ℕ
skip_word [] = []
skip_word (c ∷ s) = let rest = skip_word s in if is_space c then c ∷ s else rest

-- `%*s`: spaces, then a word of at least one byte
unfoldable pub skip_string : List ℕ → Option (List ℕ)
unfolding skip_spaces skip_word
skip_string s = elim (skip_spaces s) [ [] ↦ none | c ∷ r ↦ some (skip_word r) ]

-- digits and the value so far
unfoldable pub scan_digits : ℕ → List ℕ → ℕ
scan_digits acc [] = acc
scan_digits acc (c ∷ s) =
    let rest = scan_digits (acc * 10 + (c - b'0')) s in if is_digit c then rest else acc

-- the number after the sign, if a digit stands there
unfoldable scan_magnitude : List ℕ → Option ℕ
unfolding scan_digits
scan_magnitude [] = none
scan_magnitude (c ∷ s) = if is_digit c then some (scan_digits (c - b'0') s) else none

pub data Scanned : Type 0 where
  matched : ℤ → Scanned
  unmatched : Scanned
  out_of_range : Scanned

-- The value must fit an `int`; the standard leaves the other case undefined.
abbrev in_int : Bool → Option ℕ → Scanned
in_int negative none = unmatched
in_int true (some n) = if leb n (2 ^ 31) then matched (negate n) else out_of_range
in_int false (some n) = if ltb n (2 ^ 31) then matched (pos n) else out_of_range

abbrev signed : List ℕ → Scanned
signed [] = unmatched
signed (c ∷ s) =
    if c == b'-'
    then in_int true (scan_magnitude s)
    else if c == b'+'
    then in_int false (scan_magnitude s)
    else in_int false (scan_magnitude (c ∷ s))

-- `%d`
unfoldable pub scan_int : List ℕ → Scanned
unfolding skip_spaces scan_magnitude
scan_int s = signed (skip_spaces s)

-- `sscanf(s, "%*s…%*s%d", &n)` with that many skipped words
unfoldable pub scan_after : ℕ → List ℕ → Scanned
unfolding scan_int skip_string
scan_after zero s = scan_int s
scan_after (suc words) s = elim (skip_string s) [ none ↦ unmatched | some r ↦ scan_after words r ]

-- The variable that `sscanf` writes: it keeps its value where nothing matches.
abbrev pub assign : Scanned → ℤ → Outcome ℤ
assign (matched z) old = ok z
assign unmatched old = ok old
assign out_of_range old = undefined

abbrev pub bufsiz : ℕ
bufsiz = 8192

abbrev prepend : ℕ → List ℕ × List ℕ → List ℕ × List ℕ
prepend c (line, rest) = (c ∷ line, rest)

-- `fgets` with room for `room` bytes before the closing zero: up to a newline, which is kept
unfoldable pub fgets : ℕ → List ℕ → List ℕ × List ℕ
fgets zero s = ([], s)
fgets (suc room) [] = ([], [])
fgets (suc room) (c ∷ s) =
    let more = fgets room s in if c == 10 then (c ∷ [], s) else prepend c more

-- `while (fgets(buffer, BUFSIZ, fd))`: the buffers that the loop sees. Each takes a byte at least, so
-- fuel for every byte is enough.
unfoldable pub lines_fuel : ℕ → List ℕ → List (List ℕ)
unfolding fgets
lines_fuel zero s = []
lines_fuel (suc fuel) [] = []
lines_fuel (suc fuel) (c ∷ s) =
    let (line, rest) = fgets (bufsiz - 1) (c ∷ s) in line ∷ lines_fuel fuel rest

unfoldable pub lines : List ℕ → List (List ℕ)
unfolding lines_fuel
lines s = lines_fuel (length s) s
