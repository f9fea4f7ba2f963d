-- ===== src/PowMon/Detect/Model.antt =====
-- What `detect_cpu_model` finds in a file.
use mathlib.Core.Path.{subst}
use powmon.Base.{
  ℕ, zero, suc, ◌<◌, ◌^◌, ◌≡◌, refl, ◌⊎◌, inl, inr, true, Bool-cases, some, List, [], ◌∷◌, ◌++◌,
  arith, if◌then◌else◌, ℤ, pos, negsuc, minus_one, is_positive,
}
use powmon.Clib.{Outcome, ok, ok-injective, quit, undefined, ◌>>=◌, bytes, scan_after, lines}
use powmon.Clib.Numbers.{value, AllDigits, written, scan_int-written, scan_int-space}
use powmon.PowMon.Data.{SysData}
use powmon.PowMon.Detect.{
  note_model, read_model, known_model, has_dram, store_model, detect_cpu_model,
}

-- A line `model name` leaves the model as it was, whatever the name is: a line of that tag is no
-- model number.
pub note_model-name :
    (name : List ℕ) (model : ℤ) → note_model (bytes "model name\t: " ++ name) model ≡ ok model
unfolding note_model scan_after
note_model-name name model = refl

-- A line `model` with a number that fits an `int` gives that number.
note_model-number :
    (d : ℕ) (ds : List ℕ) (model : ℤ)
    → AllDigits (d ∷ ds)
    → value 0 (d ∷ ds) < 2 ^ 31
    → note_model (bytes "model\t\t: " ++ (written (d ∷ ds) ++ bytes "\n")) model
      ≡ ok (pos (value 0 (d ∷ ds)))
unfolding note_model scan_after
note_model-number d ds model h small =
    rw (scan_int-space (written (d ∷ ds) ++ bytes "\n"), scan_int-written d ds [] 10 h refl small)
      refl

known_model-positive : (model : ℤ) → known_model model ≡ true → is_positive model ≡ true
unfolding known_model
known_model-positive (pos zero) h = h
known_model-positive (pos (suc n)) h = ground arith
known_model-positive (negsuc n) h = h

-- What `detect_cpu_model` may give: a model of the table, which it has stored beside the DRAM
-- support that goes with it, or -1, with the data as they were.
abbrev pub Detected : SysData → ℤ × SysData → Type 0
Detected s (model, s') =
    ((known_model model ≡ true)
      × (s'
          ≡ record s { cpu_model = model; dram_supp = if has_dram model then 1 else s.dram_supp }))
    ⊎ ((model ≡ minus_one) × (s' ≡ s))

store_model-Detected : (s : SysData) (found : ℤ) → Detected s (store_model s found)
unfolding store_model
store_model-Detected s found = elim (Bool-cases (known_model found)) [
  | inl e ↦ rw e (inl (e, rw (known_model-positive found e) refl))
  | inr e ↦ rw e (inr (refl, refl))
]

-- Whatever the file holds, if `detect_cpu_model` returns, it gives either a model of the table, which
-- it has stored together with the DRAM support of that model, or -1, with the data as they were.
pub detect_cpu_model-Detected :
    (file : List ℕ) (s : SysData) (r : ℤ × SysData)
    → detect_cpu_model (some file) s ≡ ok r
    → Detected s r
unfolding detect_cpu_model
detect_cpu_model-Detected file s r h = go (read_model (lines file) minus_one) h
  where
    go : (o : Outcome ℤ) → (o >>= λ found. ok (store_model s found)) ≡ ok r → Detected s r
    go (ok found) e =
        subst (Detected s) (ok-injective (store_model s found) r e) (store_model-Detected s found)
    go (quit c) e = absurd (cc)
    go undefined e = absurd (cc)
