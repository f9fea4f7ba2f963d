-- ===== src/ForEach.antt =====
-- A loop over an array by index that changes each element and makes one record for it, as the loops
-- of `push_to_broker` and `show_result` do. Local variables last from one round to the next.
pub mod Rounds
use powmon.Base.{ℕ, zero, suc, ◌+◌, Option, none, some, List, [], ◌∷◌, get_elem?, set}
use powmon.Clib.{Outcome, ok, undefined, ◌>>=◌}

-- the element that an array access reads
abbrev pub element : {A : Type 0} → Option A → Outcome A
element none = undefined
element (some a) = ok a

module _ {L C M : Type 0} (step : ℕ → L → C → L × C × M) where
  unfoldable pub for_each : ℕ → ℕ → L → List C → Outcome (L × List C × List M)
  for_each zero i locals xs = ok (locals, xs, [])
  for_each (suc rounds) i locals xs = do
    c ← element (get_elem? xs i)
    let done = step i locals c
    (last, ys, messages) ← for_each rounds (i + 1) done.0 (set xs i done.1)
    ok (last, ys, done.2 ∷ messages)
