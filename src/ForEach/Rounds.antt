-- ===== src/ForEach/Rounds.antt =====
-- What the rounds of `for_each` do, one by one.
use mathlib.Core.Path.{subst}
use powmon.Base.{
  ℕ, zero, suc, ◌+◌, ◌≤◌, ◌<◌, ◌≡◌, refl, sym, ap, ◌∙◌, some, List, [], ◌∷◌, arith, length,
  length-set, get_elem?, get_elem?-lt, get_elem?-set_self, get_elem?-set_ne, set,
}
use powmon.Clib.{ok}
use powmon.ForEach.{for_each}

module _ {L C M : Type 0} (step : ℕ → L → C → L × C × M) where
  -- The element `j` was changed by the step, and its message is the one at `k`.
  pub record Stepped (j k : ℕ) (xs ys : List C) (messages : List M) : Type 0 where
    pub locals : L
    pub old : C
    pub was : get_elem? xs j ≡ some old
    pub now : get_elem? ys j ≡ some (step j locals old).1
    pub sent : get_elem? messages k ≡ some (step j locals old).2

  pub record Each (rounds i : ℕ) (xs ys : List C) (messages : List M) : Type 0 where
    pub size : length ys ≡ length xs
    pub count : length messages ≡ rounds
    pub before : (j : ℕ) → j < i → get_elem? ys j ≡ get_elem? xs j
    pub each : (j k : ℕ) → j ≡ i + k → k < rounds → Stepped j k xs ys messages

  first_and_rest :
      {rounds : ℕ} (i : ℕ) (locals : L) (xs : List C) (c : C) {ys : List C} {messages : List M}
      → get_elem? xs i ≡ some c
      → i < length xs
      → Each rounds (i + 1) (set xs i (step i locals c).1) ys messages
      → (j k : ℕ) → j ≡ i + k
      → k < suc rounds
      → Stepped j k xs ys ((step i locals c).2 ∷ messages)
  first_and_rest i locals xs c {ys} {messages} was h rest j zero e lt =
      subst (λ n. Stepped n zero xs ys ((step i locals c).2 ∷ messages)) {x = i} {y = j}
        (omega arith)
        (record {
          locals = locals;
          old = c;
          was = was;
          now = rest.before i (omega arith) ∙ get_elem?-set_self xs i _ h;
          sent = refl;
        })
  first_and_rest i locals xs c was h rest j (suc k) e lt =
      let p = rest.each j k (omega arith) (omega arith) in
      record {
        locals = p.locals;
        old = p.old;
        was = sym (get_elem?-set_ne xs i j _ (omega arith)) ∙ p.was;
        now = p.now;
        sent = p.sent;
      }

  pub for_each-Each :
      (rounds i : ℕ) (locals : L) (xs : List C)
      → i + rounds ≤ length xs
      → (last : L) × (ys : List C) × (messages : List M) × (for_each step rounds i locals xs
          ≡ ok (last, ys, messages))
        × Each rounds i xs ys messages
  unfolding for_each
  for_each-Each zero i locals xs h = (
    locals,
    xs,
    [],
    refl,
    record {
      size = refl;
      count = refl;
      before = λ j _. refl;
      each = λ j k _ lt. absurd (omega arith);
    },
  )
  for_each-Each (suc rounds) i locals xs h =
      let (c, was) = get_elem?-lt xs i (omega arith) in
      let done = step i locals c in
      let zs = set xs i done.1 in
      let same = length-set xs i done.1 in
      let (last, ys, messages, run, rest) =
        for_each-Each rounds (i + 1) done.0 zs (omega (arith, same)) in
      (
        last,
        ys,
        done.2 ∷ messages,
        rw (was, run) refl,
        record {
          size = rest.size ∙ same;
          count = ap suc rest.count;
          before = λ j lt. rest.before j (omega arith) ∙ get_elem?-set_ne xs i j _ (omega arith);
          each = first_and_rest i locals xs c was (omega arith) rest;
        },
      )
