-- ===== src/PowMon/Detect/Range.antt =====
-- `detect_topology` gets past every file whose numbers fit its tables.
use mathlib.Core.Path.{subst}
use powmon.Base.{
  ℕ, ◌+◌, ◌<◌, ◌≡◌, refl, sym, ap, ◌∙◌, inl, inr, Bool-cases, some, List, [], ◌∷◌, arith,
  if◌then◌else◌, get_elem?-lt, set, length, length-set, length-replicate, ℤ, pos, negsuc, minus_one,
}
use powmon.Clib.{
  ok, Scanned, matched, unmatched, out_of_range, ◌>>=◌, has_prefix, scan_after, assign, lines,
}
use powmon.Msr.Addresses.{max_cores, max_packages}
use powmon.PowMon.Data.{SysData}
use powmon.PowMon.Detect.{
  Table, Tables, processor_tag, physical_tag, core_tag, is_minus_one, mark, mark_at, note_line,
  read_tables, fresh_tables, with_tables, detect_topology,
}
use powmon.PowMon.Detect.Topology.{described, detect_topology-described}

abbrev Below : ℕ → ℤ → Type 0
Below size (pos n) = n < size
Below size (negsuc n) = ⊥

-- what one scanned number asks, with the demand of the lines after it
abbrev RangeStep : ℕ → ℤ → (ℤ → Type 0) → Scanned → Type 0
RangeStep size last rest (matched z) = Below size z × rest z
RangeStep size last rest unmatched = Below size last × rest last
RangeStep size last rest out_of_range = ⊥

-- Every number after the tag fits an `int` and is an index below the size; `last` is what the
-- variable holds before the lines.
abbrev InRange : ℕ → List ℕ → ℕ → List (List ℕ) → ℤ → Type 0
InRange size tag words [] last = Unit
InRange size tag words (line ∷ rest) last =
    if has_prefix tag line
    then RangeStep size last (InRange size tag words rest) (scan_after words line)
    else InRange size tag words rest last

-- one table, and the lines to come
record Fits (size : ℕ) (tag : List ℕ) (words : ℕ) (ls : List (List ℕ)) (t : Table) : Type 0 where
  size_is : length t.flags ≡ size
  range : InRange size tag words ls t.number

mark-returns :
    (size : ℕ) (z : ℤ) (t : Table)
    → length t.flags ≡ size
    → Below size z
    → (t' : Table) × (mark z t ≡ ok t') × (length t'.flags ≡ size) × (t'.number ≡ t.number)
unfolding mark mark_at
mark-returns size (negsuc n) t h b = absurd b
mark-returns size (pos i) t h b =
    let (flag, e) = get_elem?-lt t.flags i (omega arith) in
    elim (Bool-cases (is_minus_one flag)) [
      | inl new ↦ (
        record t { flags = set t.flags i (pos 1); total = t.total + 1 },
        ap (λ o. mark_at o i t) e ∙ rw new refl,
        length-set t.flags i (pos 1) ∙ h,
        refl,
      )
      | inr old ↦ (t, ap (λ o. mark_at o i t) e ∙ rw old refl, h, refl)
    ]

module _ (size : ℕ) (tag : List ℕ) (words : ℕ) where
  -- a line takes a table that fits to one that fits the rest
  note_line-Fits :
      (line : List ℕ) (ls : List (List ℕ)) (t : Table)
      → Fits size tag words (line ∷ ls) t
      → (t' : Table) × (note_line tag words line t ≡ ok t') × Fits size tag words ls t'
  unfolding note_line
  note_line-Fits line ls t f = elim (Bool-cases (has_prefix tag line)) [
    | inr other ↦ (t, rw other refl, record { size_is = f.size_is; range = rw other at (f.range) })
    | inl hit ↦
        let (t', e, g) = by_scan (scan_after words line) (rw hit at (f.range)) in (t', rw hit e, g)
  ]
    where
      noted :
          (z : ℤ)
          → Below size z
          → InRange size tag words ls z
          → (t' : Table) × (mark z (record t { number = z }) ≡ ok t') × Fits size tag words ls t'
      noted z b r =
          let (t', e, s, n) = mark-returns size z (record t { number = z }) f.size_is b in
          (t', e, record { size_is = s; range = subst (InRange size tag words ls) (sym n) r })

      by_scan :
          (sc : Scanned)
          → RangeStep size t.number (InRange size tag words ls) sc
          → (t' : Table) × ((assign sc t.number >>= λ n. mark n (record t { number = n })) ≡ ok t')
            × Fits size tag words ls t'
      by_scan (matched z) q = noted z q.0 q.1
      by_scan unmatched q = noted t.number q.0 q.1
      by_scan out_of_range q = absurd q

record FitTables (ls : List (List ℕ)) (t : Tables) : Type 0 where
  logical_cpus : Fits max_cores processor_tag 2 ls t.logical_cpus
  sockets : Fits max_packages physical_tag 3 ls t.sockets
  cores : Fits max_cores core_tag 3 ls t.cores

read_tables-returns :
    (ls : List (List ℕ)) (t : Tables) → FitTables ls t → (t' : Tables) × (read_tables ls t ≡ ok t')
unfolding read_tables
read_tables-returns [] t f = (t, refl)
read_tables-returns (line ∷ ls) t f =
    let (a, ea, fa) =
      note_line-Fits max_cores processor_tag 2 line ls t.logical_cpus f.logical_cpus in
    let (b, eb, fb) = note_line-Fits max_packages physical_tag 3 line ls t.sockets f.sockets in
    let (c, ec, fc) = note_line-Fits max_cores core_tag 3 line ls t.cores f.cores in
    let t₁ : Tables = record { logical_cpus = a; sockets = b; cores = c } in
    let (t', e) =
      read_tables-returns ls t₁ (record { logical_cpus = fa; sockets = fb; cores = fc }) in
    (t', rw (ea, eb, ec) e)

-- The numbers of a file fit the tables of `detect_topology`.
pub record FitsTables (file : List ℕ) : Type 0 where
  pub processors : InRange max_cores processor_tag 2 (lines file) (pos 0)
  pub packages : InRange max_packages physical_tag 3 (lines file) (pos 0)
  pub cores : InRange max_cores core_tag 3 (lines file) (pos 0)

-- For a file with every `processor` and `core id` below 1024 and every `physical id` below 16,
-- `detect_topology` returns 0: `ncpu` is the number of different `physical id`s, `ncore` that times
-- the number of different `core id`s, and `ht_en` tells whether twice that is the number of
-- different `processor`s; nothing else changes.
pub detect_topology-returns :
    (file : List ℕ) (s : SysData)
    → FitsTables file
    → detect_topology (some file) s ≡ ok (pos 0, described file s)
unfolding detect_topology
detect_topology-returns file s f =
    let (t, e) = read_tables-returns (lines file) fresh_tables (record {
      logical_cpus = record {
        size_is = length-replicate max_cores minus_one;
        range = f.processors;
      };
      sockets = record { size_is = length-replicate max_packages minus_one; range = f.packages };
      cores = record { size_is = length-replicate max_cores minus_one; range = f.cores };
    }) in
    let found = ap (λ o. o >>= λ t'. ok (pos 0, with_tables s t')) e in
    found ∙ ap ok (detect_topology-described file s (pos 0, with_tables s t) found)
