-- ===== src/EnergyApp/Detect/Agreement.antt =====
-- What energy-app finds on a file, and what powmon finds, but for the mode of the DRAM counter.
use powmon.Base.{
  ℕ, ◌≡◌, refl, ap, some, Option-cases, Bool-cases, inl, inr, get_elem?, List, [], ◌∷◌, ℤ, pos,
  negsuc,
}
use powmon.Clib.{
  Outcome, quit, bytes, undefined, ◌>>=◌, has_prefix, scan_after, Scanned, matched, unmatched,
  out_of_range, assign, ok, ok-injective, >>=-eq-ok, lines,
}
use powmon.PowMon.Data
use powmon.PowMon.Detect
use powmon.EnergyApp.Data.{SysData}
use powmon.EnergyApp.Detect.{note_id, note, read_tables, detect_topology}

note_id-same : (t : Detect.Table) → note_id t ≡ Detect.mark t.number t
unfolding note_id Detect.mark Detect.mark_at
note_id-same t = go t.number t.flags t.total
  where
    go :
        (n : ℤ) (flags : List ℤ) (total : ℕ)
        → note_id (record { number = n; flags = flags; total = total })
          ≡ Detect.mark n (record { number = n; flags = flags; total = total })
    go (pos i) flags total = elim (Option-cases (get_elem? flags i)) [
      | inl f ↦ rw (f, note_id) refl
      | inr (flag, f) ↦ rw (f, note_id) refl
    ]
    go (negsuc i) flags total = refl

-- one branch, with the variable read into and the flag set
note-same :
    (tag : List ℕ) (words : ℕ) (line : List ℕ) (t : Detect.Table)
    → note tag words line t ≡ Detect.note_line tag words line t
unfolding note Detect.note_line
note-same tag words line t = elim (Bool-cases (has_prefix tag line)) [
  | inr e ↦ rw e refl
  | inl e ↦ rw e (go (scan_after words line))
]
  where
    go :
        (o : Scanned)
        → (elim o [
          | matched n ↦ note_id (record t { number = n })
          | unmatched ↦ note_id t
          | out_of_range ↦ undefined
        ])
          ≡ (assign o t.number >>= λ n. Detect.mark n (record t { number = n }))
    go (matched n) = note_id-same (record t { number = n })
    go unmatched = note_id-same t
    go out_of_range = refl

-- three branches and the rest of the loop, bracketed either way
three :
    (a b c : Outcome Detect.Table) (f g : Detect.Tables → Outcome Detect.Tables)
    → ((t : Detect.Tables) → f t ≡ g t)
    → (a >>= λ x. b >>= λ y. c >>= λ z. f (record { logical_cpus = x; sockets = y; cores = z })) ≡ (
        (a >>= λ x. b >>= λ y. c >>= λ z. ok (record { logical_cpus = x; sockets = y; cores = z }))
        >>= g)
three (ok x) (ok y) (ok z) f g h = h _
three (ok x) (ok y) (quit n) f g h = refl
three (ok x) (ok y) undefined f g h = refl
three (ok x) (quit n) c f g h = refl
three (ok x) undefined c f g h = refl
three (quit n) b c f g h = refl
three undefined b c f g h = refl

-- The loop of energy-app reads the tables that powmon's reads.
pub read_tables-same :
    (ls : List (List ℕ)) (t : Detect.Tables) → read_tables ls t ≡ Detect.read_tables ls t
unfolding read_tables Detect.read_tables Detect.note_all
read_tables-same [] t = refl
read_tables-same (line ∷ rest) t =
    rw
      (
        note-same (bytes "processor") 2 line t.logical_cpus,
        note-same (bytes "physical id") 3 line t.sockets,
        note-same (bytes "core id") 3 line t.cores,
      )
      (three (Detect.note_line (bytes "processor") 2 line t.logical_cpus)
        (Detect.note_line (bytes "physical id") 3 line t.sockets)
        (Detect.note_line (bytes "core id") 3 line t.cores) (read_tables rest)
        (Detect.read_tables rest) (read_tables-same rest))

-- what powmon found, in the data of energy-app
abbrev pub copied : SysData → ℤ × Data.SysData → ℤ × SysData
copied s (status, host) =
    (status, record s { ht_en = host.ht_en; ncore = host.ncore; ncpu = host.ncpu })

-- If powmon's `detect_topology` gets past a file, then so does that of energy-app, with the same value
-- and the same counts, and it changes nothing else.
pub detect_topology-agrees :
    (file : List ℕ) (host : Data.SysData) (r : ℤ × Data.SysData) (s : SysData)
    → Detect.detect_topology (some file) host ≡ ok r
    → detect_topology (some file) s ≡ ok (copied s r)
unfolding detect_topology Detect.detect_topology
detect_topology-agrees file host r s h =
    let (t, read, done) = >>=-eq-ok (Detect.read_tables (lines file) Detect.fresh_tables) _ h in
    let same = ok-injective (pos 0, Detect.with_tables host t) r done in
    rw (read_tables-same (lines file) Detect.fresh_tables, read) (ap (λ x. ok (copied s x)) same)
