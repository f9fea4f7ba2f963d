-- ===== src/PowMon/Detect/Topology.antt =====
-- What `detect_topology` makes of a file.
use powmon.Base.{ℕ, ◌*◌, ◌≡◌, refl, sym, ap, ◌∙◌, some, List, [], ◌∷◌, ◌==◌, if◌then◌else◌, ℤ, pos}
use powmon.Clib.{ok, ok-injective, >>=-eq-ok, ◌>>=◌, lines}
use powmon.Msr.Addresses.{max_cores, max_packages}
use powmon.PowMon.Data.{SysData}
use powmon.PowMon.Detect.{
  Tables, processor_tag, physical_tag, core_tag, note_line, note_all, read_tables, fresh_tables,
  with_tables, detect_topology,
}
use powmon.PowMon.Detect.Tally.{note_lines-total}
use powmon.PowMon.Detect.Marks.{count_below, contains, numbers, note_lines}

-- Each table has been through all lines on its own.
record Apart (ls : List (List ℕ)) (t t' : Tables) : Type 0 where
  logical_cpus : note_lines processor_tag 2 ls t.logical_cpus ≡ ok t'.logical_cpus
  sockets : note_lines physical_tag 3 ls t.sockets ≡ ok t'.sockets
  cores : note_lines core_tag 3 ls t.cores ≡ ok t'.cores

read_tables-Apart : (ls : List (List ℕ)) (t t' : Tables) → read_tables ls t ≡ ok t' → Apart ls t t'
unfolding read_tables note_lines
read_tables-Apart [] t t' h =
    let e = ok-injective t t' h in
    record {
      logical_cpus = ap (λ (x : Tables). ok x.logical_cpus) e;
      sockets = ap (λ (x : Tables). ok x.sockets) e;
      cores = ap (λ (x : Tables). ok x.cores) e;
    }
read_tables-Apart (line ∷ ls) t t' h =
    let (t₁, first, rest) = >>=-eq-ok (note_all line t) (read_tables ls) h in
    let (a, ea, more) = >>=-eq-ok (note_line processor_tag 2 line t.logical_cpus) _ first in
    let (b, eb, more') = >>=-eq-ok (note_line physical_tag 3 line t.sockets) _ more in
    let (c, ec, last) = >>=-eq-ok (note_line core_tag 3 line t.cores) _ more' in
    let e = ok-injective (record { logical_cpus = a; sockets = b; cores = c }) t₁ last in
    let r = read_tables-Apart ls t₁ t' rest in
    record {
      logical_cpus =
          ap (λ o. o >>= note_lines processor_tag 2 ls) ea
          ∙ ap (λ (x : Tables). note_lines processor_tag 2 ls x.logical_cpus) e
          ∙ r.logical_cpus;
      sockets =
          ap (λ o. o >>= note_lines physical_tag 3 ls) eb
          ∙ ap (λ (x : Tables). note_lines physical_tag 3 ls x.sockets) e
          ∙ r.sockets;
      cores =
          ap (λ o. o >>= note_lines core_tag 3 ls) ec
          ∙ ap (λ (x : Tables). note_lines core_tag 3 ls x.cores) e
          ∙ r.cores;
    }

-- how many different indices below `size` follow the tag in the file
abbrev pub distinct : List ℕ → ℕ → ℕ → List ℕ → ℕ
distinct tag words size file =
    count_below size (λ j. contains j (numbers tag words (lines file) (pos 0)))

-- The data as the file describes the machine.
abbrev pub described : List ℕ → SysData → SysData
described file s =
    let sockets = distinct physical_tag 3 max_packages file in
    let total = distinct core_tag 3 max_cores file * sockets in
    record s {
      ht_en = if total * 2 == distinct processor_tag 2 max_cores file then 1 else 0;
      ncore = total;
      ncpu = sockets;
    }

totals :
    (s : SysData) {cpus sockets cores cpus' sockets' cores' : ℕ}
    → cpus ≡ cpus'
    → sockets ≡ sockets'
    → cores ≡ cores'
    → ◌≡◌ {A = ℤ × SysData}
        (
          pos 0,
          record s {
            ht_en = if cores * sockets * 2 == cpus then 1 else 0;
            ncore = cores * sockets;
            ncpu = sockets;
          },
        )
        (
          pos 0,
          record s {
            ht_en = if cores' * sockets' * 2 == cpus' then 1 else 0;
            ncore = cores' * sockets';
            ncpu = sockets';
          },
        )
totals s e₁ e₂ e₃ = rw (e₁, e₂, e₃) refl

-- Whatever the file holds, if `detect_topology` gets past it, it gives 0, sets `ncpu` to the number
-- of different `physical id`s, `ncore` to that times the number of different `core id`s, and
-- `ht_en` to whether twice that is the number of different `processor`s, and changes nothing else.
pub detect_topology-described :
    (file : List ℕ) (s : SysData) (r : ℤ × SysData)
    → detect_topology (some file) s ≡ ok r
    → r ≡ (pos 0, described file s)
unfolding detect_topology
detect_topology-described file s r h =
    let (t, read, done) = >>=-eq-ok (read_tables (lines file) fresh_tables) _ h in
    let a = read_tables-Apart (lines file) fresh_tables t read in
    sym (ok-injective (pos 0, with_tables s t) r done)
    ∙ totals s
        (note_lines-total processor_tag 2 max_cores (lines file) t.logical_cpus a.logical_cpus)
        (note_lines-total physical_tag 3 max_packages (lines file) t.sockets a.sockets)
        (note_lines-total core_tag 3 max_cores (lines file) t.cores a.cores)
