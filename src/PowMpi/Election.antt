-- ===== src/PowMpi/Election.antt =====
-- `get_comm_split_color_hostname` and the choice of the process that monitors a node, in `poli_init`
-- of powmpi/powmpi.c. `MPI_Comm_split` is a parameter: the rank that each process gets in the
-- communicator of its colour.
pub mod Monitors
pub mod Names
use powmon.Base.{
  ℕ, ◌+◌, ◌≡◌, Bool, true, false, ◌||◌, Option, none, some, List, [], ◌∷◌, ◌==◌, if◌then◌else◌, ℤ,
  pos, negsuc,
}
use powmon.Clib.{Outcome, ok, undefined, ◌>>=◌, bytes, scan_int}
use powmon.PowMon.Daemon.{atoi}
use powmon.PowMon.Detect.Marks.{count_below}

abbrev pub is_one_of : List ℕ → ℕ → Bool
is_one_of [] c = false
is_one_of (d ∷ ds) c = d == c || is_one_of ds c

unfoldable pub skip_any : List ℕ → List ℕ → List ℕ
skip_any ds [] = []
skip_any ds (c ∷ s) = let rest = skip_any ds s in if is_one_of ds c then rest else c ∷ s

-- the text before the first delimiter, and the one after it
unfoldable pub cut : List ℕ → List ℕ → List ℕ × List ℕ
cut ds [] = ([], [])
cut ds (c ∷ s) = let (w, rest) = cut ds s in if is_one_of ds c then ([], s) else (c ∷ w, rest)

-- `strtok`: the token, and where the next call goes on
unfoldable pub strtok : List ℕ → List ℕ → Option (List ℕ × List ℕ)
unfolding skip_any cut
strtok ds s = elim (skip_any ds s) [ [] ↦ none | c ∷ rest ↦ some (cut ds (c ∷ rest)) ]

-- a token that is used, where a null pointer is not to be
abbrev token : Option (List ℕ × List ℕ) → Outcome (List ℕ × List ℕ)
token none = undefined
token (some t) = ok t

-- The colour of a process: the third part of its host's name.
unfoldable pub color_of : List ℕ → Outcome ℤ
unfolding strtok
color_of hostname = do
  (my_host, _) ← token (strtok (bytes " \t.\n") hostname)
  (_, rest) ← token (strtok (bytes "-") my_host)
  (_, rest') ← token (strtok (bytes "-") rest)
  (hostnum, _) ← token (strtok (bytes "-") rest')
  atoi (scan_int hostnum)

abbrev pub same_color : ℤ → ℤ → Bool
same_color (pos a) (pos b) = a == b
same_color (negsuc a) (negsuc b) = a == b
same_color a b = false

-- What MPI promises of `MPI_Comm_split` where each process gives its world rank as the key: within a
-- colour the processes are numbered in the order of their world ranks.
abbrev pub Splits : ((ℕ → ℤ) → ℕ → ℕ) → Type 0
Splits split =
    (colors : ℕ → ℤ) (rank : ℕ)
    → split colors rank ≡ count_below rank (λ q. same_color (colors q) (colors rank))

-- `imonitor`, from the rank on the node
abbrev pub imonitor : ℕ → ℕ
imonitor node_rank = if node_rank == 0 then 1 else 0
