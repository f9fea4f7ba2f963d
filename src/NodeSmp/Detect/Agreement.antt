-- ===== src/NodeSmp/Detect/Agreement.antt =====
-- What pow_node_smp finds on a file, and what powmon finds.
use powmon.Base.{ℕ, ◌≡◌, ap, some, List, ℤ, pos}
use powmon.Clib.{ok, ok-injective, >>=-eq-ok, lines}
use powmon.PowMon.Data
use powmon.PowMon.Detect
use powmon.NodeSmp.Data.{SysData}
use powmon.NodeSmp.Detect.{detect_topology}

-- what powmon found, in the data of pow_node_smp
abbrev pub copied : SysData → ℤ × Data.SysData → ℤ × SysData
copied s (status, host) =
    (status, record s { ht_en = host.ht_en; ncore = host.ncore; ncpu = host.ncpu })

-- If powmon's `detect_topology` gets past a file, then so does that of pow_node_smp, with the same
-- value and the same counts, and it changes nothing else.
pub detect_topology-copied :
    (file : List ℕ) (host : Data.SysData) (r : ℤ × Data.SysData) (s : SysData)
    → Detect.detect_topology (some file) host ≡ ok r
    → detect_topology (some file) s ≡ ok (copied s r)
unfolding detect_topology Detect.detect_topology
detect_topology-copied file host r s h =
    let (t, read, done) = >>=-eq-ok (Detect.read_tables (lines file) Detect.fresh_tables) _ h in
    let same = ok-injective (pos 0, Detect.with_tables host t) r done in
    rw read (ap (λ x. ok (copied s x)) same)
