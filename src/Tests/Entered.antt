-- ===== src/Tests/Entered.antt =====
-- powmon up to its loop on the machine whose registers all read the same.
use powmon.Base.{ℕ, ◌/◌, ◌%◌, ◌^◌, ◌≡◌, refl, sym, ap, ◌∙◌, arith, some, bit_and}
use powmon.Clib.{bytes}
use powmon.Msr.Laws.{Responsive}
use powmon.PowMon.Data.{SysData}
use powmon.PowMon.Start.{init_pow_mon}
use powmon.PowMon.Start.Returns.{HasRatio}
use powmon.Tests.Program.{steady}

pub steady-Responsive : Responsive steady
steady-Responsive = record {
  opens = λ t core. (3, refl);
  reads = λ t fd which. (0x1800, refl);
  writes = λ t fd which value. refl;
}

pub steady-HasRatio : HasRatio steady
steady-HasRatio t fd v e zero_ratio =
    let same : v ≡ 0x1800 = cc e in
    let found : ◌≡◌ {A = ℕ} 24 0 =
      ap (λ w. bit_and (w % 2 ^ 64 / 2 ^ 8) 0xff) (sym same) ∙ zero_ratio in
    omega arith

-- the data after the options
abbrev set : SysData
set = record init_pow_mon {
  logfile = bytes "./n1_pow_mon.log";
  hostid = some (bytes "node");
  topic = some (bytes "lab/n1");
  cmd_topic = some (bytes "lab/n1/");
  broker_host = some (bytes "org");
  dt = 0;
}
