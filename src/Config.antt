-- ===== src/Config.antt =====
-- src/main.cpp: `config`, the settings of a run.
use boost_openmethod_benchma.Common.{ℕ, Bool, true, false}
use boost_openmethod_benchma.Common.Int.{ℤ, pos}

-- `config`
pub record Config : Type 0 where
  pub reps : ℕ
  pub objects : ℕ
  pub sweep_mb : ℕ
  pub cpu : ℤ
  pub seed : ℕ
  pub csv : Bool
  pub verify_only : Bool
  pub warm : Bool
  pub clflush : Bool
  pub sweep : Bool

-- the default member initializers
abbrev pub default_config : Config
default_config = record {
  reps = 1000;
  objects = 4096;
  sweep_mb = 64;
  cpu = pos 2;
  seed = 12345;
  csv = false;
  verify_only = false;
  warm = true;
  clflush = true;
  sweep = true;
}
