-- ===== src/Run/Key.antt =====
-- src/main.cpp: the members of `row` and of a variant by which `report` finds rows.
use Prim.Native.String.{String}
use boost_openmethod_benchma.Common.{ℕ, Bool}
use boost_openmethod_benchma.Timing.Flush.{CacheMode}
use boost_openmethod_benchma.Platform.{Platform}
use boost_openmethod_benchma.Variants.{Variant}
use boost_openmethod_benchma.Run.{Row}

-- The members of `row` that rows are looked up by.
pub record Key : Type 0 where
  pub name : String
  pub group : String
  pub hier : String
  pub arity : ℕ
  pub touches_receiver : Bool
  pub body : String
  pub mode : CacheMode

abbrev pub key_of : {F : Type 0} → Row F → Key
key_of r = record {
  name = r.name;
  group = r.group;
  hier = r.hier;
  arity = r.arity;
  touches_receiver = r.touches_receiver;
  body = r.body;
  mode = r.mode;
}

-- The key of the row that `run` makes for a variant in a mode.
abbrev pub variant_key : {P : Platform} → CacheMode → Variant P → Key
variant_key mode v = record {
  name = v.name;
  group = v.group;
  hier = v.hier;
  arity = v.arity;
  touches_receiver = v.touches_receiver;
  body = v.body;
  mode = mode;
}
