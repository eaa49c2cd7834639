-- ===== src/Variants/Baseline.antt =====
-- src/main.cpp: the baselines and the yardsticks on the main hierarchy.
use boost_openmethod_benchma.Common.{true, false, [], ◌++◌, get_elem?}
use boost_openmethod_benchma.Common.Int.{negsuc}
use boost_openmethod_benchma.Hierarchy.{Base, touch, vf, vfu, dd, ddu}
use boost_openmethod_benchma.Timing.Stamp.{stamp}
use boost_openmethod_benchma.Platform.{Platform}
use boost_openmethod_benchma.Variants.{Variant, add_tag, both, direct_probe, base_regions}

module _ (P : Platform) where
  open P use {lib, memory, num_classes}

  -- `v_probe`
  abbrev pub v_probe : Variant P
  v_probe = record {
    Args = Base;
    touches_receiver = false;
    body = "-";
    name = "probe";
    group = "baseline";
    hier = "main";
    arity = 0;
    prepare = λ e i j. get_elem? e.ptrs i;
    call = λ _. stamp (negsuc 2);
    regions = λ _. [];
  }

  -- `v_direct`
  abbrev pub v_direct : Variant P
  v_direct = record {
    Args = Base;
    touches_receiver = false;
    body = "-";
    name = "direct";
    group = "baseline";
    hier = "main";
    arity = 0;
    prepare = λ e i j. get_elem? e.ptrs i;
    call = λ _. direct_probe;
    regions = λ a. base_regions P a;
  }

  -- `v_touch1`
  abbrev pub v_touch1 : Variant P
  v_touch1 = record {
    Args = Base;
    touches_receiver = true;
    body = "-";
    name = "touch";
    group = "baseline";
    hier = "main";
    arity = 1;
    prepare = λ e i j. get_elem? e.ptrs i;
    call = λ a. touch a;
    regions = λ a. base_regions P a;
  }

  -- `v_vf1`
  abbrev pub v_vf1 : Variant P
  v_vf1 = record {
    Args = Base;
    touches_receiver = true;
    body = "const";
    name = "vf";
    group = "yardstick";
    hier = "main";
    arity = 1;
    prepare = λ e i j. get_elem? e.ptrs i;
    call = λ a. vf a;
    regions = λ a. base_regions P a;
  }

  -- `v_touch2`
  abbrev pub v_touch2 : Variant P
  v_touch2 = record {
    Args = Base × Base;
    touches_receiver = true;
    body = "-";
    name = "touch+touch";
    group = "baseline";
    hier = "main";
    arity = 2;
    prepare = λ e i j. both (get_elem? e.ptrs i) (get_elem? e.ptrs j);
    call = λ p. add_tag p.0.addr p.0.tag (touch p.1);
    regions = λ p. base_regions P p.0 ++ base_regions P p.1;
  }

  -- `v_vf2`
  abbrev pub v_vf2 : Variant P
  v_vf2 = record {
    Args = Base × Base;
    touches_receiver = true;
    body = "const";
    name = "vf+vf";
    group = "yardstick";
    hier = "main";
    arity = 2;
    prepare = λ e i j. both (get_elem? e.ptrs i) (get_elem? e.ptrs j);
    call = λ p. dd p.0 p.1;
    regions = λ p. base_regions P p.0 ++ base_regions P p.1;
  }

  -- `v_vfu1`
  abbrev pub v_vfu1 : Variant P
  v_vfu1 = record {
    Args = Base;
    touches_receiver = true;
    body = "use";
    name = "vf";
    group = "yardstick";
    hier = "main";
    arity = 1;
    prepare = λ e i j. get_elem? e.ptrs i;
    call = λ a. vfu a;
    regions = λ a. base_regions P a;
  }

  -- `v_vfu2`
  abbrev pub v_vfu2 : Variant P
  v_vfu2 = record {
    Args = Base × Base;
    touches_receiver = true;
    body = "use";
    name = "vf+vf";
    group = "yardstick";
    hier = "main";
    arity = 2;
    prepare = λ e i j. both (get_elem? e.ptrs i) (get_elem? e.ptrs j);
    call = λ p. ddu p.0 p.1;
    regions = λ p. base_regions P p.0 ++ base_regions P p.1;
  }
