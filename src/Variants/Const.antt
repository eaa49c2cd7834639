-- ===== src/Variants/Const.antt =====
-- src/main.cpp: the open-method variants with const bodies, four for each main registry.
use Prim.Native.String.{String}
use boost_openmethod_benchma.Common.{true, false, ◌∷◌, ◌++◌, get_elem?}
use boost_openmethod_benchma.Library.{MainRegistry}
use boost_openmethod_benchma.Hierarchy.{Base}
use boost_openmethod_benchma.Platform.{Platform, MainMethod}
use boost_openmethod_benchma.Registries.{poke_ref, poke_vp, collide_ref, collide_vp}
use boost_openmethod_benchma.Registries.Regions.{registry_regions}
use boost_openmethod_benchma.Variants.{Variant, both, vp_array, base_regions}

module _ (P : Platform) where
  open P use {lib, memory, num_classes}

  -- `v_om_ref1`
  abbrev pub v_om_ref1 : MainRegistry → String → Variant P
  v_om_ref1 R group = record {
    Args = Base;
    touches_receiver = true;
    body = "const";
    name = "om ref";
    group = group;
    hier = "main";
    arity = 1;
    prepare = λ e i j. get_elem? e.ptrs i;
    call = λ a. poke_ref lib num_classes R a;
    regions = λ a.
        base_regions P a
        ++ (memory.method MainMethod.poke_ref R ∷ registry_regions memory num_classes R);
  }

  -- `v_om_vp1`
  abbrev pub v_om_vp1 : MainRegistry → String → Variant P
  v_om_vp1 R group = record {
    Args = lib.VirtualPtr R;
    touches_receiver = false;
    body = "const";
    name = "om vptr";
    group = group;
    hier = "main";
    arity = 1;
    prepare = λ e i j. get_elem? (vp_array P R e) i;
    call = λ a. poke_vp lib num_classes R a;
    regions = λ a.
        base_regions P (lib.get R a)
        ++ (memory.method MainMethod.poke_vp R ∷ registry_regions memory num_classes R);
  }

  -- `v_om_ref2`
  abbrev pub v_om_ref2 : MainRegistry → String → Variant P
  v_om_ref2 R group = record {
    Args = Base × Base;
    touches_receiver = true;
    body = "const";
    name = "om ref";
    group = group;
    hier = "main";
    arity = 2;
    prepare = λ e i j. both (get_elem? e.ptrs i) (get_elem? e.ptrs j);
    call = λ p. collide_ref lib num_classes R p.0 p.1;
    regions = λ p.
        base_regions P p.0
        ++ base_regions P p.1
        ++ (memory.method MainMethod.collide_ref R ∷ registry_regions memory num_classes R);
  }

  -- `v_om_vp2`
  abbrev pub v_om_vp2 : MainRegistry → String → Variant P
  v_om_vp2 R group = record {
    Args = lib.VirtualPtr R × lib.VirtualPtr R;
    touches_receiver = false;
    body = "const";
    name = "om vptr";
    group = group;
    hier = "main";
    arity = 2;
    prepare = λ e i j. both (get_elem? (vp_array P R e) i) (get_elem? (vp_array P R e) j);
    call = λ p. collide_vp lib num_classes R p.0 p.1;
    regions = λ p.
        base_regions P (lib.get R p.0)
        ++ base_regions P (lib.get R p.1)
        ++ (memory.method MainMethod.collide_vp R ∷ registry_regions memory num_classes R);
  }
