-- ===== src/Variants/Use.antt =====
-- src/main.cpp: the open-method variants with use bodies, four for each main registry.
use Prim.Native.String.{String}
use boost_openmethod_benchma.Common.{true, ◌∷◌, ◌++◌, get_elem?}
use boost_openmethod_benchma.Library.{MainRegistry}
use boost_openmethod_benchma.Hierarchy.{Base}
use boost_openmethod_benchma.Platform.{Platform, MainMethod}
use boost_openmethod_benchma.Registries.Regions.{registry_regions}
use boost_openmethod_benchma.UseMethods.{pokeu_ref, pokeu_vp, collideu_ref, collideu_vp}
use boost_openmethod_benchma.Variants.{Variant, both, vp_array, base_regions}

module _ (P : Platform) where
  open P use {lib, memory, num_classes}

  -- `v_om_refu1`
  abbrev pub v_om_refu1 : MainRegistry → String → Variant P
  v_om_refu1 R group = record {
    Args = Base;
    touches_receiver = true;
    body = "use";
    name = "om ref";
    group = group;
    hier = "main";
    arity = 1;
    prepare = λ e i j. get_elem? e.ptrs i;
    call = λ a. pokeu_ref lib num_classes R a;
    regions = λ a.
        base_regions P a
        ++ (memory.method MainMethod.pokeu_ref R ∷ registry_regions memory num_classes R);
  }

  -- `v_om_vpu1`
  abbrev pub v_om_vpu1 : MainRegistry → String → Variant P
  v_om_vpu1 R group = record {
    Args = lib.VirtualPtr R;
    touches_receiver = true;
    body = "use";
    name = "om vptr";
    group = group;
    hier = "main";
    arity = 1;
    prepare = λ e i j. get_elem? (vp_array P R e) i;
    call = λ a. pokeu_vp lib num_classes R a;
    regions = λ a.
        base_regions P (lib.get R a)
        ++ (memory.method MainMethod.pokeu_vp R ∷ registry_regions memory num_classes R);
  }

  -- `v_om_refu2`
  abbrev pub v_om_refu2 : MainRegistry → String → Variant P
  v_om_refu2 R group = record {
    Args = Base × Base;
    touches_receiver = true;
    body = "use";
    name = "om ref";
    group = group;
    hier = "main";
    arity = 2;
    prepare = λ e i j. both (get_elem? e.ptrs i) (get_elem? e.ptrs j);
    call = λ p. collideu_ref lib num_classes R p.0 p.1;
    regions = λ p.
        base_regions P p.0
        ++ base_regions P p.1
        ++ (memory.method MainMethod.collideu_ref R ∷ registry_regions memory num_classes R);
  }

  -- `v_om_vpu2`
  abbrev pub v_om_vpu2 : MainRegistry → String → Variant P
  v_om_vpu2 R group = record {
    Args = lib.VirtualPtr R × lib.VirtualPtr R;
    touches_receiver = true;
    body = "use";
    name = "om vptr";
    group = group;
    hier = "main";
    arity = 2;
    prepare = λ e i j. both (get_elem? (vp_array P R e) i) (get_elem? (vp_array P R e) j);
    call = λ p. collideu_vp lib num_classes R p.0 p.1;
    regions = λ p.
        base_regions P (lib.get R p.0)
        ++ base_regions P (lib.get R p.1)
        ++ (memory.method MainMethod.collideu_vp R ∷ registry_regions memory num_classes R);
  }
