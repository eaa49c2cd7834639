-- ===== src/Variants/InplaceUse.antt =====
-- src/main.cpp: the variants with use bodies on the inplace hierarchies.
use Prim.Native.String.{String}
use boost_openmethod_benchma.Common.{true, ◌∷◌, ◌++◌, get_elem?}
use boost_openmethod_benchma.Library.{InplaceRegistry}
use boost_openmethod_benchma.Hierarchy.Inplace.{IBase, ivfu, iddu}
use boost_openmethod_benchma.Platform.{Platform, InplaceMethod}
use boost_openmethod_benchma.Registries.Inplace.{ipokeu_ref, icollideu_ref}
use boost_openmethod_benchma.Registries.Regions.{inplace_registry_regions}
use boost_openmethod_benchma.Variants.{Variant, both, ip_pop, ibase_regions}

module _ (P : Platform) where
  open P use {lib, memory, num_classes}

  -- `v_ip_vfu1`
  abbrev pub v_ip_vfu1 : (R : InplaceRegistry) → String → Variant P
  v_ip_vfu1 R hier = record {
    Args = IBase R;
    touches_receiver = true;
    body = "use";
    name = "vf";
    group = "yardstick";
    hier = hier;
    arity = 1;
    prepare = λ e i j. get_elem? (ip_pop P R e).ptrs i;
    call = λ a. ivfu a;
    regions = λ a. ibase_regions P a;
  }

  -- `v_ip_vfu2`
  abbrev pub v_ip_vfu2 : (R : InplaceRegistry) → String → Variant P
  v_ip_vfu2 R hier = record {
    Args = IBase R × IBase R;
    touches_receiver = true;
    body = "use";
    name = "vf+vf";
    group = "yardstick";
    hier = hier;
    arity = 2;
    prepare = λ e i j. both (get_elem? (ip_pop P R e).ptrs i) (get_elem? (ip_pop P R e).ptrs j);
    call = λ p. iddu p.0 p.1;
    regions = λ p. ibase_regions P p.0 ++ ibase_regions P p.1;
  }

  -- `v_ip_refu1`
  abbrev pub v_ip_refu1 : (R : InplaceRegistry) → String → String → Variant P
  v_ip_refu1 R group hier = record {
    Args = IBase R;
    touches_receiver = true;
    body = "use";
    name = "om ref";
    group = group;
    hier = hier;
    arity = 1;
    prepare = λ e i j. get_elem? (ip_pop P R e).ptrs i;
    call = λ a. ipokeu_ref lib num_classes R a;
    regions = λ a.
        ibase_regions P a
        ++ (memory.imethod InplaceMethod.ipokeu_ref R
            ∷ inplace_registry_regions memory num_classes R);
  }

  -- `v_ip_refu2`
  abbrev pub v_ip_refu2 : (R : InplaceRegistry) → String → String → Variant P
  v_ip_refu2 R group hier = record {
    Args = IBase R × IBase R;
    touches_receiver = true;
    body = "use";
    name = "om ref";
    group = group;
    hier = hier;
    arity = 2;
    prepare = λ e i j. both (get_elem? (ip_pop P R e).ptrs i) (get_elem? (ip_pop P R e).ptrs j);
    call = λ p. icollideu_ref lib num_classes R p.0 p.1;
    regions = λ p.
        ibase_regions P p.0
        ++ ibase_regions P p.1
        ++ (memory.imethod InplaceMethod.icollideu_ref R
            ∷ inplace_registry_regions memory num_classes R);
  }
