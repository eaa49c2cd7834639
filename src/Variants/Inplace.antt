-- ===== src/Variants/Inplace.antt =====
-- src/main.cpp: the variants with const bodies on the inplace hierarchies, and their baselines.
use Prim.Native.String.{String}
use boost_openmethod_benchma.Common.{true, ◌∷◌, ◌++◌, get_elem?}
use boost_openmethod_benchma.Library.{InplaceRegistry}
use boost_openmethod_benchma.Hierarchy.Inplace.{IBase, itouch, ivf, idd}
use boost_openmethod_benchma.Platform.{Platform, InplaceMethod}
use boost_openmethod_benchma.Registries.Inplace.{ipoke_ref, icollide_ref}
use boost_openmethod_benchma.Registries.Regions.{inplace_registry_regions}
use boost_openmethod_benchma.Variants.{Variant, add_tag, both, ip_pop, ibase_regions}

module _ (P : Platform) where
  open P use {lib, memory, num_classes}

  -- `v_ip_touch1`
  abbrev pub v_ip_touch1 : (R : InplaceRegistry) → String → Variant P
  v_ip_touch1 R hier = record {
    Args = IBase R;
    touches_receiver = true;
    body = "-";
    name = "touch";
    group = "baseline";
    hier = hier;
    arity = 1;
    prepare = λ e i j. get_elem? (ip_pop P R e).ptrs i;
    call = λ a. itouch a;
    regions = λ a. ibase_regions P a;
  }

  -- `v_ip_touch2`
  abbrev pub v_ip_touch2 : (R : InplaceRegistry) → String → Variant P
  v_ip_touch2 R hier = record {
    Args = IBase R × IBase R;
    touches_receiver = true;
    body = "-";
    name = "touch+touch";
    group = "baseline";
    hier = hier;
    arity = 2;
    prepare = λ e i j. both (get_elem? (ip_pop P R e).ptrs i) (get_elem? (ip_pop P R e).ptrs j);
    call = λ p. add_tag p.0.addr p.0.tag (itouch p.1);
    regions = λ p. ibase_regions P p.0 ++ ibase_regions P p.1;
  }

  -- `v_ip_vf1`
  abbrev pub v_ip_vf1 : (R : InplaceRegistry) → String → Variant P
  v_ip_vf1 R hier = record {
    Args = IBase R;
    touches_receiver = true;
    body = "const";
    name = "vf";
    group = "yardstick";
    hier = hier;
    arity = 1;
    prepare = λ e i j. get_elem? (ip_pop P R e).ptrs i;
    call = λ a. ivf a;
    regions = λ a. ibase_regions P a;
  }

  -- `v_ip_vf2`
  abbrev pub v_ip_vf2 : (R : InplaceRegistry) → String → Variant P
  v_ip_vf2 R hier = record {
    Args = IBase R × IBase R;
    touches_receiver = true;
    body = "const";
    name = "vf+vf";
    group = "yardstick";
    hier = hier;
    arity = 2;
    prepare = λ e i j. both (get_elem? (ip_pop P R e).ptrs i) (get_elem? (ip_pop P R e).ptrs j);
    call = λ p. idd p.0 p.1;
    regions = λ p. ibase_regions P p.0 ++ ibase_regions P p.1;
  }

  -- `v_ip_ref1`
  abbrev pub v_ip_ref1 : (R : InplaceRegistry) → String → String → Variant P
  v_ip_ref1 R group hier = record {
    Args = IBase R;
    touches_receiver = true;
    body = "const";
    name = "om ref";
    group = group;
    hier = hier;
    arity = 1;
    prepare = λ e i j. get_elem? (ip_pop P R e).ptrs i;
    call = λ a. ipoke_ref lib num_classes R a;
    regions = λ a.
        ibase_regions P a
        ++ (memory.imethod InplaceMethod.ipoke_ref R
            ∷ inplace_registry_regions memory num_classes R);
  }

  -- `v_ip_ref2`
  abbrev pub v_ip_ref2 : (R : InplaceRegistry) → String → String → Variant P
  v_ip_ref2 R group hier = record {
    Args = IBase R × IBase R;
    touches_receiver = true;
    body = "const";
    name = "om ref";
    group = group;
    hier = hier;
    arity = 2;
    prepare = λ e i j. both (get_elem? (ip_pop P R e).ptrs i) (get_elem? (ip_pop P R e).ptrs j);
    call = λ p. icollide_ref lib num_classes R p.0 p.1;
    regions = λ p.
        ibase_regions P p.0
        ++ ibase_regions P p.1
        ++ (memory.imethod InplaceMethod.icollide_ref R
            ∷ inplace_registry_regions memory num_classes R);
  }
