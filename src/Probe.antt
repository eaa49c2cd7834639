-- ===== src/Probe.antt =====
-- src/dispatch_probe.cpp: the dispatches compiled on their own, for their disassembly.
pub mod Ids
use boost_openmethod_benchma.Machine.{M}
use boost_openmethod_benchma.Library.{MainRegistry, InplaceRegistry}
use boost_openmethod_benchma.Hierarchy.{Base, vf, dd}
use boost_openmethod_benchma.Hierarchy.Inplace.{IBase}
use boost_openmethod_benchma.Timing.Tsc.{StampId}
use boost_openmethod_benchma.Platform.{Platform}
use boost_openmethod_benchma.Registries.{poke_ref, poke_vp, collide_ref, collide_vp}
use boost_openmethod_benchma.Registries.Inplace.{ipoke_ref, icollide_ref}

-- `probe_vf1`
unfoldable pub probe_vf1 : Base → M StampId
probe_vf1 a = vf a

-- `probe_vf2`
unfoldable pub probe_vf2 : Base → Base → M StampId
probe_vf2 a b = dd a b

module _ (P : Platform) where
  open P use {lib, num_classes}

  -- `probe_om_ref1`
  unfoldable pub probe_om_ref1 : MainRegistry → Base → M StampId
  probe_om_ref1 R a = poke_ref lib num_classes R a

  -- `probe_om_vp1`
  unfoldable pub probe_om_vp1 : (R : MainRegistry) → lib.VirtualPtr R → M StampId
  probe_om_vp1 R a = poke_vp lib num_classes R a

  -- `probe_om_ref2`
  unfoldable pub probe_om_ref2 : MainRegistry → Base → Base → M StampId
  probe_om_ref2 R a b = collide_ref lib num_classes R a b

  -- `probe_om_vp2`
  unfoldable pub probe_om_vp2 : (R : MainRegistry) → lib.VirtualPtr R → lib.VirtualPtr R → M StampId
  probe_om_vp2 R a b = collide_vp lib num_classes R a b

  -- `probe_ip_ref1`
  unfoldable pub probe_ip_ref1 : (R : InplaceRegistry) → IBase R → M StampId
  probe_ip_ref1 R a = ipoke_ref lib num_classes R a

  -- `probe_ip_ref2`
  unfoldable pub probe_ip_ref2 : (R : InplaceRegistry) → IBase R → IBase R → M StampId
  probe_ip_ref2 R a b = icollide_ref lib num_classes R a b
