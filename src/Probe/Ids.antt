-- ===== src/Probe/Ids.antt =====
-- src/dispatch_probe.cpp: what the probes return and read, for the objects that the factories make.
use boost_openmethod_benchma.Common.{◌≡◌, refl, ap, sym, subst, [], ◌∷◌}
use boost_openmethod_benchma.Machine.{load}
use boost_openmethod_benchma.Library.{MainRegistry, InplaceRegistry}
use boost_openmethod_benchma.Hierarchy.{Base}
use boost_openmethod_benchma.Hierarchy.Inplace.{IBase}
use boost_openmethod_benchma.Hierarchy.Calls.{vf-Stamps, dd-Stamps}
use boost_openmethod_benchma.Timing.Stamp.{Stamps}
use boost_openmethod_benchma.OpenMethod.{IsDocumented}
use boost_openmethod_benchma.Platform.{Platform}
use boost_openmethod_benchma.Registries.Outcomes.{IsObject, IsIobject, retag}
use boost_openmethod_benchma.Registries.Calls.{
  poke_ref-Stamps, poke_vp-Stamps, collide_ref-Stamps, collide_vp-Stamps,
}
use boost_openmethod_benchma.Registries.InplaceCalls.{ipoke_ref-Stamps, icollide_ref-Stamps}
use boost_openmethod_benchma.Verify.Oracle.{want2}
use boost_openmethod_benchma.Probe.{
  probe_vf1, probe_vf2, probe_om_ref1, probe_om_vp1, probe_om_ref2, probe_om_vp2, probe_ip_ref1,
  probe_ip_ref2,
}

-- The virtual functions end with the receiver's `tag`, or that of the second receiver, and read both.
abbrev pub VfProbes : Base → Base → Type 0
VfProbes a b =
    Stamps (probe_vf1 a) a.tag (load a.addr ∷ [])
    × Stamps (probe_vf2 a b) b.tag (load b.addr ∷ load a.addr ∷ [])

module _ (P : Platform) where
  open P use {lib}

  -- The methods of a main registry end with the `tag`, or with that of the two receivers' common leaf
  -- class and -1 if they have none, behind the reads of the dispatch alone.
  abbrev pub OmProbes : MainRegistry → Base → Base → Type 0
  OmProbes R a b =
      let p = lib.virtual_ptr R a in
      let q = lib.virtual_ptr R b in
      Stamps (probe_om_ref1 P R a) a.tag (lib.ref_reads R (a ∷ []))
      × Stamps (probe_om_vp1 P R p) a.tag (lib.vp_reads R (p ∷ []))
      × Stamps (probe_om_ref2 P R a b) (want2 a.tag b.tag) (lib.ref_reads R (a ∷ b ∷ []))
      × Stamps (probe_om_vp2 P R p q) (want2 a.tag b.tag) (lib.vp_reads R (p ∷ q ∷ []))

  -- and those of an inplace registry
  abbrev pub IpProbes : (R : InplaceRegistry) → IBase R → IBase R → Type 0
  IpProbes R a b =
      Stamps (probe_ip_ref1 P R a) a.tag (lib.iref_reads R (a ∷ []))
      × Stamps (probe_ip_ref2 P R a b) (want2 a.tag b.tag) (lib.iref_reads R (a ∷ b ∷ []))

module _ (P : Platform) (doc : IsDocumented P.lib) where
  om_probes :
      (R : MainRegistry) (a b : Base)
      → IsObject P.num_classes a
      → IsObject P.num_classes b
      → OmProbes P R a b
  unfolding probe_om_ref1 probe_om_vp1 probe_om_ref2 probe_om_vp2
  om_probes R a b h k =
      let p = P.lib.virtual_ptr R a in
      let q = P.lib.virtual_ptr R b in
      let same : P.lib.get R p ≡ a = doc.get-virtual_ptr R a in
      let same' : P.lib.get R q ≡ b = doc.get-virtual_ptr R b in
      let of_p = subst (IsObject P.num_classes) (sym same) h in
      let of_q = subst (IsObject P.num_classes) (sym same') k in
      (
        poke_ref-Stamps P.lib doc P.num_classes R a h,
        retag _ (P.lib.vp_reads R (p ∷ [])) (ap Base.tag same)
            (poke_vp-Stamps P.lib doc P.num_classes R p of_p),
        collide_ref-Stamps P.lib doc P.num_classes R a b h k,
        retag _ (P.lib.vp_reads R (p ∷ q ∷ [])) (rw (same, same') refl)
            (collide_vp-Stamps P.lib doc P.num_classes R p of_p q of_q),
      )

  -- With a documented library, for objects that the factories make, every probe does what the class
  -- contracts and the library's documentation say: the virtual functions return the receiver's `tag`, of
  -- two receivers the second's, and read the receivers; a method on one receiver returns its `tag`, a
  -- method on two their common `tag`, or -1 if the tags differ, behind the reads of the dispatch alone.
  pub probes-Stamp :
      (R : MainRegistry) (S : InplaceRegistry) (a b : Base) (c d : IBase S)
      → IsObject P.num_classes a
      → IsObject P.num_classes b
      → IsIobject P.num_classes c
      → IsIobject P.num_classes d
      → VfProbes a b × OmProbes P R a b × IpProbes P S c d
  unfolding probe_vf1 probe_vf2 probe_ip_ref1 probe_ip_ref2
  probes-Stamp R S a b c d ha hb hc hd = (
    (
      retag _ (load a.addr ∷ []) (sym ha.tagged) (vf-Stamps a),
      retag _ (load b.addr ∷ load a.addr ∷ []) (sym hb.tagged) (dd-Stamps a b),
    ),
    om_probes R a b ha hb,
    (
      ipoke_ref-Stamps P.lib doc P.num_classes c hc,
      icollide_ref-Stamps P.lib doc P.num_classes c d hc hd,
    ),
  )
