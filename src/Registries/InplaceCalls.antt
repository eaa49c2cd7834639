-- ===== src/Registries/InplaceCalls.antt =====
-- What the calls of the inplace methods return and read, under a library that keeps its documentation.
use boost_openmethod_benchma.Common.{ℕ, [], ◌∷◌, sym, refl}
use boost_openmethod_benchma.Common.Int.{pos, negsuc}
use boost_openmethod_benchma.Machine.{load}
use boost_openmethod_benchma.Library.{InplaceRegistry}
use boost_openmethod_benchma.Hierarchy.Inplace.{IBase}
use boost_openmethod_benchma.Timing.Stamp.{Stamps, stamp-Stamps, read-Stamps}
use boost_openmethod_benchma.OpenMethod.{OpenMethod, IsDocumented}
use boost_openmethod_benchma.Registries.Inplace.{
  ipoke_ref, icollide_ref, ipokeu_ref, icollideu_ref, ipoke_ref_impl, icollide_ref_base,
  icollide_ref_impl, ipokeu_ref_impl, icollideu_ref_base, icollideu_ref_impl,
}
use boost_openmethod_benchma.Verify.Oracle.{want2, wantu2}
use boost_openmethod_benchma.Registries.Outcomes.{
  IsIobject, want2_of, wantu2_of, call1-Stamps, call2-Stamps,
}

module _ (lib : OpenMethod) (doc : IsDocumented lib) (num_classes : ℕ) {R : InplaceRegistry} where
  pub ipoke_ref-Stamps :
      (a : IBase R)
      → IsIobject num_classes a
      → Stamps (ipoke_ref lib num_classes R a) a.tag (lib.iref_reads R (a ∷ []))
  unfolding ipoke_ref
  ipoke_ref-Stamps a h =
      call1-Stamps lib doc num_classes (ipoke_ref_impl R) (lib.iref_reads R (a ∷ [])) a.leaf a []
        (sym h.tagged) h.leaf_lt (stamp-Stamps (pos a.leaf))

  pub ipokeu_ref-Stamps :
      (a : IBase R)
      → IsIobject num_classes a
      → Stamps (ipokeu_ref lib num_classes R a) a.tag (load a.addr ∷ lib.iref_reads R (a ∷ []))
  unfolding ipokeu_ref
  ipokeu_ref-Stamps a h =
      call1-Stamps lib doc num_classes (ipokeu_ref_impl R) (lib.iref_reads R (a ∷ [])) a.leaf a
        (load a.addr ∷ []) refl h.leaf_lt (read-Stamps a.tag (load a.addr ∷ []))

  module _ (a b : IBase R) (h : IsIobject num_classes a) (k : IsIobject num_classes b) where
    pub icollide_ref-Stamps :
        Stamps
          (icollide_ref lib num_classes R a b)
          (want2 a.tag b.tag)
          (lib.iref_reads R (a ∷ b ∷ []))
    unfolding icollide_ref
    icollide_ref-Stamps =
        call2-Stamps lib doc num_classes (icollide_ref_base R) (icollide_ref_impl R)
          (lib.iref_reads R (a ∷ b ∷ [])) a.leaf b.leaf (a, b) []
          (want2_of a.leaf b.leaf h.tagged k.tagged) h.leaf_lt (stamp-Stamps (pos a.leaf))
          (stamp-Stamps (negsuc 0))

    pub icollideu_ref-Stamps :
        Stamps
          (icollideu_ref lib num_classes R a b)
          (wantu2 a.tag b.tag)
          (load b.addr ∷ load a.addr ∷ lib.iref_reads R (a ∷ b ∷ []))
    unfolding icollideu_ref
    icollideu_ref-Stamps =
        call2-Stamps lib doc num_classes (icollideu_ref_base R) (icollideu_ref_impl R)
          (lib.iref_reads R (a ∷ b ∷ [])) a.leaf b.leaf (a, b) (load b.addr ∷ load a.addr ∷ [])
          (wantu2_of a.leaf b.leaf h.tagged k.tagged) h.leaf_lt
          (read-Stamps _ (load b.addr ∷ load a.addr ∷ []))
          (read-Stamps _ (load b.addr ∷ load a.addr ∷ []))
