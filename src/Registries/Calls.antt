-- ===== src/Registries/Calls.antt =====
-- What the calls of the main registries' methods return and read, under a library that keeps its
-- documentation.
use boost_openmethod_benchma.Common.{ℕ, [], ◌∷◌, sym, refl}
use boost_openmethod_benchma.Common.Int.{pos, negsuc}
use boost_openmethod_benchma.Machine.{load}
use boost_openmethod_benchma.Library.{MainRegistry}
use boost_openmethod_benchma.Hierarchy.{Base}
use boost_openmethod_benchma.Timing.Stamp.{Stamps, stamp-Stamps, read-Stamps}
use boost_openmethod_benchma.OpenMethod.{OpenMethod, IsDocumented}
use boost_openmethod_benchma.Registries.{
  poke_ref, poke_vp, collide_ref, collide_vp, poke_ref_impl, poke_vp_impl, collide_ref_base,
  collide_ref_impl, collide_vp_base, collide_vp_impl,
}
use boost_openmethod_benchma.UseMethods.{
  pokeu_ref, pokeu_vp, collideu_ref, collideu_vp, pokeu_ref_impl, pokeu_vp_impl, collideu_ref_base,
  collideu_ref_impl, collideu_vp_base, collideu_vp_impl,
}
use boost_openmethod_benchma.Verify.Oracle.{want2, wantu2}
use boost_openmethod_benchma.Registries.Outcomes.{
  IsObject, want2_of, wantu2_of, call1-Stamps, call2-Stamps,
}

module _ (lib : OpenMethod) (doc : IsDocumented lib) (num_classes : ℕ) (R : MainRegistry) where
  pub poke_ref-Stamps :
      (a : Base)
      → IsObject num_classes a
      → Stamps (poke_ref lib num_classes R a) a.tag (lib.ref_reads R (a ∷ []))
  unfolding poke_ref
  poke_ref-Stamps a h =
      call1-Stamps lib doc num_classes (poke_ref_impl lib R) (lib.ref_reads R (a ∷ [])) a.leaf a []
        (sym h.tagged) h.leaf_lt (stamp-Stamps (pos a.leaf))

  pub collide_ref-Stamps :
      (a b : Base)
      → IsObject num_classes a
      → IsObject num_classes b
      → Stamps
          (collide_ref lib num_classes R a b)
          (want2 a.tag b.tag)
          (lib.ref_reads R (a ∷ b ∷ []))
  unfolding collide_ref
  collide_ref-Stamps a b h k =
      call2-Stamps lib doc num_classes (collide_ref_base lib R) (collide_ref_impl lib R)
        (lib.ref_reads R (a ∷ b ∷ [])) a.leaf b.leaf (a, b) []
        (want2_of a.leaf b.leaf h.tagged k.tagged) h.leaf_lt (stamp-Stamps (pos a.leaf))
        (stamp-Stamps (negsuc 0))

  pub pokeu_ref-Stamps :
      (a : Base)
      → IsObject num_classes a
      → Stamps (pokeu_ref lib num_classes R a) a.tag (load a.addr ∷ lib.ref_reads R (a ∷ []))
  unfolding pokeu_ref
  pokeu_ref-Stamps a h =
      call1-Stamps lib doc num_classes (pokeu_ref_impl lib R) (lib.ref_reads R (a ∷ [])) a.leaf a
        (load a.addr ∷ []) refl h.leaf_lt (read-Stamps a.tag (load a.addr ∷ []))

  pub collideu_ref-Stamps :
      (a b : Base)
      → IsObject num_classes a
      → IsObject num_classes b
      → Stamps
          (collideu_ref lib num_classes R a b)
          (wantu2 a.tag b.tag)
          (load b.addr ∷ load a.addr ∷ lib.ref_reads R (a ∷ b ∷ []))
  unfolding collideu_ref
  collideu_ref-Stamps a b h k =
      call2-Stamps lib doc num_classes (collideu_ref_base lib R) (collideu_ref_impl lib R)
        (lib.ref_reads R (a ∷ b ∷ [])) a.leaf b.leaf (a, b) (load b.addr ∷ load a.addr ∷ [])
        (wantu2_of a.leaf b.leaf h.tagged k.tagged) h.leaf_lt
        (read-Stamps _ (load b.addr ∷ load a.addr ∷ []))
        (read-Stamps _ (load b.addr ∷ load a.addr ∷ []))

  -- The calls by `virtual_ptr` dispatch on the object that the pointer refers to.
  module _ (p : lib.VirtualPtr R) (h : IsObject num_classes (lib.get R p)) where
    pub poke_vp-Stamps :
        Stamps (poke_vp lib num_classes R p) (lib.get R p).tag (lib.vp_reads R (p ∷ []))
    unfolding poke_vp
    poke_vp-Stamps =
        call1-Stamps lib doc num_classes (poke_vp_impl lib R) (lib.vp_reads R (p ∷ []))
          (lib.get R p).leaf p [] (sym h.tagged) h.leaf_lt (stamp-Stamps (pos (lib.get R p).leaf))

    pub pokeu_vp-Stamps :
        Stamps
          (pokeu_vp lib num_classes R p)
          (lib.get R p).tag
          (load (lib.get R p).addr ∷ lib.vp_reads R (p ∷ []))
    unfolding pokeu_vp
    pokeu_vp-Stamps =
        call1-Stamps lib doc num_classes (pokeu_vp_impl lib R) (lib.vp_reads R (p ∷ []))
          (lib.get R p).leaf p (load (lib.get R p).addr ∷ []) refl h.leaf_lt
          (read-Stamps (lib.get R p).tag (load (lib.get R p).addr ∷ []))

    module _ (q : lib.VirtualPtr R) (k : IsObject num_classes (lib.get R q)) where
      pub collide_vp-Stamps :
          Stamps
            (collide_vp lib num_classes R p q)
            (want2 (lib.get R p).tag (lib.get R q).tag)
            (lib.vp_reads R (p ∷ q ∷ []))
      unfolding collide_vp
      collide_vp-Stamps =
          call2-Stamps lib doc num_classes (collide_vp_base lib R) (collide_vp_impl lib R)
            (lib.vp_reads R (p ∷ q ∷ [])) (lib.get R p).leaf (lib.get R q).leaf (p, q) []
            (want2_of (lib.get R p).leaf (lib.get R q).leaf h.tagged k.tagged) h.leaf_lt
            (stamp-Stamps (pos (lib.get R p).leaf)) (stamp-Stamps (negsuc 0))

      pub collideu_vp-Stamps :
          Stamps
            (collideu_vp lib num_classes R p q)
            (wantu2 (lib.get R p).tag (lib.get R q).tag)
            (load (lib.get R q).addr ∷ load (lib.get R p).addr ∷ lib.vp_reads R (p ∷ q ∷ []))
      unfolding collideu_vp
      collideu_vp-Stamps =
          call2-Stamps lib doc num_classes (collideu_vp_base lib R) (collideu_vp_impl lib R)
            (lib.vp_reads R (p ∷ q ∷ [])) (lib.get R p).leaf (lib.get R q).leaf (p, q)
            (load (lib.get R q).addr ∷ load (lib.get R p).addr ∷ [])
            (wantu2_of (lib.get R p).leaf (lib.get R q).leaf h.tagged k.tagged) h.leaf_lt
            (read-Stamps _ (load (lib.get R q).addr ∷ load (lib.get R p).addr ∷ []))
            (read-Stamps _ (load (lib.get R q).addr ∷ load (lib.get R p).addr ∷ []))
