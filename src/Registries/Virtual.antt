-- ===== src/Registries/Virtual.antt =====
-- src/registries.hpp, src/use_methods.hpp: a dispatch on one object yields what the virtual function
-- yields.
use boost_openmethod_benchma.Common.{ℕ, ◌≡◌, refl, ap, sym, subst, some, List, [], ◌∷◌}
use boost_openmethod_benchma.Common.Int.{ℤ}
use boost_openmethod_benchma.Machine.{Event, World, M, load}
use boost_openmethod_benchma.Library.{MainRegistry, InplaceRegistry}
use boost_openmethod_benchma.Hierarchy.{Base, vf, vfu}
use boost_openmethod_benchma.Hierarchy.Inplace.{IBase, ivf, ivfu}
use boost_openmethod_benchma.Hierarchy.Calls.{vf-Stamps, vfu-Stamps, ivf-Stamps, ivfu-Stamps}
use boost_openmethod_benchma.Timing.Tsc.{StampId}
use boost_openmethod_benchma.Timing.Stamp.{Stamps}
use boost_openmethod_benchma.OpenMethod.{OpenMethod, IsDocumented}
use boost_openmethod_benchma.Registries.{poke_ref, poke_vp}
use boost_openmethod_benchma.Registries.Inplace.{ipoke_ref, ipokeu_ref}
use boost_openmethod_benchma.Registries.Outcomes.{IsObject, IsIobject, retag}
use boost_openmethod_benchma.Registries.Calls.{
  poke_ref-Stamps, poke_vp-Stamps, pokeu_ref-Stamps, pokeu_vp-Stamps,
}
use boost_openmethod_benchma.Registries.InplaceCalls.{ipoke_ref-Stamps, ipokeu_ref-Stamps}
use boost_openmethod_benchma.UseMethods.{pokeu_ref, pokeu_vp}

-- From every state both pieces of code end, and their stamps carry the same id.
abbrev pub IsSameCall : M StampId → M StampId → Type 0
IsSameCall m k =
    (w : World)
    → (r : StampId) × (r' : StampId) × (w' : World) × (w'' : World) × (m w ≡ some (r, w'))
      × (k w ≡ some (r', w''))
      × (r.id ≡ r'.id)

same_of :
    {m k : M StampId} (id : ℤ) (es fs : List Event)
    → Stamps m id es
    → Stamps k id fs
    → IsSameCall m k
same_of id es fs s t w = (_, _, _, _, s w, t w, refl)

-- With a documented library, on an object that the program makes: the overriders reached by reference
-- and by `virtual_ptr`, with const and with use bodies, end in every registry, and return the same id
-- as the virtual function with the same body.
pub poke_virtual :
    (lib : OpenMethod) (num_classes : ℕ)
    → IsDocumented lib
    → (R : MainRegistry) (a : Base) → IsObject num_classes a
    → IsSameCall (poke_ref lib num_classes R a) (vf a)
      × IsSameCall (poke_vp lib num_classes R (lib.virtual_ptr R a)) (vf a)
      × IsSameCall (pokeu_ref lib num_classes R a) (vfu a)
      × IsSameCall (pokeu_vp lib num_classes R (lib.virtual_ptr R a)) (vfu a)
poke_virtual lib num_classes doc R a k =
    let p = lib.virtual_ptr R a in
    let same : lib.get R p ≡ a = doc.get-virtual_ptr R a in
    let of_p : IsObject num_classes (lib.get R p) = subst (IsObject num_classes) (sym same) k in
    let virtual : Stamps (vf a) a.tag (load a.addr ∷ []) =
      retag (vf a) (load a.addr ∷ []) (sym k.tagged) (vf-Stamps a) in
    let body : Stamps (poke_vp lib num_classes R p) a.tag (lib.vp_reads R (p ∷ [])) =
      retag (poke_vp lib num_classes R p) (lib.vp_reads R (p ∷ [])) (ap Base.tag same)
        (poke_vp-Stamps lib doc num_classes R p of_p) in
    let bodyu : Stamps (pokeu_vp lib num_classes R p) a.tag
        (load (lib.get R p).addr ∷ lib.vp_reads R (p ∷ [])) =
      retag (pokeu_vp lib num_classes R p) (load (lib.get R p).addr ∷ lib.vp_reads R (p ∷ []))
        (ap Base.tag same) (pokeu_vp-Stamps lib doc num_classes R p of_p) in
    (
      same_of a.tag (lib.ref_reads R (a ∷ [])) (load a.addr ∷ [])
          (poke_ref-Stamps lib doc num_classes R a k) virtual,
      same_of a.tag (lib.vp_reads R (p ∷ [])) (load a.addr ∷ []) body virtual,
      same_of a.tag (load a.addr ∷ lib.ref_reads R (a ∷ [])) (load a.addr ∷ load a.addr ∷ [])
          (pokeu_ref-Stamps lib doc num_classes R a k) (vfu-Stamps a),
      same_of a.tag (load (lib.get R p).addr ∷ lib.vp_reads R (p ∷ []))
          (load a.addr ∷ load a.addr ∷ []) bodyu (vfu-Stamps a),
    )

-- With a documented library, on an object of an inplace hierarchy that the program makes: the
-- overriders reached by reference, with the const and with the use body, end, and return the same id
-- as the virtual function with the same body.
pub ipoke_virtual :
    (lib : OpenMethod) (num_classes : ℕ)
    → IsDocumented lib
    → (R : InplaceRegistry) (a : IBase R) → IsIobject num_classes a
    → IsSameCall (ipoke_ref lib num_classes R a) (ivf a)
      × IsSameCall (ipokeu_ref lib num_classes R a) (ivfu a)
ipoke_virtual lib num_classes doc R a k = (
  same_of a.tag (lib.iref_reads R (a ∷ [])) (load a.addr ∷ [])
      (ipoke_ref-Stamps lib doc num_classes a k)
      (retag (ivf a) (load a.addr ∷ []) (sym k.tagged) (ivf-Stamps a)),
  same_of a.tag (load a.addr ∷ lib.iref_reads R (a ∷ [])) (load a.addr ∷ load a.addr ∷ [])
      (ipokeu_ref-Stamps lib doc num_classes a k) (ivfu-Stamps a),
)
