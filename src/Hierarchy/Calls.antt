-- ===== src/Hierarchy/Calls.antt =====
-- src/hierarchy.hpp: what the calls on objects return and read. The reads are newest first.
use boost_openmethod_benchma.Common.{[], ◌∷◌}
use boost_openmethod_benchma.Common.Int.{pos, ◌+ℤ◌}
use boost_openmethod_benchma.Machine.{load}
use boost_openmethod_benchma.Library.{InplaceRegistry}
use boost_openmethod_benchma.Hierarchy.{Base, touch, vf, vfu, dd, ddu, dd_with, dd_withu}
use boost_openmethod_benchma.Hierarchy.Inplace.{
  IBase, itouch, ivf, ivfu, idd, iddu, idd_with, idd_withu,
}
use boost_openmethod_benchma.Timing.Stamp.{Stamps, emit-Stamps, read-Stamps}

module _ (a : Base) where
  pub touch-Stamps : Stamps (touch a) a.tag (load a.addr ∷ [])
  unfolding touch
  touch-Stamps = read-Stamps a.tag (load a.addr ∷ [])

  pub vf-Stamps : Stamps (vf a) (pos a.leaf) (load a.addr ∷ [])
  unfolding vf
  vf-Stamps = read-Stamps (pos a.leaf) (load a.addr ∷ [])

  pub vfu-Stamps : Stamps (vfu a) a.tag (load a.addr ∷ load a.addr ∷ [])
  unfolding vfu
  vfu-Stamps = read-Stamps a.tag (load a.addr ∷ load a.addr ∷ [])

  module _ (b : Base) where
    pub dd-Stamps : Stamps (dd a b) (pos b.leaf) (load b.addr ∷ load a.addr ∷ [])
    unfolding dd
    dd-Stamps =
        emit-Stamps (dd_with b a) (pos b.leaf) (load b.addr ∷ []) (load a.addr ∷ [])
          (read-Stamps (pos b.leaf) (load b.addr ∷ []))

    pub ddu-Stamps :
        Stamps
          (ddu a b)
          (b.tag +ℤ a.tag)
          (load a.addr ∷ load b.addr ∷ load b.addr ∷ load a.addr ∷ [])
    unfolding ddu
    ddu-Stamps =
        emit-Stamps (dd_withu b a) (b.tag +ℤ a.tag) (load a.addr ∷ load b.addr ∷ load b.addr ∷ [])
          (load a.addr ∷ [])
          (read-Stamps (b.tag +ℤ a.tag) (load a.addr ∷ load b.addr ∷ load b.addr ∷ []))

module _ {R : InplaceRegistry} (a : IBase R) where
  pub itouch-Stamps : Stamps (itouch a) a.tag (load a.addr ∷ [])
  unfolding itouch
  itouch-Stamps = read-Stamps a.tag (load a.addr ∷ [])

  pub ivf-Stamps : Stamps (ivf a) (pos a.leaf) (load a.addr ∷ [])
  unfolding ivf
  ivf-Stamps = read-Stamps (pos a.leaf) (load a.addr ∷ [])

  pub ivfu-Stamps : Stamps (ivfu a) a.tag (load a.addr ∷ load a.addr ∷ [])
  unfolding ivfu
  ivfu-Stamps = read-Stamps a.tag (load a.addr ∷ load a.addr ∷ [])

  module _ (b : IBase R) where
    pub idd-Stamps : Stamps (idd a b) (pos b.leaf) (load b.addr ∷ load a.addr ∷ [])
    unfolding idd
    idd-Stamps =
        emit-Stamps (idd_with b a) (pos b.leaf) (load b.addr ∷ []) (load a.addr ∷ [])
          (read-Stamps (pos b.leaf) (load b.addr ∷ []))

    pub iddu-Stamps :
        Stamps
          (iddu a b)
          (b.tag +ℤ a.tag)
          (load a.addr ∷ load b.addr ∷ load b.addr ∷ load a.addr ∷ [])
    unfolding iddu
    iddu-Stamps =
        emit-Stamps (idd_withu b a) (b.tag +ℤ a.tag) (load a.addr ∷ load b.addr ∷ load b.addr ∷ [])
          (load a.addr ∷ [])
          (read-Stamps (b.tag +ℤ a.tag) (load a.addr ∷ load b.addr ∷ load b.addr ∷ []))
