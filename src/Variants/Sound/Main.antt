-- ===== src/Variants/Sound/Main.antt =====
-- src/main.cpp: the variants that take references to objects of the main hierarchy are sound.
use boost_openmethod_benchma.Common.{ℕ, ◌≡◌, refl, some, [], ◌∷◌, get_elem?, inl, inr, arith}
use boost_openmethod_benchma.Common.Int.{pos, negsuc, ◌+ℤ◌}
use boost_openmethod_benchma.Machine.{load}
use boost_openmethod_benchma.Library.{MainRegistry}
use boost_openmethod_benchma.Hierarchy.{Base, touch}
use boost_openmethod_benchma.Hierarchy.Calls.{
  touch-Stamps, vf-Stamps, vfu-Stamps, dd-Stamps, ddu-Stamps,
}
use boost_openmethod_benchma.Timing.Stamp.{stamp-Stamps, emit-Stamps, map_id-Stamps}
use boost_openmethod_benchma.Platform.{Platform}
use boost_openmethod_benchma.Env.{Env}
use boost_openmethod_benchma.OpenMethod.{IsDocumented, class_of}
use boost_openmethod_benchma.Registries.Outcomes.{IsObject}
use boost_openmethod_benchma.Registries.Calls.{
  poke_ref-Stamps, collide_ref-Stamps, pokeu_ref-Stamps, collideu_ref-Stamps,
}
use boost_openmethod_benchma.Verify.Oracle.{want2, wantu2}
use boost_openmethod_benchma.Variants.{both, direct_probe}
use boost_openmethod_benchma.Variants.Baseline.{
  v_probe, v_direct, v_touch1, v_vf1, v_touch2, v_vf2, v_vfu1, v_vfu2,
}
use boost_openmethod_benchma.Variants.Const.{v_om_ref1, v_om_ref2}
use boost_openmethod_benchma.Variants.Use.{v_om_refu1, v_om_refu2}
use boost_openmethod_benchma.Variants.Sound.{
  IsSound, IsRead-load, Starts-alone, Starts-before, Starts-pair, Starts-pair_before,
}
use Prim.Native.String.{String}

module _ (P : Platform) (doc : IsDocumented P.lib) (e : Env P) (i j : ℕ) (oa ob : Base) where
  module _ (at_i : get_elem? e.ptrs i ≡ some oa) (at_j : get_elem? e.ptrs j ≡ some ob)
      (ka : IsObject P.num_classes oa) (kb : IsObject P.num_classes ob) where
    pair_at : both (get_elem? e.ptrs i) (get_elem? e.ptrs j) ≡ some (oa, ob)
    pair_at = rw (at_i, at_j)

    pub v_probe-IsSound : IsSound (v_probe P) e i j oa.addr ob.addr
    v_probe-IsSound = record {
      args = oa;
      prepared = at_i;
      id = negsuc 2;
      reads = [];
      stamps = stamp-Stamps (negsuc 2);
      only_reads = tt;
      touches = λ e. cc;
      untouched = λ _. tt;
      evicts = λ e. cc;
    }

    pub v_direct-IsSound : IsSound (v_direct P) e i j oa.addr ob.addr
    unfolding direct_probe
    v_direct-IsSound = record {
      args = oa;
      prepared = at_i;
      id = negsuc 1;
      reads = [];
      stamps = stamp-Stamps (negsuc 1);
      only_reads = tt;
      touches = λ e. cc;
      untouched = λ _. tt;
      evicts = λ e. cc;
    }

    pub v_touch1-IsSound : IsSound (v_touch1 P) e i j oa.addr ob.addr
    v_touch1-IsSound = record {
      args = oa;
      prepared = at_i;
      id = oa.tag;
      reads = load oa.addr ∷ [];
      stamps = touch-Stamps oa;
      only_reads = (IsRead-load oa.addr, tt);
      touches = λ _. (inl refl, λ e. absurd (omega arith));
      untouched = λ e. cc;
      evicts = λ _. (
        Starts-alone oa.addr P.memory.sizeof_base (P.memory.vtbl (class_of oa)),
        λ e. absurd (omega arith),
      );
    }

    pub v_vf1-IsSound : IsSound (v_vf1 P) e i j oa.addr ob.addr
    v_vf1-IsSound = record {
      args = oa;
      prepared = at_i;
      id = pos oa.leaf;
      reads = load oa.addr ∷ [];
      stamps = vf-Stamps oa;
      only_reads = (IsRead-load oa.addr, tt);
      touches = λ _. (inl refl, λ e. absurd (omega arith));
      untouched = λ e. cc;
      evicts = λ _. (
        Starts-alone oa.addr P.memory.sizeof_base (P.memory.vtbl (class_of oa)),
        λ e. absurd (omega arith),
      );
    }

    pub v_touch2-IsSound : IsSound (v_touch2 P) e i j oa.addr ob.addr
    v_touch2-IsSound = record {
      args = (oa, ob);
      prepared = pair_at;
      id = ob.tag +ℤ oa.tag;
      reads = load ob.addr ∷ load oa.addr ∷ [];
      stamps = emit-Stamps _ (ob.tag +ℤ oa.tag) (load ob.addr ∷ []) (load oa.addr ∷ []) (
          map_id-Stamps (touch ob) (λ z. z +ℤ oa.tag) ob.tag (load ob.addr ∷ []) (touch-Stamps ob));
      only_reads = (IsRead-load ob.addr, (IsRead-load oa.addr, tt));
      touches = λ _. (inr (inl refl), λ e. inl refl);
      untouched = λ e. cc;
      evicts = λ _.
          let (first, second) =
            Starts-pair oa.addr ob.addr P.memory.sizeof_base (P.memory.vtbl (class_of oa))
              (P.memory.vtbl (class_of ob)) in
          (first, λ e. second);
    }

    pub v_vf2-IsSound : IsSound (v_vf2 P) e i j oa.addr ob.addr
    v_vf2-IsSound = record {
      args = (oa, ob);
      prepared = pair_at;
      id = pos ob.leaf;
      reads = load ob.addr ∷ load oa.addr ∷ [];
      stamps = dd-Stamps oa ob;
      only_reads = (IsRead-load ob.addr, (IsRead-load oa.addr, tt));
      touches = λ _. (inr (inl refl), λ e. inl refl);
      untouched = λ e. cc;
      evicts = λ _.
          let (first, second) =
            Starts-pair oa.addr ob.addr P.memory.sizeof_base (P.memory.vtbl (class_of oa))
              (P.memory.vtbl (class_of ob)) in
          (first, λ e. second);
    }

    pub v_vfu1-IsSound : IsSound (v_vfu1 P) e i j oa.addr ob.addr
    v_vfu1-IsSound = record {
      args = oa;
      prepared = at_i;
      id = oa.tag;
      reads = load oa.addr ∷ load oa.addr ∷ [];
      stamps = vfu-Stamps oa;
      only_reads = (IsRead-load oa.addr, (IsRead-load oa.addr, tt));
      touches = λ _. (inl refl, λ e. absurd (omega arith));
      untouched = λ e. cc;
      evicts = λ _. (
        Starts-alone oa.addr P.memory.sizeof_base (P.memory.vtbl (class_of oa)),
        λ e. absurd (omega arith),
      );
    }

    pub v_vfu2-IsSound : IsSound (v_vfu2 P) e i j oa.addr ob.addr
    v_vfu2-IsSound = record {
      args = (oa, ob);
      prepared = pair_at;
      id = ob.tag +ℤ oa.tag;
      reads = load oa.addr ∷ load ob.addr ∷ load ob.addr ∷ load oa.addr ∷ [];
      stamps = ddu-Stamps oa ob;
      only_reads = (
        IsRead-load oa.addr,
        (IsRead-load ob.addr, (IsRead-load ob.addr, (IsRead-load oa.addr, tt))),
      );
      touches = λ _. (inl refl, λ e. inr (inl refl));
      untouched = λ e. cc;
      evicts = λ _.
          let (first, second) =
            Starts-pair oa.addr ob.addr P.memory.sizeof_base (P.memory.vtbl (class_of oa))
              (P.memory.vtbl (class_of ob)) in
          (first, λ e. second);
    }

    pub v_om_ref1-IsSound :
        (R : MainRegistry) (group : String) → IsSound (v_om_ref1 P R group) e i j oa.addr ob.addr
    v_om_ref1-IsSound R group = record {
      args = oa;
      prepared = at_i;
      id = oa.tag;
      reads = P.lib.ref_reads R (oa ∷ []);
      stamps = poke_ref-Stamps P.lib doc P.num_classes R oa ka;
      only_reads = doc.ref_reads-IsRead R (oa ∷ []);
      touches = λ _. ((doc.ref_reads-loads R (oa ∷ [])).0, λ e. absurd (omega arith));
      untouched = λ e. cc;
      evicts = λ _. (
        Starts-before oa.addr P.memory.sizeof_base (P.memory.vtbl (class_of oa)) _,
        λ e. absurd (omega arith),
      );
    }

    pub v_om_ref2-IsSound :
        (R : MainRegistry) (group : String) → IsSound (v_om_ref2 P R group) e i j oa.addr ob.addr
    v_om_ref2-IsSound R group = record {
      args = (oa, ob);
      prepared = pair_at;
      id = want2 oa.tag ob.tag;
      reads = P.lib.ref_reads R (oa ∷ ob ∷ []);
      stamps = collide_ref-Stamps P.lib doc P.num_classes R oa ob ka kb;
      only_reads = doc.ref_reads-IsRead R (oa ∷ ob ∷ []);
      touches = λ _. (
        (doc.ref_reads-loads R (oa ∷ ob ∷ [])).0,
        λ e. (doc.ref_reads-loads R (oa ∷ ob ∷ [])).1.0,
      );
      untouched = λ e. cc;
      evicts = λ _.
          let (first, second) =
            Starts-pair_before oa.addr ob.addr P.memory.sizeof_base (P.memory.vtbl (class_of oa))
              (P.memory.vtbl (class_of ob)) _ in
          (first, λ e. second);
    }

    pub v_om_refu1-IsSound :
        (R : MainRegistry) (group : String) → IsSound (v_om_refu1 P R group) e i j oa.addr ob.addr
    v_om_refu1-IsSound R group = record {
      args = oa;
      prepared = at_i;
      id = oa.tag;
      reads = load oa.addr ∷ P.lib.ref_reads R (oa ∷ []);
      stamps = pokeu_ref-Stamps P.lib doc P.num_classes R oa ka;
      only_reads = (IsRead-load oa.addr, doc.ref_reads-IsRead R (oa ∷ []));
      touches = λ _. (inl refl, λ e. absurd (omega arith));
      untouched = λ e. cc;
      evicts = λ _. (
        Starts-before oa.addr P.memory.sizeof_base (P.memory.vtbl (class_of oa)) _,
        λ e. absurd (omega arith),
      );
    }

    pub v_om_refu2-IsSound :
        (R : MainRegistry) (group : String) → IsSound (v_om_refu2 P R group) e i j oa.addr ob.addr
    v_om_refu2-IsSound R group = record {
      args = (oa, ob);
      prepared = pair_at;
      id = wantu2 oa.tag ob.tag;
      reads = load ob.addr ∷ load oa.addr ∷ P.lib.ref_reads R (oa ∷ ob ∷ []);
      stamps = collideu_ref-Stamps P.lib doc P.num_classes R oa ob ka kb;
      only_reads =
          (IsRead-load ob.addr, (IsRead-load oa.addr, doc.ref_reads-IsRead R (oa ∷ ob ∷ [])));
      touches = λ _. (inr (inl refl), λ e. inl refl);
      untouched = λ e. cc;
      evicts = λ _.
          let (first, second) =
            Starts-pair_before oa.addr ob.addr P.memory.sizeof_base (P.memory.vtbl (class_of oa))
              (P.memory.vtbl (class_of ob)) _ in
          (first, λ e. second);
    }
