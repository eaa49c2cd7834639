-- ===== src/Variants/Sound/Inplace.antt =====
-- src/main.cpp: the variants on the inplace hierarchies are sound.
use boost_openmethod_benchma.Common.{ℕ, ◌≡◌, refl, some, [], ◌∷◌, get_elem?, inl, inr, arith}
use boost_openmethod_benchma.Common.Int.{pos, ◌+ℤ◌}
use boost_openmethod_benchma.Machine.{load}
use boost_openmethod_benchma.Library.{InplaceRegistry}
use boost_openmethod_benchma.Hierarchy.Inplace.{IBase, itouch}
use boost_openmethod_benchma.Hierarchy.Calls.{
  itouch-Stamps, ivf-Stamps, ivfu-Stamps, idd-Stamps, iddu-Stamps,
}
use boost_openmethod_benchma.Timing.Stamp.{emit-Stamps, map_id-Stamps}
use boost_openmethod_benchma.Platform.{Platform}
use boost_openmethod_benchma.Env.{Env}
use boost_openmethod_benchma.OpenMethod.{IsDocumented, iclass_of}
use boost_openmethod_benchma.Registries.Outcomes.{IsIobject}
use boost_openmethod_benchma.Registries.InplaceCalls.{
  ipoke_ref-Stamps, ipokeu_ref-Stamps, icollide_ref-Stamps, icollideu_ref-Stamps,
}
use boost_openmethod_benchma.Verify.Oracle.{want2, wantu2}
use boost_openmethod_benchma.Variants.{both, ip_pop}
use boost_openmethod_benchma.Variants.Inplace.{
  v_ip_touch1, v_ip_touch2, v_ip_vf1, v_ip_vf2, v_ip_ref1, v_ip_ref2,
}
use boost_openmethod_benchma.Variants.InplaceUse.{v_ip_vfu1, v_ip_vfu2, v_ip_refu1, v_ip_refu2}
use boost_openmethod_benchma.Variants.Sound.{
  IsSound, IsRead-load, Starts-alone, Starts-before, Starts-pair, Starts-pair_before,
}
use Prim.Native.String.{String}

module _ (P : Platform) (doc : IsDocumented P.lib) (e : Env P) (i j : ℕ) where
  module _ (R : InplaceRegistry) (oa ob : IBase R)
      (at_i : get_elem? (ip_pop P R e).ptrs i ≡ some oa)
      (at_j : get_elem? (ip_pop P R e).ptrs j ≡ some ob) (ka : IsIobject P.num_classes oa)
      (kb : IsIobject P.num_classes ob) where
    pair_at :
        both (get_elem? (ip_pop P R e).ptrs i) (get_elem? (ip_pop P R e).ptrs j) ≡ some (oa, ob)
    pair_at = rw (at_i, at_j)

    pub v_ip_touch1-IsSound : (hier : String) → IsSound (v_ip_touch1 P R hier) e i j oa.addr ob.addr
    v_ip_touch1-IsSound hier = record {
      args = oa;
      prepared = at_i;
      id = oa.tag;
      reads = load oa.addr ∷ [];
      stamps = itouch-Stamps oa;
      only_reads = (IsRead-load oa.addr, tt);
      touches = λ _. (inl refl, λ e. absurd (omega arith));
      untouched = λ e. cc;
      evicts = λ _. (
        Starts-alone oa.addr P.memory.sizeof_ibase (P.memory.ivtbl R (iclass_of oa)),
        λ e. absurd (omega arith),
      );
    }

    pub v_ip_touch2-IsSound : (hier : String) → IsSound (v_ip_touch2 P R hier) e i j oa.addr ob.addr
    v_ip_touch2-IsSound hier = record {
      args = (oa, ob);
      prepared = pair_at;
      id = ob.tag +ℤ oa.tag;
      reads = load ob.addr ∷ load oa.addr ∷ [];
      stamps = emit-Stamps _ (ob.tag +ℤ oa.tag) (load ob.addr ∷ []) (load oa.addr ∷ []) (
          map_id-Stamps (itouch ob) (λ z. z +ℤ oa.tag) ob.tag (load ob.addr ∷ [])
            (itouch-Stamps ob));
      only_reads = (IsRead-load ob.addr, (IsRead-load oa.addr, tt));
      touches = λ _. (inr (inl refl), λ e. inl refl);
      untouched = λ e. cc;
      evicts = λ _.
          let (first, second) =
            Starts-pair oa.addr ob.addr P.memory.sizeof_ibase (P.memory.ivtbl R (iclass_of oa))
              (P.memory.ivtbl R (iclass_of ob)) in
          (first, λ e. second);
    }

    pub v_ip_vf1-IsSound : (hier : String) → IsSound (v_ip_vf1 P R hier) e i j oa.addr ob.addr
    v_ip_vf1-IsSound hier = record {
      args = oa;
      prepared = at_i;
      id = pos oa.leaf;
      reads = load oa.addr ∷ [];
      stamps = ivf-Stamps oa;
      only_reads = (IsRead-load oa.addr, tt);
      touches = λ _. (inl refl, λ e. absurd (omega arith));
      untouched = λ e. cc;
      evicts = λ _. (
        Starts-alone oa.addr P.memory.sizeof_ibase (P.memory.ivtbl R (iclass_of oa)),
        λ e. absurd (omega arith),
      );
    }

    pub v_ip_vf2-IsSound : (hier : String) → IsSound (v_ip_vf2 P R hier) e i j oa.addr ob.addr
    v_ip_vf2-IsSound hier = record {
      args = (oa, ob);
      prepared = pair_at;
      id = pos ob.leaf;
      reads = load ob.addr ∷ load oa.addr ∷ [];
      stamps = idd-Stamps oa ob;
      only_reads = (IsRead-load ob.addr, (IsRead-load oa.addr, tt));
      touches = λ _. (inr (inl refl), λ e. inl refl);
      untouched = λ e. cc;
      evicts = λ _.
          let (first, second) =
            Starts-pair oa.addr ob.addr P.memory.sizeof_ibase (P.memory.ivtbl R (iclass_of oa))
              (P.memory.ivtbl R (iclass_of ob)) in
          (first, λ e. second);
    }

    pub v_ip_vfu1-IsSound : (hier : String) → IsSound (v_ip_vfu1 P R hier) e i j oa.addr ob.addr
    v_ip_vfu1-IsSound hier = record {
      args = oa;
      prepared = at_i;
      id = oa.tag;
      reads = load oa.addr ∷ load oa.addr ∷ [];
      stamps = ivfu-Stamps oa;
      only_reads = (IsRead-load oa.addr, (IsRead-load oa.addr, tt));
      touches = λ _. (inl refl, λ e. absurd (omega arith));
      untouched = λ e. cc;
      evicts = λ _. (
        Starts-alone oa.addr P.memory.sizeof_ibase (P.memory.ivtbl R (iclass_of oa)),
        λ e. absurd (omega arith),
      );
    }

    pub v_ip_vfu2-IsSound : (hier : String) → IsSound (v_ip_vfu2 P R hier) e i j oa.addr ob.addr
    v_ip_vfu2-IsSound hier = record {
      args = (oa, ob);
      prepared = pair_at;
      id = ob.tag +ℤ oa.tag;
      reads = load oa.addr ∷ load ob.addr ∷ load ob.addr ∷ load oa.addr ∷ [];
      stamps = iddu-Stamps oa ob;
      only_reads = (
        IsRead-load oa.addr,
        (IsRead-load ob.addr, (IsRead-load ob.addr, (IsRead-load oa.addr, tt))),
      );
      touches = λ _. (inl refl, λ e. inr (inl refl));
      untouched = λ e. cc;
      evicts = λ _.
          let (first, second) =
            Starts-pair oa.addr ob.addr P.memory.sizeof_ibase (P.memory.ivtbl R (iclass_of oa))
              (P.memory.ivtbl R (iclass_of ob)) in
          (first, λ e. second);
    }

    pub v_ip_ref1-IsSound :
        (group hier : String) → IsSound (v_ip_ref1 P R group hier) e i j oa.addr ob.addr
    v_ip_ref1-IsSound group hier = record {
      args = oa;
      prepared = at_i;
      id = oa.tag;
      reads = P.lib.iref_reads R (oa ∷ []);
      stamps = ipoke_ref-Stamps P.lib doc P.num_classes oa ka;
      only_reads = doc.iref_reads-IsRead R (oa ∷ []);
      touches = λ _. ((doc.iref_reads-loads R (oa ∷ [])).0, λ e. absurd (omega arith));
      untouched = λ e. cc;
      evicts = λ _. (
        Starts-before oa.addr P.memory.sizeof_ibase (P.memory.ivtbl R (iclass_of oa)) _,
        λ e. absurd (omega arith),
      );
    }

    pub v_ip_ref2-IsSound :
        (group hier : String) → IsSound (v_ip_ref2 P R group hier) e i j oa.addr ob.addr
    v_ip_ref2-IsSound group hier = record {
      args = (oa, ob);
      prepared = pair_at;
      id = want2 oa.tag ob.tag;
      reads = P.lib.iref_reads R (oa ∷ ob ∷ []);
      stamps = icollide_ref-Stamps P.lib doc P.num_classes oa ob ka kb;
      only_reads = doc.iref_reads-IsRead R (oa ∷ ob ∷ []);
      touches = λ _. (
        (doc.iref_reads-loads R (oa ∷ ob ∷ [])).0,
        λ e. (doc.iref_reads-loads R (oa ∷ ob ∷ [])).1.0,
      );
      untouched = λ e. cc;
      evicts = λ _.
          let (first, second) =
            Starts-pair_before oa.addr ob.addr P.memory.sizeof_ibase
              (P.memory.ivtbl R (iclass_of oa)) (P.memory.ivtbl R (iclass_of ob)) _ in
          (first, λ e. second);
    }

    pub v_ip_refu1-IsSound :
        (group hier : String) → IsSound (v_ip_refu1 P R group hier) e i j oa.addr ob.addr
    v_ip_refu1-IsSound group hier = record {
      args = oa;
      prepared = at_i;
      id = oa.tag;
      reads = load oa.addr ∷ P.lib.iref_reads R (oa ∷ []);
      stamps = ipokeu_ref-Stamps P.lib doc P.num_classes oa ka;
      only_reads = (IsRead-load oa.addr, doc.iref_reads-IsRead R (oa ∷ []));
      touches = λ _. (inl refl, λ e. absurd (omega arith));
      untouched = λ e. cc;
      evicts = λ _. (
        Starts-before oa.addr P.memory.sizeof_ibase (P.memory.ivtbl R (iclass_of oa)) _,
        λ e. absurd (omega arith),
      );
    }

    pub v_ip_refu2-IsSound :
        (group hier : String) → IsSound (v_ip_refu2 P R group hier) e i j oa.addr ob.addr
    v_ip_refu2-IsSound group hier = record {
      args = (oa, ob);
      prepared = pair_at;
      id = wantu2 oa.tag ob.tag;
      reads = load ob.addr ∷ load oa.addr ∷ P.lib.iref_reads R (oa ∷ ob ∷ []);
      stamps = icollideu_ref-Stamps P.lib doc P.num_classes oa ob ka kb;
      only_reads =
          (IsRead-load ob.addr, (IsRead-load oa.addr, doc.iref_reads-IsRead R (oa ∷ ob ∷ [])));
      touches = λ _. (inr (inl refl), λ e. inl refl);
      untouched = λ e. cc;
      evicts = λ _.
          let (first, second) =
            Starts-pair_before oa.addr ob.addr P.memory.sizeof_ibase
              (P.memory.ivtbl R (iclass_of oa)) (P.memory.ivtbl R (iclass_of ob)) _ in
          (first, λ e. second);
    }
