-- ===== src/Variants/Sound/Vptr.antt =====
-- src/main.cpp: the variants that take virtual pointers are sound.
use boost_openmethod_benchma.Common.{
  ℕ, ◌≡◌, List, sym, ap, subst, some, [], ◌∷◌, get_elem?, All-map, inl, inr, arith,
}
use boost_openmethod_benchma.Machine.{load}
use boost_openmethod_benchma.Library.{MainRegistry}
use boost_openmethod_benchma.Hierarchy.{Base}
use boost_openmethod_benchma.Timing.Flush.{Region}
use boost_openmethod_benchma.Platform.{Platform}
use boost_openmethod_benchma.Env.{Env}
use boost_openmethod_benchma.OpenMethod.{IsDocumented, class_of}
use boost_openmethod_benchma.Registries.Outcomes.{IsObject}
use boost_openmethod_benchma.Registries.Calls.{
  poke_vp-Stamps, pokeu_vp-Stamps, collide_vp-Stamps, collideu_vp-Stamps,
}
use boost_openmethod_benchma.Verify.Oracle.{want2, wantu2}
use boost_openmethod_benchma.Variants.{vp_array}
use boost_openmethod_benchma.Variants.Const.{v_om_vp1, v_om_vp2}
use boost_openmethod_benchma.Variants.Use.{v_om_vpu1, v_om_vpu2}
use boost_openmethod_benchma.Variants.Sound.{
  IsSound, IsRead-load, IsRead-of_table, Starts, Starts-before, Starts-pair_before,
}
use Prim.Native.String.{String}

module _ (P : Platform) (doc : IsDocumented P.lib) (e : Env P) (i j : ℕ) (oa ob : Base) where
  module _ (R : MainRegistry) (group : String) (ka : IsObject P.num_classes oa)
      (kb : IsObject P.num_classes ob) where
    -- the object behind a virtual pointer to an object
    abbrev to : Base → Base
    to o = P.lib.get R (P.lib.virtual_ptr R o)

    in_terms_of : {o o' : Base} (rs : List Region) → o ≡ o' → Starts o.addr rs → Starts o'.addr rs
    in_terms_of rs e = subst (λ (x : Base). Starts x.addr rs) e

    to_a : P.lib.get R (P.lib.virtual_ptr R oa) ≡ oa
    to_a = doc.get-virtual_ptr R oa

    to_b : P.lib.get R (P.lib.virtual_ptr R ob) ≡ ob
    to_b = doc.get-virtual_ptr R ob

    of_a : IsObject P.num_classes (P.lib.get R (P.lib.virtual_ptr R oa))
    of_a = subst (IsObject P.num_classes) (sym to_a) ka

    of_b : IsObject P.num_classes (P.lib.get R (P.lib.virtual_ptr R ob))
    of_b = subst (IsObject P.num_classes) (sym to_b) kb

    pub v_om_vp1-IsSound :
        get_elem? (vp_array P R e) i ≡ some (P.lib.virtual_ptr R oa)
        → IsSound (v_om_vp1 P R group) e i j oa.addr ob.addr
    v_om_vp1-IsSound at_i = record {
      args = P.lib.virtual_ptr R oa;
      prepared = at_i;
      id = (P.lib.get R (P.lib.virtual_ptr R oa)).tag;
      reads = P.lib.vp_reads R ((P.lib.virtual_ptr R oa) ∷ []);
      stamps = poke_vp-Stamps P.lib doc P.num_classes R (P.lib.virtual_ptr R oa) of_a;
      only_reads =
          All-map IsRead-of_table (P.lib.vp_reads R ((P.lib.virtual_ptr R oa) ∷ []))
            (doc.vp_reads-IsTable R ((P.lib.virtual_ptr R oa) ∷ []));
      touches = λ e. cc;
      untouched = λ _. doc.vp_reads-IsTable R ((P.lib.virtual_ptr R oa) ∷ []);
      evicts = λ e. cc;
    }

    pub v_om_vp2-IsSound :
        get_elem? (vp_array P R e) i ≡ some (P.lib.virtual_ptr R oa)
        → get_elem? (vp_array P R e) j ≡ some (P.lib.virtual_ptr R ob)
        → IsSound (v_om_vp2 P R group) e i j oa.addr ob.addr
    v_om_vp2-IsSound at_i at_j = record {
      args = (P.lib.virtual_ptr R oa, P.lib.virtual_ptr R ob);
      prepared = rw (at_i, at_j);
      id =
          want2 (P.lib.get R (P.lib.virtual_ptr R oa)).tag
            (P.lib.get R (P.lib.virtual_ptr R ob)).tag;
      reads = P.lib.vp_reads R ((P.lib.virtual_ptr R oa) ∷ (P.lib.virtual_ptr R ob) ∷ []);
      stamps =
          collide_vp-Stamps P.lib doc P.num_classes R (P.lib.virtual_ptr R oa) of_a
            (P.lib.virtual_ptr R ob) of_b;
      only_reads =
          All-map IsRead-of_table
            (P.lib.vp_reads R ((P.lib.virtual_ptr R oa) ∷ (P.lib.virtual_ptr R ob) ∷ []))
            (doc.vp_reads-IsTable R ((P.lib.virtual_ptr R oa) ∷ (P.lib.virtual_ptr R ob) ∷ []));
      touches = λ e. cc;
      untouched =
          λ _. doc.vp_reads-IsTable R ((P.lib.virtual_ptr R oa) ∷ (P.lib.virtual_ptr R ob) ∷ []);
      evicts = λ e. cc;
    }

    pub v_om_vpu1-IsSound :
        get_elem? (vp_array P R e) i ≡ some (P.lib.virtual_ptr R oa)
        → IsSound (v_om_vpu1 P R group) e i j oa.addr ob.addr
    v_om_vpu1-IsSound at_i = record {
      args = P.lib.virtual_ptr R oa;
      prepared = at_i;
      id = (P.lib.get R (P.lib.virtual_ptr R oa)).tag;
      reads =
          load (P.lib.get R (P.lib.virtual_ptr R oa)).addr
          ∷ P.lib.vp_reads R ((P.lib.virtual_ptr R oa) ∷ []);
      stamps = pokeu_vp-Stamps P.lib doc P.num_classes R (P.lib.virtual_ptr R oa) of_a;
      only_reads = (
        IsRead-load _,
        All-map IsRead-of_table (P.lib.vp_reads R ((P.lib.virtual_ptr R oa) ∷ []))
            (doc.vp_reads-IsTable R ((P.lib.virtual_ptr R oa) ∷ [])),
      );
      touches = λ _. (inl (ap (λ (o : Base). load o.addr) to_a), λ e. absurd (omega arith));
      untouched = λ e. cc;
      evicts = λ _. (
        in_terms_of _ to_a
            (Starts-before (to oa).addr P.memory.sizeof_base (P.memory.vtbl (class_of (to oa))) _),
        λ e. absurd (omega arith),
      );
    }

    pub v_om_vpu2-IsSound :
        get_elem? (vp_array P R e) i ≡ some (P.lib.virtual_ptr R oa)
        → get_elem? (vp_array P R e) j ≡ some (P.lib.virtual_ptr R ob)
        → IsSound (v_om_vpu2 P R group) e i j oa.addr ob.addr
    v_om_vpu2-IsSound at_i at_j = record {
      args = (P.lib.virtual_ptr R oa, P.lib.virtual_ptr R ob);
      prepared = rw (at_i, at_j);
      id =
          wantu2 (P.lib.get R (P.lib.virtual_ptr R oa)).tag
            (P.lib.get R (P.lib.virtual_ptr R ob)).tag;
      reads =
          load (P.lib.get R (P.lib.virtual_ptr R ob)).addr
          ∷ load (P.lib.get R (P.lib.virtual_ptr R oa)).addr
          ∷ P.lib.vp_reads R ((P.lib.virtual_ptr R oa) ∷ (P.lib.virtual_ptr R ob) ∷ []);
      stamps =
          collideu_vp-Stamps P.lib doc P.num_classes R (P.lib.virtual_ptr R oa) of_a
            (P.lib.virtual_ptr R ob) of_b;
      only_reads = (
        IsRead-load _,
        (
          IsRead-load _,
          All-map IsRead-of_table
              (P.lib.vp_reads R ((P.lib.virtual_ptr R oa) ∷ (P.lib.virtual_ptr R ob) ∷ []))
              (doc.vp_reads-IsTable R ((P.lib.virtual_ptr R oa) ∷ (P.lib.virtual_ptr R ob) ∷ [])),
        ),
      );
      touches = λ _. (
        inr (inl (ap (λ (o : Base). load o.addr) to_a)),
        λ e. inl (ap (λ (o : Base). load o.addr) to_b),
      );
      untouched = λ e. cc;
      evicts = λ _.
          let (first, second) =
            Starts-pair_before (to oa).addr (to ob).addr P.memory.sizeof_base
              (P.memory.vtbl (class_of (to oa))) (P.memory.vtbl (class_of (to ob))) _ in
          (in_terms_of _ to_a first, λ e. in_terms_of _ to_b second);
    }
