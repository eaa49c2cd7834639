-- ===== src/Verify/MainChecks.antt =====
-- src/main.cpp, `verify`: the checks on the main hierarchy pass.
use boost_openmethod_benchma.Common.{
  ℕ, ◌≡◌, sym, ap, subst, ◌∙◌, some, List, [], ◌∷◌, get_elem?, All,
}
use boost_openmethod_benchma.Common.Int.{ℤ, +ℤ_comm}
use boost_openmethod_benchma.Machine.{Event, M, lift, load, >>=_run}
use boost_openmethod_benchma.Library.{
  MainRegistry, vector_registry, map_registry, flat_registry, indirect_registry,
}
use boost_openmethod_benchma.Registries.{poke_ref, poke_vp, collide_ref, collide_vp}
use boost_openmethod_benchma.UseMethods.{pokeu_ref, pokeu_vp, collideu_ref, collideu_vp}
use boost_openmethod_benchma.Hierarchy.{Base}
use boost_openmethod_benchma.Hierarchy.Calls.{
  touch-Stamps, vf-Stamps, vfu-Stamps, dd-Stamps, ddu-Stamps,
}
use boost_openmethod_benchma.Timing.Tsc.{StampId}
use boost_openmethod_benchma.Timing.Stamp.{Stamps}
use boost_openmethod_benchma.Platform.{Platform}
use boost_openmethod_benchma.Env.{Env}
use boost_openmethod_benchma.Env.WellFormed.{IsWellFormed}
use boost_openmethod_benchma.OpenMethod.{IsDocumented}
use boost_openmethod_benchma.Registries.Outcomes.{IsObject, retag}
use boost_openmethod_benchma.Registries.Calls.{
  poke_ref-Stamps, collide_ref-Stamps, pokeu_ref-Stamps, collideu_ref-Stamps, poke_vp-Stamps,
  collide_vp-Stamps, pokeu_vp-Stamps, collideu_vp-Stamps,
}
use boost_openmethod_benchma.Variants.{vp_array}
use boost_openmethod_benchma.Variants.Sound.{get-vp_array}
use boost_openmethod_benchma.Verify.Oracle.{want2, wantu2}
use boost_openmethod_benchma.Verify.Checks.{main_checks, on_vp}
use boost_openmethod_benchma.Verify.Laws.{Passes}

-- one fact for each main registry, in front of others
in_each :
    {T : MainRegistry → Type 0} {Rest : Type 0}
    → ((R : MainRegistry) → T R)
    → Rest
    → T vector_registry × (T map_registry × (T flat_registry × (T indirect_registry × Rest)))
in_each f rest =
    (f vector_registry, (f map_registry, (f flat_registry, (f indirect_registry, rest))))

module _ (P : Platform) (doc : IsDocumented P.lib) where
  -- a call on the element at a position of a registry's array
  on_vp-Stamps :
      (R : MainRegistry) (e : Env P) (i : ℕ) (p : P.lib.VirtualPtr R)
      (f : P.lib.VirtualPtr R → M StampId) (id : ℤ) (es : List Event)
      → get_elem? (vp_array P R e) i ≡ some p
      → Stamps (f p) id es
      → Stamps (on_vp P R e i f) id es
  on_vp-Stamps R e i p f id es h s w =
      >>=_run (lift (get_elem? (vp_array P R e) i)) f {w = w} {w' = w} {a = p}
        (ap (λ o. lift o w) h)
      ∙ s w

  module _ (n : ℕ) (e : Env P) (wf : IsWellFormed P n e) (i j : ℕ) (a b : Base)
      (at_i : get_elem? e.ptrs i ≡ some a) (at_j : get_elem? e.ptrs j ≡ some b)
      (ka : IsObject P.num_classes a) (kb : IsObject P.num_classes b) where
    abbrev vp : (R : MainRegistry) → Base → P.lib.VirtualPtr R
    vp R o = P.lib.virtual_ptr R o

    got :
        (R : MainRegistry) (o : Base)
        → IsObject P.num_classes o
        → IsObject P.num_classes (P.lib.get R (vp R o))
    got R o k = subst (IsObject P.num_classes) (sym (doc.get-virtual_ptr R o)) k

    tag_of : (R : MainRegistry) (o : Base) → Base.tag (P.lib.get R (vp R o)) ≡ o.tag
    tag_of R o = ap Base.tag (doc.get-virtual_ptr R o)

    at_vp :
        (R : MainRegistry) (k : ℕ) (o : Base)
        → get_elem? e.ptrs k ≡ some o
        → get_elem? (vp_array P R e) k ≡ some (vp R o)
    at_vp R k o h = get-vp_array P n e R k wf h

    vp1_lem :
        (R : MainRegistry)
        → Stamps
            (on_vp P R e i (λ p. poke_vp P.lib P.num_classes R p))
            a.tag
            (P.lib.vp_reads R (vp R a ∷ []))
    vp1_lem R =
        on_vp-Stamps R e i (vp R a) _ _ _ (at_vp R i a at_i)
          (retag _ _ (tag_of R a) (poke_vp-Stamps P.lib doc P.num_classes R (vp R a) (got R a ka)))

    vpu1_lem :
        (R : MainRegistry)
        → Stamps
            (on_vp P R e i (λ p. pokeu_vp P.lib P.num_classes R p))
            a.tag
            (load (P.lib.get R (vp R a)).addr ∷ P.lib.vp_reads R (vp R a ∷ []))
    vpu1_lem R =
        on_vp-Stamps R e i (vp R a) _ _
          (load (P.lib.get R (vp R a)).addr ∷ P.lib.vp_reads R (vp R a ∷ [])) (at_vp R i a at_i)
          (retag _ (load (P.lib.get R (vp R a)).addr ∷ P.lib.vp_reads R (vp R a ∷ [])) (tag_of R a)
            (pokeu_vp-Stamps P.lib doc P.num_classes R (vp R a) (got R a ka)))

    on_two-Stamps :
        (R : MainRegistry) (f : P.lib.VirtualPtr R → P.lib.VirtualPtr R → M StampId) (id : ℤ)
        (es : List Event)
        → Stamps (f (vp R a) (vp R b)) id es
        → Stamps (on_vp P R e i (λ p. on_vp P R e j (λ q. f p q))) id es
    on_two-Stamps R f id es s =
        on_vp-Stamps R e i (vp R a) _ id es (at_vp R i a at_i)
          (on_vp-Stamps R e j (vp R b) (f (vp R a)) id es (at_vp R j b at_j) s)

    vp2_lem :
        (R : MainRegistry)
        → Stamps
            (on_vp P R e i (λ p. on_vp P R e j (λ q. collide_vp P.lib P.num_classes R p q)))
            (want2 a.tag b.tag)
            (P.lib.vp_reads R (vp R a ∷ vp R b ∷ []))
    vp2_lem R = on_two-Stamps R (collide_vp P.lib P.num_classes R) _ _ (
        retag _ _ (rw (tag_of R a, tag_of R b))
          (collide_vp-Stamps P.lib doc P.num_classes R (vp R a) (got R a ka) (vp R b) (got R b kb)))

    vpu2_lem :
        (R : MainRegistry)
        → Stamps
            (on_vp P R e i (λ p. on_vp P R e j (λ q. collideu_vp P.lib P.num_classes R p q)))
            (wantu2 a.tag b.tag)
            (load (P.lib.get R (vp R b)).addr
              ∷ load (P.lib.get R (vp R a)).addr
              ∷ P.lib.vp_reads R (vp R a ∷ vp R b ∷ []))
    vpu2_lem R =
        on_two-Stamps R (collideu_vp P.lib P.num_classes R) _
          (load (P.lib.get R (vp R b)).addr
            ∷ load (P.lib.get R (vp R a)).addr
            ∷ P.lib.vp_reads R (vp R a ∷ vp R b ∷ []))
          (retag _
            (load (P.lib.get R (vp R b)).addr
              ∷ load (P.lib.get R (vp R a)).addr
              ∷ P.lib.vp_reads R (vp R a ∷ vp R b ∷ []))
            (rw (tag_of R a, tag_of R b))
            (collideu_vp-Stamps P.lib doc P.num_classes R (vp R a) (got R a ka) (vp R b)
              (got R b kb)))

    -- the calls in each registry, by reference and by `virtual_ptr`
    abbrev Returns : M StampId → ℤ → Type 0
    Returns m id = (es : List Event) × Stamps m id es

    ref1 : (R : MainRegistry) → Returns (poke_ref P.lib P.num_classes R a) a.tag
    ref1 R = (_, poke_ref-Stamps P.lib doc P.num_classes R a ka)

    vp1 : (R : MainRegistry) → Returns (on_vp P R e i (λ p. poke_vp P.lib P.num_classes R p)) a.tag
    vp1 R = (P.lib.vp_reads R (vp R a ∷ []), vp1_lem R)

    ref2 : (R : MainRegistry) → Returns (collide_ref P.lib P.num_classes R a b) (want2 a.tag b.tag)
    ref2 R = (_, collide_ref-Stamps P.lib doc P.num_classes R a b ka kb)

    vp2 :
        (R : MainRegistry)
        → Returns
            (on_vp P R e i (λ p. on_vp P R e j (λ q. collide_vp P.lib P.num_classes R p q)))
            (want2 a.tag b.tag)
    vp2 R = (P.lib.vp_reads R (vp R a ∷ vp R b ∷ []), vp2_lem R)

    refu1 : (R : MainRegistry) → Returns (pokeu_ref P.lib P.num_classes R a) a.tag
    refu1 R =
        (load a.addr ∷ P.lib.ref_reads R (a ∷ []), pokeu_ref-Stamps P.lib doc P.num_classes R a ka)

    vpu1 :
        (R : MainRegistry) → Returns (on_vp P R e i (λ p. pokeu_vp P.lib P.num_classes R p)) a.tag
    vpu1 R = (load (P.lib.get R (vp R a)).addr ∷ P.lib.vp_reads R (vp R a ∷ []), vpu1_lem R)

    refu2 :
        (R : MainRegistry) → Returns (collideu_ref P.lib P.num_classes R a b) (wantu2 a.tag b.tag)
    refu2 R = (
      load b.addr ∷ load a.addr ∷ P.lib.ref_reads R (a ∷ b ∷ []),
      collideu_ref-Stamps P.lib doc P.num_classes R a b ka kb,
    )

    vpu2 :
        (R : MainRegistry)
        → Returns
            (on_vp P R e i (λ p. on_vp P R e j (λ q. collideu_vp P.lib P.num_classes R p q)))
            (wantu2 a.tag b.tag)
    vpu2 R = (
      load (P.lib.get R (vp R b)).addr
          ∷ load (P.lib.get R (vp R a)).addr
          ∷ P.lib.vp_reads R (vp R a ∷ vp R b ∷ []),
      vpu2_lem R,
    )

    pub main_checks-Passes : All Passes (main_checks P e i j a b)
    unfolding main_checks
    main_checks-Passes = (
      (load a.addr ∷ [], retag _ (load a.addr ∷ []) (sym ka.tagged) (vf-Stamps a)),
      (
        (load a.addr ∷ load a.addr ∷ [], vfu-Stamps a),
        (
          (
            load b.addr ∷ load a.addr ∷ [],
            retag _ (load b.addr ∷ load a.addr ∷ []) (sym kb.tagged) (dd-Stamps a b),
          ),
          (
            (
              load a.addr ∷ load b.addr ∷ load b.addr ∷ load a.addr ∷ [],
              retag _ (load a.addr ∷ load b.addr ∷ load b.addr ∷ load a.addr ∷ [])
                  (+ℤ_comm b.tag a.tag) (ddu-Stamps a b),
            ),
            (
              (load a.addr ∷ [], touch-Stamps a),
              in_each ref1 (
                  in_each vp1 (
                    in_each ref2 (
                      in_each vp2
                        (in_each refu1 (in_each vpu1 (in_each refu2 (in_each vpu2 tt))))))),
            ),
          ),
        ),
      ),
    )
