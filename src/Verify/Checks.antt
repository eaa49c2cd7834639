-- ===== src/Verify/Checks.antt =====
-- src/main.cpp, `verify`: the calls that it makes for one pair of objects, each with the id that it
-- wants.
use Prim.Native.String.{String}
use boost_openmethod_benchma.Common.{ℕ, List, [], ◌∷◌, ◌++◌, get_elem?}
use boost_openmethod_benchma.Common.Int.{ℤ, ◌+ℤ◌}
use boost_openmethod_benchma.Machine.{M, ◌>>=◌, lift}
use boost_openmethod_benchma.Library.{
  MainRegistry, vector_registry, map_registry, flat_registry, indirect_registry, InplaceRegistry,
}
use boost_openmethod_benchma.Hierarchy.{Base, touch, vf, vfu, dd, ddu}
use boost_openmethod_benchma.Hierarchy.Inplace.{IBase, itouch, ivf, ivfu, idd, iddu}
use boost_openmethod_benchma.Timing.Tsc.{StampId}
use boost_openmethod_benchma.Platform.{Platform}
use boost_openmethod_benchma.Env.{Env}
use boost_openmethod_benchma.Registries.{poke_ref, poke_vp, collide_ref, collide_vp}
use boost_openmethod_benchma.Registries.Inplace.{ipoke_ref, icollide_ref, ipokeu_ref, icollideu_ref}
use boost_openmethod_benchma.UseMethods.{pokeu_ref, pokeu_vp, collideu_ref, collideu_vp}
use boost_openmethod_benchma.Variants.{vp_array}
use boost_openmethod_benchma.Verify.Oracle.{want2, wantu2}

-- `check` and `check_t`, with the call that yields `got`. The name is in two parts.
pub record Check : Type 0 where
  pub what : String × String
  pub call : M StampId
  pub want : ℤ

-- One check for each main registry, in the order of the source.
abbrev pub four : (String × MainRegistry → Check) → List Check
four f =
    f ("vec", vector_registry)
    ∷ f ("map", map_registry)
    ∷ f ("flat", flat_registry)
    ∷ f ("ind", indirect_registry)
    ∷ []

module _ (P : Platform) where
  open P use {lib, num_classes}

  -- a call on one element, or two, of a registry's array of virtual pointers
  abbrev pub on_vp : (R : MainRegistry) → Env P → ℕ → (lib.VirtualPtr R → M StampId) → M StampId
  on_vp R e i f = lift (get_elem? (vp_array P R e) i) >>= f

  -- `checks`, in the loops over the main hierarchy
  unfoldable pub main_checks : Env P → (i j : ℕ) → (a b : Base) → List Check
  main_checks e i j a b =
      let want1 = a.tag in
      let wanted2 = want2 a.tag b.tag in
      let wantedu2 = wantu2 a.tag b.tag in
      (record { what = ("vf", "yardstick"); call = vf a; want = want1 }
        ∷ record { what = ("vfu", "yardstick"); call = vfu a; want = want1 }
        ∷ record { what = ("dd", "yardstick"); call = dd a b; want = b.tag }
        ∷ record { what = ("ddu", "yardstick"); call = ddu a b; want = a.tag +ℤ b.tag }
        ∷ record { what = ("touch", "baseline"); call = touch a; want = want1 }
        ∷ [])
      ++ (four (λ (s, R). record {
        what = (s, "ref1");
        call = poke_ref lib num_classes R a;
        want = want1;
      })
          ++ (four (λ (s, R). record {
            what = (s, "vp1");
            call = on_vp R e i (λ p. poke_vp lib num_classes R p);
            want = want1;
          })
              ++ (four (λ (s, R). record {
                what = (s, "ref2");
                call = collide_ref lib num_classes R a b;
                want = wanted2;
              })
                  ++ (four (λ (s, R). record {
                    what = (s, "vp2");
                    call = on_vp R e i (λ p. on_vp R e j (λ q. collide_vp lib num_classes R p q));
                    want = wanted2;
                  })
                      ++ (four (λ (s, R). record {
                        what = (s, "refu1");
                        call = pokeu_ref lib num_classes R a;
                        want = want1;
                      })
                          ++ (four (λ (s, R). record {
                            what = (s, "vpu1");
                            call = on_vp R e i (λ p. pokeu_vp lib num_classes R p);
                            want = want1;
                          })
                              ++ (four (λ (s, R). record {
                                what = (s, "refu2");
                                call = collideu_ref lib num_classes R a b;
                                want = wantedu2;
                              })
                                  ++ four (λ (s, R). record {
                                    what = (s, "vpu2");
                                    call =
                                        on_vp R e i (λ p.
                                          on_vp R e j (λ q. collideu_vp lib num_classes R p q));
                                    want = wantedu2;
                                  }))))))))

  -- `checks`, in `check_ip`
  unfoldable pub ip_checks : (R : InplaceRegistry) → String → (a b : IBase R) → List Check
  ip_checks R what a b =
      record { what = (what, "vf"); call = ivf a; want = a.tag }
      ∷ record { what = (what, "vfu"); call = ivfu a; want = a.tag }
      ∷ record { what = (what, "dd"); call = idd a b; want = b.tag }
      ∷ record { what = (what, "ddu"); call = iddu a b; want = a.tag +ℤ b.tag }
      ∷ record { what = (what, "touch"); call = itouch a; want = a.tag }
      ∷ record { what = (what, "ref1"); call = ipoke_ref lib num_classes R a; want = a.tag }
      ∷ record {
        what = (what, "ref2");
        call = icollide_ref lib num_classes R a b;
        want = want2 a.tag b.tag;
      }
      ∷ record { what = (what, "refu1"); call = ipokeu_ref lib num_classes R a; want = a.tag }
      ∷ record {
        what = (what, "refu2");
        call = icollideu_ref lib num_classes R a b;
        want = wantu2 a.tag b.tag;
      }
      ∷ []
