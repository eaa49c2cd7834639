-- ===== src/Verify/InplaceChecks.antt =====
-- src/main.cpp, `verify`: the checks on the inplace hierarchies pass.
use Prim.Native.String.{String}
use boost_openmethod_benchma.Common.{sym, [], ◌∷◌, All}
use boost_openmethod_benchma.Common.Int.{+ℤ_comm}
use boost_openmethod_benchma.Machine.{load}
use boost_openmethod_benchma.Library.{InplaceRegistry}
use boost_openmethod_benchma.Hierarchy.Inplace.{IBase}
use boost_openmethod_benchma.Hierarchy.Calls.{
  itouch-Stamps, ivf-Stamps, ivfu-Stamps, idd-Stamps, iddu-Stamps,
}
use boost_openmethod_benchma.Platform.{Platform}
use boost_openmethod_benchma.OpenMethod.{IsDocumented}
use boost_openmethod_benchma.Registries.Outcomes.{IsIobject, retag}
use boost_openmethod_benchma.Registries.InplaceCalls.{
  ipoke_ref-Stamps, ipokeu_ref-Stamps, icollide_ref-Stamps, icollideu_ref-Stamps,
}
use boost_openmethod_benchma.Verify.Checks.{ip_checks}
use boost_openmethod_benchma.Verify.Laws.{Passes}

module _ (P : Platform) (doc : IsDocumented P.lib) where
  module _ (R : InplaceRegistry) (what : String) (a b : IBase R) (ka : IsIobject P.num_classes a)
      (kb : IsIobject P.num_classes b) where
    pub ip_checks-Passes : All Passes (ip_checks P R what a b)
    unfolding ip_checks
    ip_checks-Passes = (
      ((load a.addr ∷ []), retag _ (load a.addr ∷ []) (sym ka.tagged) (ivf-Stamps a)),
      (
        ((load a.addr ∷ load a.addr ∷ []), ivfu-Stamps a),
        (
          (
            (load b.addr ∷ load a.addr ∷ []),
            retag _ (load b.addr ∷ load a.addr ∷ []) (sym kb.tagged) (idd-Stamps a b),
          ),
          (
            (
              (load a.addr ∷ load b.addr ∷ load b.addr ∷ load a.addr ∷ []),
              retag _ (load a.addr ∷ load b.addr ∷ load b.addr ∷ load a.addr ∷ [])
                  (+ℤ_comm b.tag a.tag) (iddu-Stamps a b),
            ),
            (
              ((load a.addr ∷ []), itouch-Stamps a),
              (
                ((P.lib.iref_reads R (a ∷ [])), ipoke_ref-Stamps P.lib doc P.num_classes a ka),
                (
                  (
                    (P.lib.iref_reads R (a ∷ b ∷ [])),
                    icollide_ref-Stamps P.lib doc P.num_classes a b ka kb,
                  ),
                  (
                    (
                      (load a.addr ∷ P.lib.iref_reads R (a ∷ [])),
                      ipokeu_ref-Stamps P.lib doc P.num_classes a ka,
                    ),
                    (
                      (
                        (load b.addr ∷ load a.addr ∷ P.lib.iref_reads R (a ∷ b ∷ [])),
                        icollideu_ref-Stamps P.lib doc P.num_classes a b ka kb,
                      ),
                      tt,
                    ),
                  ),
                ),
              ),
            ),
          ),
        ),
      ),
    )
