-- ===== src/Registries/Outcomes.antt =====
-- What a call returns and reads, from what the body that it reaches returns and reads.
use boost_openmethod_benchma.Common.{
  ℕ, ◌<◌, ◌≡◌, ◌∙◌, arith, List, [], ◌∷◌, ◌++◌, Bool, true, false, ◌==◌, if◌then◌else◌, subst,
}
use boost_openmethod_benchma.Common.Int.{ℤ, pos, negsuc, neg, ◌+ℤ◌, ◌-ℤ◌}
use boost_openmethod_benchma.Machine.{Event, World, M, ◌>>◌, emit}
use boost_openmethod_benchma.Library.{derived, InplaceRegistry}
use boost_openmethod_benchma.Hierarchy.{Base}
use boost_openmethod_benchma.Hierarchy.Inplace.{IBase}
use boost_openmethod_benchma.Timing.Tsc.{StampId}
use boost_openmethod_benchma.Timing.Stamp.{Stamps, emit-Stamps}
use boost_openmethod_benchma.OpenMethod.{OpenMethod, IsDocumented, call_best}
use boost_openmethod_benchma.Registries.Overriders.{monadic, dyadic}
use boost_openmethod_benchma.Registries.Dispatch.{call_monadic, call_dyadic}
use boost_openmethod_benchma.Verify.Oracle.{want2, wantu2}

-- an object as the factories make it: its leaf class is one of the program's, and `tag` is its index
pub record IsObject (num_classes : ℕ) (o : Base) : Type 0 where
  pub leaf_lt : o.leaf < num_classes
  pub tagged : o.tag ≡ pos o.leaf

pub record IsIobject {R : InplaceRegistry} (num_classes : ℕ) (o : IBase R) : Type 0 where
  pub leaf_lt : o.leaf < num_classes
  pub tagged : o.tag ≡ pos o.leaf

pub Stamps-of :
    {m m' : M StampId} (id : ℤ) (es : List Event)
    → ((w : World) → m w ≡ m' w)
    → Stamps m' id es
    → Stamps m id es
Stamps-of id es e h w = e w ∙ h w

pub retag :
    (m : M StampId) (es : List Event) {id id' : ℤ} → id ≡ id' → Stamps m id es → Stamps m id' es
retag m es e s = subst (λ z. Stamps m z es) e s

pub branch-Stamps :
    {A : Type 0} (c : Bool) (f g : A → M StampId) (a : A) (id id' : ℤ) (es : List Event)
    → Stamps (f a) id es
    → Stamps (g a) id' es
    → Stamps ((if c then f else g) a) (if c then id else id') es
branch-Stamps true f g a id id' es s t = s
branch-Stamps false f g a id id' es s t = t

pub want2_of :
    {x y : ℤ} (i j : ℕ) → x ≡ pos i → y ≡ pos j → (if i == j then pos i else negsuc 0) ≡ want2 x y
want2_of i j e f = rw (e, f) (ground arith)

pub wantu2_of :
    {x y : ℤ} (i j : ℕ)
    → x ≡ pos i
    → y ≡ pos j
    → (if i == j then x +ℤ y else neg x -ℤ y -ℤ pos 1) ≡ wantu2 x y
wantu2_of i j e f = rw (e, f) (ground arith)

module _ {A : Type 0} (lib : OpenMethod) (doc : IsDocumented lib) (num_classes : ℕ) where
  -- a method on one argument whose body stamps `id` behind the reads `es`
  pub call1-Stamps :
      (impl : ℕ → A → M StampId) (reads : List Event) (i : ℕ) (a : A) (es : List Event)
      {id want : ℤ}
      → id ≡ want
      → i < num_classes
      → Stamps (impl i a) id es
      → Stamps
          (emit reads >> call_best lib (monadic impl num_classes) (derived i ∷ []) a)
          want
          (es ++ reads)
  call1-Stamps impl reads i a es {id} e h s = retag _ (es ++ reads) e (
      emit-Stamps _ id es reads
        (Stamps-of id es (λ w. call_monadic lib doc num_classes impl i a w h) s))

  -- a method on two arguments, by the body of the diagonal and that of the catch-all
  pub call2-Stamps :
      (catch_all : A → M StampId) (impl : ℕ → A → M StampId) (reads : List Event) (i j : ℕ) (a : A)
      (es : List Event) {id other want : ℤ}
      → (if i == j then id else other) ≡ want
      → i < num_classes
      → Stamps (impl i a) id es
      → Stamps (catch_all a) other es
      → Stamps
          (emit reads
            >> call_best lib (dyadic catch_all impl num_classes) (derived i ∷ derived j ∷ []) a)
          want
          (es ++ reads)
  call2-Stamps catch_all impl reads i j a es {id} {other} e h s t = retag _ (es ++ reads) e (
      emit-Stamps _ (if i == j then id else other) es reads (
        Stamps-of (if i == j then id else other) es
          (λ w. call_dyadic lib doc num_classes catch_all impl a w i j h)
          (branch-Stamps (i == j) (impl i) catch_all a id other es s t)))
