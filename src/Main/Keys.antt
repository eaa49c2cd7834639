-- ===== src/Main/Keys.antt =====
-- src/main.cpp: tests on the keys of the rows that the program makes.
use boost_openmethod_benchma.Common.{
  ◌≡◌, refl, sym, subst, Bool, true, ◌&&◌, List, [], ◌∷◌, ◌++◌, map, All, and_left, and_right,
}
use boost_openmethod_benchma.Timing.Flush.{CacheMode}
use boost_openmethod_benchma.Platform.{Platform}
use boost_openmethod_benchma.Run.{Row}
use boost_openmethod_benchma.Run.Key.{Key, key_of, variant_key}
use boost_openmethod_benchma.Main.{variants, keys}

abbrev pub every_key : (Key → Bool) → List Key → Bool
every_key test [] = true
every_key test (k ∷ ks) = test k && every_key test ks

module _ (test : Key → Bool) where
  every_key-append :
      (ks ls : List Key)
      → every_key test ks ≡ true
      → every_key test ls ≡ true
      → every_key test (ks ++ ls) ≡ true
  every_key-append [] ls h g = g
  every_key-append (k ∷ ks) ls h g =
      rw (and_left (test k) _ h) (every_key-append ks ls (and_right (test k) _ h) g)

  every_key-All :
      {F : Type 0} (rows : List (Row F))
      → every_key test (map key_of rows) ≡ true
      → All (λ r. test (key_of r) ≡ true) rows
  every_key-All [] h = tt
  every_key-All (r ∷ rows) h =
      (and_left (test (key_of r)) _ h, every_key-All rows (and_right (test (key_of r)) _ h))

  module _ (P : Platform)
      (passed : (mode : CacheMode)
        → every_key test (map (variant_key mode) (variants P)) ≡ true) where
    every_key-keys : (ms : List CacheMode) → every_key test (keys P ms) ≡ true
    every_key-keys [] = refl
    every_key-keys (mode ∷ ms) =
        every_key-append (map (variant_key mode) (variants P)) (keys P ms) (passed mode)
          (every_key-keys ms)

    -- A test that the variants pass in every mode is passed by the rows that the program makes.
    pub All-keys :
        {F : Type 0} (ms : List CacheMode) (rows : List (Row F))
        → map key_of rows ≡ keys P ms
        → All (λ r. test (key_of r) ≡ true) rows
    All-keys ms rows made =
        every_key-All rows (subst (λ ks. every_key test ks ≡ true) (sym made) (every_key-keys ms))
