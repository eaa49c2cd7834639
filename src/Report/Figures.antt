-- ===== src/Report/Figures.antt =====
-- src/main.cpp: what the figures of `report` are for rows that find what they are compared with.
use boost_openmethod_benchma.Common.{◌≡◌, true, false, Option, List, if◌then◌else◌}
use boost_openmethod_benchma.Common.Double.{Double}
use boost_openmethod_benchma.Timing.Stats.{Stats}
use boost_openmethod_benchma.Run.{Row}
use boost_openmethod_benchma.Report.{named_baseline, obj_baseline}

-- what `disp_of` compares a row with
abbrev pub dispatch_baseline : {F : Type 0} ⦃d : Double F⦄ → List (Row F) → Row F → Option (Stats F)
dispatch_baseline rows r =
    if r.touches_receiver
    then obj_baseline rows r.mode r.arity r.hier
    else named_baseline rows r.mode "direct"

module _ {F : Type 0} ⦃d : Double F⦄ where
  -- A quotient, or 0 where the divisor is not positive.
  abbrev pub IsRatio : F → F → F → Type 0
  IsRatio x val base =
      (d.gt base (d.of_ℕ 0) ≡ true → x ≡ d.div val base)
      × (d.gt base (d.of_ℕ 0) ≡ false → x ≡ d.of_ℕ 0)

  -- The difference of two means and its standard error.
  abbrev pub IsDifference : F × F → (mean se mean' se' : F) → Type 0
  IsDifference x mean se mean' se' =
      (x.0 ≡ d.sub mean mean') × (x.1 ≡ d.sqrt (d.add (d.mul se se) (d.mul se' se')))
