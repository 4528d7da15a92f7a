-- ===== src/Fomac/Sample.antt =====
-- The build of the reference device that the theorems at concrete inputs use has addresses that
-- fit and differ.
use qdmi.Base.{arith}
use qdmi.Device.Sample.{build}
use qdmi.Fomac.Reference.{IsPlaced}

pub build-IsPlaced : IsPlaced build
build-IsPlaced = record {
  operations_fit = omega arith;
  site_fits = λ i h. omega arith;
  site_real = λ i h. omega arith;
  sites_differ = λ i j h k. omega arith;
}
