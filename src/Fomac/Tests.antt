-- ===== src/Fomac/Tests.antt =====
-- The theorems on the class FoMaC of examples/fomac/example_fomac.cpp at concrete inputs.
use qdmi.Base.{refl}
use qdmi.Device.Sample.{build, build-IsLinked, dev, session}
use qdmi.Fomac.Sample.{build-IsPlaced}
use qdmi.Fomac.Reference.{reference, Reads, getters-Reads}

getters-Reads_example : Reads build (reference build dev session)
getters-Reads_example = getters-Reads build dev session refl build-IsLinked build-IsPlaced
