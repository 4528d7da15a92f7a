-- ===== src/Device/Results/Histogram.antt =====
-- The histogram of the shots in examples/device/src/cxx_device.cpp: `std::map<std::string, size_t>`
-- as a list of entries in the order of the keys.
pub mod Laws
use Prim.Native.Nat.{compare, Ordering}
use qdmi.Base.{ℕ, suc, List, [], ◌∷◌, map, Bool, true, false}
use qdmi.Base.Bytes.{Bytes}

abbrev pub Hist : Type 0
Hist = List (Bytes × ℕ)

-- `std::string::compare`: the first byte that differs decides, and a proper prefix comes first.
unfoldable pub compare_text : Bytes → Bytes → Ordering
compare_text [] [] = Ordering.eq
compare_text [] (b ∷ y) = Ordering.lt
compare_text (a ∷ x) [] = Ordering.gt
compare_text (a ∷ x) (b ∷ y) =
    let rest = compare_text x y in
    elim (compare a b) [
      | Ordering.lt ↦ Ordering.lt
      | Ordering.eq ↦ rest
      | Ordering.gt ↦ Ordering.gt
    ]

-- `hist[shot]++`: a key that is not there is inserted at its place with the count 0.
unfoldable pub count_shot : Bytes → Hist → Hist
count_shot shot [] = (shot, 1) ∷ []
count_shot shot ((key, n) ∷ hist) =
    let later = count_shot shot hist in
    elim (compare_text shot key) [
      | Ordering.lt ↦ (shot, 1) ∷ (key, n) ∷ hist
      | Ordering.eq ↦ (key, suc n) ∷ hist
      | Ordering.gt ↦ (key, n) ∷ later
    ]

-- The loop over the shots.
unfoldable pub histogram_from : Hist → List Bytes → Hist
histogram_from hist [] = hist
histogram_from hist (shot ∷ shots) = histogram_from (count_shot shot hist) shots

abbrev pub histogram : List Bytes → Hist
histogram = histogram_from []

-- `hist | std::views::keys` and `hist | std::views::values`.
abbrev pub keys : Hist → List Bytes
keys = map (λ e. e.0)

abbrev pub counts : Hist → List ℕ
counts = map (λ e. e.1)
