-- ===== src/Device/Results/Histogram/Laws.antt =====
-- The histogram counts every shot once, under keys in strictly increasing order.
use Prim.Native.Nat.{Ordering}
use qdmi.Base.{ℕ, suc, ◌+◌, ◌≡◌, refl, List, [], ◌∷◌, arith}
use qdmi.Base.Bytes.{Bytes}
use qdmi.Device.Results.Histogram.{Hist, compare_text, count_shot, histogram_from, histogram}

-- How often a key was counted.
abbrev pub count_of : Bytes → Hist → ℕ
count_of k [] = 0
count_of k ((key, n) ∷ hist) =
    let later = count_of k hist in elim (compare_text k key) [ Ordering.eq ↦ n + later | _ ↦ later ]

-- How often a text occurs among the shots.
abbrev pub occurrences : Bytes → List Bytes → ℕ
occurrences k [] = 0
occurrences k (s ∷ shots) =
    let later = occurrences k shots in
    elim (compare_text k s) [ Ordering.eq ↦ suc later | _ ↦ later ]

-- The keys lie in strictly increasing order.
abbrev pub Below : Bytes → Hist → Type 0
Below k [] = Unit
Below k ((key, n) ∷ hist) = compare_text k key ≡ Ordering.lt

abbrev pub IsSorted : Hist → Type 0
IsSorted [] = Unit
IsSorted ((key, n) ∷ hist) = Below key hist × IsSorted hist

compare_text-swap : (a b : Bytes) → compare_text a b ≡ Ordering.gt → compare_text b a ≡ Ordering.lt
unfolding compare_text
compare_text-swap [] [] e = cc
compare_text-swap [] (b ∷ bs) e = cc
compare_text-swap (a ∷ x) [] e = refl
compare_text-swap (a ∷ x) (b ∷ bs) e = ground (arith, compare_text-swap x bs)

compare_text-eq : (a b : Bytes) → compare_text a b ≡ Ordering.eq → a ≡ b
unfolding compare_text
compare_text-eq [] [] e = refl
compare_text-eq [] (b ∷ bs) e = cc
compare_text-eq (a ∷ x) [] e = cc
compare_text-eq (a ∷ x) (b ∷ bs) e = ground (arith, compare_text-eq x bs)

Below-count_shot :
    (k shot : Bytes) (hist : Hist)
    → compare_text k shot ≡ Ordering.lt
    → Below k hist
    → Below k (count_shot shot hist)
unfolding count_shot
Below-count_shot k shot [] e b = e
Below-count_shot k shot ((key, n) ∷ hist) e b = ground arith

count_shot-IsSorted : (shot : Bytes) (hist : Hist) → IsSorted hist → IsSorted (count_shot shot hist)
unfolding count_shot
count_shot-IsSorted shot [] h = (tt, tt)
count_shot-IsSorted shot ((key, n) ∷ hist) h = ground (
  arith,
  count_shot-IsSorted shot hist h.1,
  compare_text-swap shot key,
  Below-count_shot key shot hist,
)

count_of-count_shot :
    (k shot : Bytes) (hist : Hist)
    → count_of k (count_shot shot hist) ≡ occurrences k (shot ∷ []) + count_of k hist
unfolding count_shot
count_of-count_shot k shot [] = ground arith
count_of-count_shot k shot ((key, n) ∷ hist) =
    ground (arith, count_of-count_shot k shot hist, compare_text-eq shot key)

histogram_from-IsSorted :
    (shots : List Bytes) (hist : Hist) → IsSorted hist → IsSorted (histogram_from hist shots)
unfolding histogram_from
histogram_from-IsSorted [] hist h = h
histogram_from-IsSorted (s ∷ shots) hist h =
    histogram_from-IsSorted shots (count_shot s hist) (count_shot-IsSorted s hist h)

count_of-histogram_from :
    (k : Bytes) (shots : List Bytes) (hist : Hist)
    → count_of k (histogram_from hist shots) ≡ occurrences k shots + count_of k hist
unfolding histogram_from
count_of-histogram_from k [] hist = omega arith
count_of-histogram_from k (s ∷ shots) hist =
    ground
      (arith, count_of-histogram_from k shots (count_shot s hist), count_of-count_shot k s hist)

-- The keys of the histogram are sorted without repetition, and each text is counted as often as it
-- occurs among the shots.
pub histogram_lem :
    (shots : List Bytes)
    → IsSorted (histogram shots)
      × ((k : Bytes) → count_of k (histogram shots) ≡ occurrences k shots)
histogram_lem shots =
    (histogram_from-IsSorted shots [] tt, λ k. omega (arith, count_of-histogram_from k shots []))
