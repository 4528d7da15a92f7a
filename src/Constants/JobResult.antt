-- ===== src/Constants/JobResult.antt =====
-- The enumeration `QDMI_JOB_RESULT_T` of include/qdmi/constants.h: the numbers of the
-- kinds of results of a job.
use qdmi.Base.{ℕ, List, [], ◌∷◌}

abbrev pub shots : ℕ
shots = 0

abbrev pub hist_keys : ℕ
hist_keys = 1

abbrev pub hist_values : ℕ
hist_values = 2

abbrev pub statevector_dense : ℕ
statevector_dense = 3

abbrev pub probabilities_dense : ℕ
probabilities_dense = 4

abbrev pub statevector_sparse_keys : ℕ
statevector_sparse_keys = 5

abbrev pub statevector_sparse_values : ℕ
statevector_sparse_values = 6

abbrev pub probabilities_sparse_keys : ℕ
probabilities_sparse_keys = 7

abbrev pub probabilities_sparse_values : ℕ
probabilities_sparse_values = 8

abbrev pub max_value : ℕ
max_value = 9

abbrev pub custom1 : ℕ
custom1 = 999999995

abbrev pub custom2 : ℕ
custom2 = 999999996

abbrev pub custom3 : ℕ
custom3 = 999999997

abbrev pub custom4 : ℕ
custom4 = 999999998

abbrev pub custom5 : ℕ
custom5 = 999999999

-- The members in their order.
abbrev pub members : List ℕ
members =
    shots ∷ hist_keys ∷ hist_values ∷ statevector_dense ∷ probabilities_dense
    ∷ statevector_sparse_keys ∷ statevector_sparse_values ∷ probabilities_sparse_keys
    ∷ probabilities_sparse_values ∷ max_value ∷ custom1 ∷ custom2 ∷ custom3 ∷ custom4 ∷ custom5 ∷ []
