-- ===== src/Device/Results/Tests.antt =====
-- The theorems on reading results and on the ranges of the enumerations at concrete inputs: a
-- state of one qubit in which one amplitude is zero, and one in which none is.
use qdmi.Base.{
  map, ◌/◌, ℕ, ◌+◌, ◌≡◌, ◌≤◌, ◌<◌, ◌⊎◌, ◌↔◌, refl, none, some, List, [], ◌∷◌, ◌++◌, true, false,
  arith, replicate,
}
use qdmi.Base.Bytes.{Bytes, text, encode_all}
use qdmi.Constants.{is_invalid_enum_value}
use qdmi.Constants.Ranges.{is_invalid_enum_value_iff}
use qdmi.Constants.JobResult
use qdmi.Output.{Request}
use qdmi.Output.Serves.{Serves}
use qdmi.Device.State.{Amplitude, Float}
use qdmi.Device.Results.{
  join_shots, get_results_shots, parts, get_results_statevector, nonzero, norms, get_results_sparse,
  get_results_probabilities, get_results_hist,
}
use qdmi.Device.Results.Laws.{
  HaveLength, terminated, get_results_shots-Serves, get_results_dense-Serves,
  get_results_sparse_overrun, get_results_sparse-Serves,
}
use qdmi.Device.Results.Indices.{AreBinary, binary}
use qdmi.Device.Results.Keys.{get_results_sparse_keys-Serves}
use qdmi.Device.Results.Counts.{Reports, get_results_hist-Reports}
use qdmi.Device.Results.Histogram.{histogram, histogram_from, count_shot, compare_text}
use qdmi.Device.Results.Histogram.Laws.{IsSorted, count_of, occurrences, histogram_lem}

abbrev simple : Float
simple = record {
  norm = λ a. a.re;
  add = λ a b. a + b;
  sqrt = λ a. a;
  divide = λ a n. a;
  log2_cut = λ n. n / 2;
}

abbrev zero_amplitude : Amplitude
zero_amplitude = record { re = 0; im = 0 }

abbrev one_amplitude : Amplitude
one_amplitude = record { re = 0x3ff0000000000000; im = 0 }

abbrev basis : List Amplitude
basis = one_amplitude ∷ zero_amplitude ∷ []

abbrev spread : List Amplitude
spread = one_amplitude ∷ one_amplitude ∷ []

abbrev buffer : ℕ → Request
buffer n = record { size = n; value = some (replicate n 255); size_ret = true }

get_results_shots-Serves_example :
    Serves
      (text "01,10" ++ 0 ∷ [])
      (buffer 6)
      (get_results_shots (text "01" ∷ text "10" ∷ []) (buffer 6))
get_results_shots-Serves_example =
    get_results_shots-Serves 2 (text "01") (text "10" ∷ []) (buffer 6) (refl, (refl, tt))
      (omega arith) refl

get_results_dense-Serves_example :
    Serves (encode_all 8 (parts basis)) (buffer 32) (get_results_statevector basis (buffer 32))
    × Serves
        (encode_all 8 (norms simple basis))
        (buffer 32)
        (get_results_probabilities simple basis (buffer 32))
get_results_dense-Serves_example =
    get_results_dense-Serves simple basis (buffer 32) (omega arith) refl

get_results_hist-Reports_example :
    Reports
      (join_shots (text "01" ∷ text "10" ∷ []))
      (buffer 6)
      (get_results_hist (text "10" ∷ text "01" ∷ text "10" ∷ []) JobResult.hist_keys (buffer 6))
    × Reports
        (encode_all 8 (1 ∷ 2 ∷ []))
        (buffer 6)
        (get_results_hist (text "10" ∷ text "01" ∷ text "10" ∷ []) JobResult.hist_values (buffer 6))
unfolding histogram_from count_shot compare_text
get_results_hist-Reports_example =
    get_results_hist-Reports 2 (text "10" ∷ text "01" ∷ text "10" ∷ []) (buffer 6)
      (refl, (refl, (refl, tt))) (omega arith) (omega arith) refl

get_results_sparse_keys-Serves_example :
    (keys : List Bytes) × HaveLength 1 keys
    × AreBinary keys
    × (map binary keys ≡ 0 ∷ [])
    × Serves
        (terminated keys)
        (buffer 2)
        (get_results_sparse simple basis JobResult.probabilities_sparse_keys (buffer 2))
unfolding nonzero
get_results_sparse_keys-Serves_example =
    get_results_sparse_keys-Serves simple basis 1 JobResult.probabilities_sparse_keys (buffer 2)
      refl refl refl (omega arith) (omega arith) (omega arith) refl

get_results_sparse_overrun_example :
    get_results_sparse simple basis JobResult.probabilities_sparse_values (buffer 8) ≡ none
unfolding nonzero
get_results_sparse_overrun_example =
    get_results_sparse_overrun simple basis (buffer 8) (replicate 8 255) (omega arith) (omega arith)
      refl refl refl

get_results_sparse-Serves_example :
    Serves
      (encode_all 8 (norms simple spread))
      (buffer 16)
      (get_results_sparse simple spread JobResult.probabilities_sparse_values (buffer 16))
unfolding nonzero
get_results_sparse-Serves_example =
    get_results_sparse-Serves simple spread (buffer 16) (omega arith) refl (omega arith) refl

histogram_lem_example :
    IsSorted (histogram (text "10" ∷ text "01" ∷ text "10" ∷ []))
    × ((k : Bytes)
        → count_of k (histogram (text "10" ∷ text "01" ∷ text "10" ∷ []))
          ≡ occurrences k (text "10" ∷ text "01" ∷ text "10" ∷ []))
histogram_lem_example = histogram_lem (text "10" ∷ text "01" ∷ text "10" ∷ [])

is_invalid_enum_value_iff_example :
    (is_invalid_enum_value 999999996 19 ≡ false)
    ↔ ((999999996 < 19) ⊎ ((999999995 ≤ 999999996) × (999999996 ≤ 999999999)))
is_invalid_enum_value_iff_example = is_invalid_enum_value_iff 999999996 19
