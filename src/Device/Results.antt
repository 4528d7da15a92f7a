-- ===== src/Device/Results.antt =====
-- The results of a job in examples/device/src/cxx_device.cpp: get_results and the five functions
-- that write shots, histograms, state vectors and probabilities.
pub mod Histogram
pub mod Laws
pub mod Indices
pub mod Keys
pub mod Counts
mod Tests
use qdmi.Base.{
  ℕ, zero, suc, ◌+◌, ◌-◌, ◌*◌, ◌/◌, ◌%◌, ◌^◌, Bool, true, false, not, ◌&&◌, ◌||◌, Option, none,
  some, List, [], ◌∷◌, ◌++◌, map, ltb, leb, ◌==◌, if◌then◌else◌, length, get_elem?, is_empty,
}
use qdmi.Base.Bytes.{Bytes, encode, encode_all}
use qdmi.Constants.{
  Code, error_invalid_argument, error_out_of_range, error_bad_state, error_not_supported, JobStatus,
  done, is_invalid_enum_value,
}
use qdmi.Constants.JobResult
use qdmi.Output.{Request, Reply, fail, succeed, report, answer, overwrite, is_empty_buffer}
use qdmi.Device.State.{Job, ResultData, Amplitude, Float}
use qdmi.Device.Results.Histogram.{Hist, histogram, keys, counts}

-- Arithmetic on `size_t` wraps.
abbrev pub size_t : ℕ → ℕ
size_t n = n % 18446744073709551616

-- The loop of `Get_results_shots`: a comma after each shot, and NUL after the last.
unfoldable pub join_shots : List Bytes → Bytes
join_shots [] = []
join_shots (s ∷ []) = s ++ 0 ∷ []
join_shots (s ∷ t ∷ shots) = s ++ b',' ∷ join_shots (t ∷ shots)

-- `Get_results_shots`.
unfoldable pub get_results_shots : List Bytes → Request → Option Reply
get_results_shots [] r = some (succeed r 0 r.value)
get_results_shots (s ∷ shots) r =
    answer (size_t (length (s ∷ shots) * (length s + 1))) (overwrite (join_shots (s ∷ shots))) r

-- Texts one after the other, each with a comma behind it.
unfoldable pub comma_list : List Bytes → Bytes
comma_list [] = []
comma_list (s ∷ texts) = s ++ b',' ∷ comma_list texts

-- `*(storedptr - 1) = '\0'`: the last byte written; with none written it lies before the buffer.
unfoldable pub end_list : Bytes → Option Bytes
end_list [] = none
end_list (b ∷ []) = some (0 ∷ [])
end_list (b ∷ c ∷ bs) = elim (end_list (c ∷ bs)) [ none ↦ none | some t ↦ some (b ∷ t) ]

-- The bytes that a function writes, if that is defined, at the start of the buffer.
abbrev pub write : Option Bytes → Bytes → Option Bytes
write none buf = none
write (some bs) buf = overwrite bs buf

-- The two branches of `Get_results_hist` set `size_ret` before they look at the buffer.
abbrev pub answer_size_first : ℕ → (Bytes → Option Bytes) → Request → Option Reply
answer_size_first n fill r = elim r.value [
  | none ↦ some (succeed r n none)
  | some buf ↦
      if ltb r.size n
      then some (record (fail r error_invalid_argument) { size_ret = report r n })
      else elim (fill buf) [ none ↦ none | some buf' ↦ some (succeed r n (some buf')) ]
]

abbrev pub front_length : List Bytes → ℕ
front_length [] = 0
front_length (s ∷ shots) = length s

abbrev pub hist_keys : List Bytes → List Bytes → Request → Option Reply
hist_keys shots [] r = some (succeed r 0 r.value)
hist_keys shots (k ∷ ks) r =
    answer_size_first (size_t (length (k ∷ ks) * (front_length shots + 1)))
      (write (end_list (comma_list (k ∷ ks)))) r

-- `Get_results_hist`.
unfoldable pub get_results_hist : List Bytes → ℕ → Request → Option Reply
get_results_hist shots result r =
    if result == JobResult.hist_keys
    then hist_keys shots (keys (histogram shots)) r
    else answer_size_first (size_t (length (histogram shots) * 8))
        (overwrite (encode_all 8 (counts (histogram shots)))) r

-- The real and the imaginary part, one after the other.
abbrev pub parts : List Amplitude → List ℕ
parts [] = []
parts (c ∷ cs) = c.re ∷ c.im ∷ parts cs

-- `Get_results_statevector`.
unfoldable pub get_results_statevector : List Amplitude → Request → Option Reply
get_results_statevector cs r =
    answer (size_t (length cs * 2 * 8)) (overwrite (encode_all 8 (parts cs))) r

-- `c != 0.`: a `double` is zero if its bits are those of 0.0 or -0.0.
abbrev is_zero : ℕ → Bool
is_zero x = x == 0 || x == 0x8000000000000000

abbrev pub is_nonzero : Amplitude → Bool
is_nonzero c = not (is_zero c.re) || not (is_zero c.im)

unfoldable pub nonzero : List Amplitude → List Amplitude
nonzero [] = []
nonzero (c ∷ cs) = let later = nonzero cs in if is_nonzero c then c ∷ later else later

-- `static_cast<size_t>(std::log2(n))`: for 0 the conversion is undefined.
abbrev pub log2 : Float → ℕ → Option ℕ
log2 fl zero = none
log2 fl (suc n) = some (fl.log2_cut (suc n))

-- `i & (1 << shift)`: the mask is an `int`, so that for the shift 31 it is negative and stands for
-- all the bits from there on.
abbrev is_set : ℕ → ℕ → Bool
is_set shift i = if shift == 31 then leb 2147483648 i else (i / 2 ^ shift) % 2 == 1

-- The key of the index i: its `qubits` bits, the highest first.
unfoldable pub bits : ℕ → ℕ → Bytes
bits zero i = []
bits (suc j) i = (if is_set j i then b'1' else b'0') ∷ bits j i

-- The keys of the amplitudes that are not zero, from the index i on.
unfoldable pub sparse_keys : ℕ → ℕ → List Amplitude → List Bytes
unfolding bits
sparse_keys qubits i [] = []
sparse_keys qubits i (c ∷ cs) =
    let later = sparse_keys qubits (suc i) cs in
    if is_nonzero c then bits qubits i ∷ later else later

abbrev pub norms : Float → List Amplitude → List ℕ
norms fl = map fl.norm

-- What is written for the keys: a shift of an `int` by 32 bits or more is undefined.
abbrev keys_text : ℕ → List Amplitude → Option Bytes
keys_text qubits cs =
    if ltb 32 qubits then none else end_list (comma_list (sparse_keys qubits 0 cs))

-- The `switch` of `Get_results_sparse`, with the number of amplitudes that are not zero.
abbrev pub sparse_result : Float → List Amplitude → ℕ → ℕ → ℕ → Request → Option Reply
sparse_result fl cs count qubits result r =
    if result == JobResult.statevector_sparse_keys || result == JobResult.probabilities_sparse_keys
    then answer (size_t (count * (qubits + 1))) (write (keys_text qubits cs)) r
    else if result == JobResult.statevector_sparse_values
    then answer (size_t (count * 2 * 8)) (overwrite (encode_all 8 (parts (nonzero cs)))) r
    else answer (size_t (count * 8)) (overwrite (encode_all 8 (norms fl cs))) r

-- `Get_results_sparse`.
unfoldable pub get_results_sparse : Float → List Amplitude → ℕ → Request → Option Reply
get_results_sparse fl cs result r = elim (log2 fl (length cs)) [
  | none ↦ none
  | some qubits ↦ sparse_result fl cs (length (nonzero cs)) qubits result r
]

-- `Get_results_probabilities`.
unfoldable pub get_results_probabilities : Float → List Amplitude → Request → Option Reply
get_results_probabilities fl cs r =
    answer (size_t (length cs * 8)) (overwrite (encode_all 8 (norms fl cs))) r

-- The `switch` of get_results.
unfoldable pub select_result : Float → ResultData → ℕ → Request → Option Reply
select_result fl stored result r =
    if result == JobResult.shots
    then get_results_shots stored.shots r
    else if result == JobResult.hist_keys || result == JobResult.hist_values
    then get_results_hist stored.shots result r
    else if result == JobResult.statevector_dense
    then get_results_statevector stored.state_vec r
    else if result == JobResult.statevector_sparse_keys
        || result == JobResult.statevector_sparse_values
        || result == JobResult.probabilities_sparse_keys
        || result == JobResult.probabilities_sparse_values
    then get_results_sparse fl stored.state_vec result r
    else if result == JobResult.probabilities_dense
    then get_results_probabilities fl stored.state_vec r
    else some (fail r error_not_supported)

abbrev is_done : JobStatus → Bool
is_done done = true
is_done _ = false

-- CXX_QDMI_device_job_get_results; `results[program_index]` past the end is undefined.
unfoldable pub get_results : Float → Option Job → ℕ → ℕ → Request → Option Reply
get_results fl none index result r = some (fail r error_invalid_argument)
get_results fl (some job) index result r =
    if is_empty_buffer r || is_invalid_enum_value result JobResult.max_value
    then some (fail r error_invalid_argument)
    else if leb (length job.programs) index
    then some (fail r error_out_of_range)
    else if not (is_done job.status)
    then some (fail r error_bad_state)
    else elim (get_elem? job.results index) [
      | none ↦ none
      | some stored ↦ select_result fl stored result r
    ]
