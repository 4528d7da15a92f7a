-- ===== src/Device/Results/Laws.antt =====
-- What the five functions behind get_results write into the caller's buffer.
use qdmi.Base.{
  ◌++◌, ap, ℕ, zero, suc, ◌+◌, ◌*◌, ◌<◌, ◌≡◌, refl, sym, ◌∙◌, none, some, List, [], ◌∷◌, false, ltb,
  arith, length, All, length-append, length-map,
}
use mathlib.Core.List.{append_assoc}
use native.Mathlib.Nat.{mod-eq_of_lt}
use qdmi.Base.Bytes.{Bytes, encode_all, length-encode_all}
use qdmi.Constants.JobResult
use qdmi.Output.{Request, answer, overwrite}
use qdmi.Output.Serves.{copy-Serves, IsContract, Serves}
use qdmi.Device.State.{Amplitude, Float}
use qdmi.Device.Results.{
  size_t, join_shots, get_results_shots, parts, get_results_statevector, nonzero, log2, norms,
  get_results_sparse, get_results_probabilities,
}

-- The texts of a list that have one length.
abbrev pub HaveLength : ℕ → List Bytes → Type 0
HaveLength k = All (λ (s : Bytes). length s ≡ k)

-- Texts with a comma between them.
abbrev pub joined : List Bytes → Bytes
joined [] = []
joined (s ∷ []) = s
joined (s ∷ t ∷ texts) = s ++ b',' ∷ joined (t ∷ texts)

-- The same as a C string.
abbrev pub terminated : List Bytes → Bytes
terminated texts = joined texts ++ 0 ∷ []

pub join_shots-terminated :
    (s : Bytes) (shots : List Bytes) → join_shots (s ∷ shots) ≡ terminated (s ∷ shots)
unfolding join_shots
join_shots-terminated s [] = refl
join_shots-terminated s (t ∷ shots) =
    ap (λ x. s ++ b',' ∷ x) (join_shots-terminated t shots)
    ∙ sym (append_assoc s (b',' ∷ joined (t ∷ shots)) (0 ∷ []))

pub length-join_shots :
    (k : ℕ) (s : Bytes) (shots : List Bytes)
    → HaveLength k (s ∷ shots)
    → length (join_shots (s ∷ shots)) ≡ length (s ∷ shots) * (k + 1)
unfolding join_shots
length-join_shots k s [] h = omega (arith, length-append s (0 ∷ []), h.0)
length-join_shots k s (t ∷ shots) h =
    omega
      (arith, length-append s (b',' ∷ join_shots (t ∷ shots)), h.0, length-join_shots k t shots h.1)

-- Shots of one length are served as one text, with a comma between them and NUL at the end, as
-- long as the text's length fits `size_t`.
pub get_results_shots-Serves :
    (k : ℕ) (s : Bytes) (shots : List Bytes) (r : Request)
    → HaveLength k (s ∷ shots)
    → length (s ∷ shots) * (k + 1) < 18446744073709551616
    → IsContract r
    → Serves (terminated (s ∷ shots)) r (get_results_shots (s ∷ shots) r)
unfolding get_results_shots
get_results_shots-Serves k s shots r h fits c =
    let len = length-join_shots k s shots h in
    let first : length s ≡ k = h.0 in
    let small : size_t (length (s ∷ shots) * (length s + 1)) ≡ length (s ∷ shots) * (k + 1) =
      rw first (mod-eq_of_lt fits) in
    rw (← join_shots-terminated s shots)
      (copy-Serves (join_shots (s ∷ shots)) _ r (small ∙ sym len) c)

length-parts : (cs : List Amplitude) → length (parts cs) ≡ length cs * 2
length-parts [] = omega arith
length-parts (c ∷ cs) = omega (arith, length-parts cs)

-- The dense state vector is served as pairs of doubles.
get_results_statevector-Serves :
    (cs : List Amplitude) (r : Request)
    → length cs * 2 * 8 < 18446744073709551616
    → IsContract r
    → Serves (encode_all 8 (parts cs)) r (get_results_statevector cs r)
unfolding get_results_statevector
get_results_statevector-Serves cs r fits c =
    copy-Serves (encode_all 8 (parts cs)) _ r
      (omega (arith, length-encode_all 8 (parts cs), length-parts cs)) c

-- The dense probabilities are served as one double for each amplitude.
get_results_probabilities-Serves :
    (fl : Float) (cs : List Amplitude) (r : Request)
    → length cs * 8 < 18446744073709551616
    → IsContract r
    → Serves (encode_all 8 (norms fl cs)) r (get_results_probabilities fl cs r)
unfolding get_results_probabilities
get_results_probabilities-Serves fl cs r fits c =
    copy-Serves (encode_all 8 (norms fl cs)) _ r
      (omega (arith, length-encode_all 8 (norms fl cs), length-map fl.norm cs)) c

-- The dense state vector is served as pairs of doubles, and the dense probabilities as one double
-- for each amplitude, if the length of the vector in bytes fits `size_t`.
pub get_results_dense-Serves :
    (fl : Float) (cs : List Amplitude) (r : Request)
    → length cs * 2 * 8 < 18446744073709551616
    → IsContract r
    → Serves (encode_all 8 (parts cs)) r (get_results_statevector cs r)
      × Serves (encode_all 8 (norms fl cs)) r (get_results_probabilities fl cs r)
get_results_dense-Serves fl cs r fits c = (
  get_results_statevector-Serves cs r fits c,
  get_results_probabilities-Serves fl cs r (omega (arith, fits)) c,
)

overwrite_past : (bs buf : Bytes) → length buf < length bs → overwrite bs buf ≡ none
unfolding overwrite
overwrite_past bs buf h = ground arith

pub log2-defined : (fl : Float) (n : ℕ) → 0 < n → log2 fl n ≡ some (fl.log2_cut n)
log2-defined fl zero h = absurd (omega arith)
log2-defined fl (suc n) h = refl

-- If an amplitude is zero, the sparse probabilities overrun a buffer of the size that the function
-- itself asks for: it writes the probabilities of all amplitudes.
pub get_results_sparse_overrun :
    (fl : Float) (cs : List Amplitude) (r : Request) (buf : Bytes)
    → length (nonzero cs) < length cs
    → length cs * 8 < 18446744073709551616
    → r.value ≡ some buf
    → length buf ≡ r.size
    → r.size ≡ length (nonzero cs) * 8
    → get_results_sparse fl cs JobResult.probabilities_sparse_values r ≡ none
unfolding get_results_sparse answer
get_results_sparse_overrun fl cs r buf fewer fits v e n =
    let log = log2-defined fl (length cs) (omega arith) in
    let small : size_t (length (nonzero cs) * 8) ≡ length (nonzero cs) * 8 = omega arith in
    let room : ltb r.size (length (nonzero cs) * 8) ≡ false = ground arith in
    let past : overwrite (encode_all 8 (norms fl cs)) buf ≡ none =
      overwrite_past (encode_all 8 (norms fl cs)) buf
        (omega (arith, length-encode_all 8 (norms fl cs), length-map fl.norm cs)) in
    rw (get_results_sparse, log, v, small, room, past)

-- Without a zero among the amplitudes they are served one for each.
pub get_results_sparse-Serves :
    (fl : Float) (cs : List Amplitude) (r : Request)
    → 0 < length cs
    → length (nonzero cs) ≡ length cs
    → length cs * 8 < 18446744073709551616
    → IsContract r
    → Serves
        (encode_all 8 (norms fl cs))
        r
        (get_results_sparse fl cs JobResult.probabilities_sparse_values r)
unfolding get_results_sparse
get_results_sparse-Serves fl cs r some_there all fits c =
    let log = log2-defined fl (length cs) some_there in
    rw (get_results_sparse, log)
      (copy-Serves (encode_all 8 (norms fl cs)) (size_t (length (nonzero cs) * 8)) r
        (omega (arith, length-encode_all 8 (norms fl cs), length-map fl.norm cs)) c)
