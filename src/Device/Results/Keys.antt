-- ===== src/Device/Results/Keys.antt =====
-- The texts that get_results of examples/device/src/cxx_device.cpp writes for keys: a list with commas.
use native.Mathlib.Nat.{mod-eq_of_lt, one-le-pow}
use qdmi.Base.{
  ltb, ◌^◌, ◌≤◌, false, map, ℕ, ◌+◌, ◌*◌, ◌<◌, ◌≡◌, ◌≢◌, refl, ap, sym, ◌∙◌, true, ◌==◌, ◌||◌, none,
  some, List, [], ◌∷◌, ◌++◌, arith, length,
}
use qdmi.Base.Bytes.{Bytes}
use qdmi.Constants.JobResult
use qdmi.Output.{Request, answer}
use qdmi.Output.Serves.{IsContract, Serves, copy-Serves}
use qdmi.Device.State.{Amplitude, Float}
use qdmi.Device.Results.{
  size_t, join_shots, comma_list, end_list, write, nonzero, sparse_keys, get_results_sparse,
}
use qdmi.Device.Results.Laws.{
  HaveLength, terminated, join_shots-terminated, length-join_shots, log2-defined,
}
use qdmi.Device.Results.Indices.{
  sparse_keys-HaveLength, length-sparse_keys, AreBinary, sparse_keys-AreBinary, binary,
  is_nonzero_at, nonzero_indices, sparse_keys-indices,
}

end_list-cons :
    (x : Bytes) (b : ℕ) (y : Bytes)
    → end_list (x ++ b ∷ y) ≡ (elim (end_list (b ∷ y)) [ none ↦ none | some t ↦ some (x ++ t) ])
unfolding end_list
end_list-cons [] b y = ground arith
end_list-cons (c ∷ []) b y = ground arith
end_list-cons (c ∷ d ∷ x) b y = ground (arith, end_list-cons (d ∷ x) b y)

comma_list-some :
    (s : Bytes) (texts : List Bytes) → (b : ℕ) × (y : Bytes) × (comma_list (s ∷ texts) ≡ b ∷ y)
unfolding comma_list
comma_list-some [] texts = (_, _, refl)
comma_list-some (c ∷ s) texts = (_, _, refl)

end_list-joined :
    (s : Bytes) (b : ℕ) (y z : Bytes)
    → end_list (b ∷ y) ≡ some z
    → end_list (s ++ b',' ∷ b ∷ y) ≡ some (s ++ b',' ∷ z)
unfolding end_list
end_list-joined s b y z h = rw (end_list-cons s b',' (b ∷ y), h)

-- The comma behind the last text is what the terminator takes the place of.
pub end_list-comma_list :
    (s : Bytes) (texts : List Bytes)
    → end_list (comma_list (s ∷ texts)) ≡ some (join_shots (s ∷ texts))
unfolding comma_list join_shots end_list
end_list-comma_list s [] = rw (end_list-cons s b',' [])
end_list-comma_list s (t ∷ texts) =
    let (b, y, e) = comma_list-some t texts in
    let ih : end_list (b ∷ y) ≡ some (join_shots (t ∷ texts)) =
      rw e at (end_list-comma_list t texts) in
    rw e (end_list-joined s b y _ ih)

keys-Serves :
    (k : ℕ) (ks : List Bytes) (r : Request)
    → ks ≢ []
    → HaveLength k ks
    → length ks * (k + 1) < 18446744073709551616
    → IsContract r
    → Serves
        (terminated ks)
        r
        (answer (size_t (length ks * (k + 1))) (write (end_list (comma_list ks))) r)
keys-Serves k [] r n h fits c = absurd (n refl)
keys-Serves k (key ∷ ks) r n h fits c =
    rw (end_list-comma_list key ks, ← join_shots-terminated key ks)
      (copy-Serves (join_shots (key ∷ ks)) _ r
        (mod-eq_of_lt fits ∙ sym (length-join_shots k key ks h)) c)

-- If the state vector has one amplitude for each index of that many qubits, at most 31, if one of
-- them is not zero and the size fits `size_t`, the keys of a sparse state vector and of sparse
-- probabilities are served as one text, with a comma between them and NUL at the end: each key has
-- a digit, 0 or 1, for each qubit, and read as binary numbers they are the indices of the amplitudes that
-- are not zero, in order. The logarithm of the vector's length is taken to be right.
pub get_results_sparse_keys-Serves :
    (fl : Float) (cs : List Amplitude) (qubits result : ℕ) (r : Request)
    → (result == JobResult.statevector_sparse_keys || result == JobResult.probabilities_sparse_keys)
      ≡ true
    → length cs ≡ 2 ^ qubits
    → fl.log2_cut (length cs) ≡ qubits
    → qubits ≤ 31
    → 0 < length (nonzero cs)
    → length (nonzero cs) * (qubits + 1) < 18446744073709551616
    → IsContract r
    → (keys : List Bytes) × HaveLength qubits keys
      × AreBinary keys
      × (map binary keys ≡ nonzero_indices cs)
      × Serves (terminated keys) r (get_results_sparse fl cs result r)
unfolding get_results_sparse
get_results_sparse_keys-Serves fl cs qubits result r asked full log few some_there fits c =
    let l = length-sparse_keys qubits 0 cs in
    let pos : 0 < length cs = rw full (one-le-pow qubits 2 (omega arith)) in
    let shifts : ltb 32 qubits ≡ false = ground arith in
    (
      sparse_keys qubits 0 cs,
      sparse_keys-HaveLength qubits 0 cs,
      sparse_keys-AreBinary qubits 0 cs,
      sparse_keys-indices qubits 0 cs (is_nonzero_at cs) few (omega (arith, full))
          (λ k h. ap (is_nonzero_at cs) (omega arith)),
      rw (get_results_sparse, log2-defined fl (length cs) pos, log, asked, shifts, ← l)
          (keys-Serves qubits (sparse_keys qubits 0 cs) r
            (λ e.
              (let z : length (sparse_keys qubits 0 cs) ≡ 0 = ap length e in
                omega (arith, z, l, some_there)))
            (sparse_keys-HaveLength qubits 0 cs) (rw l fits) c),
    )
