-- ===== src/Device/Results/Counts.antt =====
-- What the branches of get_results of examples/device/src/cxx_device.cpp on the histogram write.
use native.Mathlib.Nat.{mod-eq_of_lt}
use qdmi.Base.{
  ℕ, ◌+◌, ◌*◌, ◌<◌, ◌≤◌, ◌≡◌, refl, sym, ◌∙◌, inl, inr, ltb, ltb→lt, not_ltb→le, Option, none, some,
  List, [], ◌∷◌, arith, length, length-map, Bool-cases, Option-cases,
}
use qdmi.Base.Bytes.{Bytes, encode_all, length-encode_all}
use qdmi.Constants.{error_invalid_argument}
use qdmi.Constants.JobResult
use qdmi.Output.{Request, Reply, succeed, fail, report, overwrite}
use qdmi.Output.Serves.{IsContract, Holds, overwrite-Holds}
use qdmi.Device.Results.Histogram.{Hist, count_shot, histogram_from, histogram, keys, counts}
use qdmi.Device.Results.{
  size_t, answer_size_first, hist_keys, front_length, join_shots, get_results_hist,
}
use qdmi.Device.Results.Laws.{HaveLength, length-join_shots}
use qdmi.Device.Results.Keys.{end_list-comma_list}

count_shot-HaveLength :
    (k : ℕ) (shot : Bytes) (hist : Hist)
    → length shot ≡ k
    → HaveLength k (keys hist)
    → HaveLength k (keys (count_shot shot hist))
unfolding count_shot
count_shot-HaveLength k shot [] e h = (e, tt)
count_shot-HaveLength k shot ((key, n) ∷ hist) e h =
    ground (arith, count_shot-HaveLength k shot hist)

histogram_from-HaveLength :
    (k : ℕ) (shots : List Bytes) (hist : Hist)
    → HaveLength k shots
    → HaveLength k (keys hist)
    → HaveLength k (keys (histogram_from hist shots))
unfolding histogram_from
histogram_from-HaveLength k [] hist h g = g
histogram_from-HaveLength k (s ∷ shots) hist h g =
    histogram_from-HaveLength k shots (count_shot s hist) h.1 (count_shot-HaveLength k s hist h.0 g)

-- What the two branches on the histogram owe to their caller: as for the other results, but the size
-- is reported to a buffer that is too small, too.
pub data Reports (payload : Bytes) (r : Request) (out : Option Reply) : Type 0 where
  size_asked : r.value ≡ none → out ≡ some (succeed r (length payload) none) → Reports payload r out
  refused :
      (buf : Bytes)
      → r.value ≡ some buf
      → r.size < length payload
      → out ≡ some (record (fail r error_invalid_argument) { size_ret = report r (length payload) })
      → Reports payload r out
  copied :
      (buf buf' : Bytes)
      → r.value ≡ some buf
      → length payload ≤ r.size
      → out ≡ some (succeed r (length payload) (some buf'))
      → Holds payload r.size buf'
      → Reports payload r out

copy-Reports :
    (payload : Bytes) (n : ℕ) (r : Request)
    → n ≡ length payload
    → IsContract r
    → Reports payload r (answer_size_first n (overwrite payload) r)
copy-Reports payload n r e h = elim (Option-cases r.value) [
  | inl null ↦ size_asked null (rw (null, e))
  | inr (buf, v) ↦
      let fits : length buf ≡ r.size = rw v at h in
      elim (Bool-cases (ltb r.size n)) [
        | inl small ↦ refused buf v (omega (arith, ltb→lt _ _ small, e)) (rw (v, small, e))
        | inr room ↦
            let enough : length payload ≤ r.size = omega (arith, not_ltb→le _ _ room, e) in
            let (buf', f, holds) = overwrite-Holds payload buf r.size fits enough in
            copied buf buf' v enough (rw (v, room, f, e)) holds
      ]
]

nothing-Reports : (r : Request) → IsContract r → Reports [] r (some (succeed r 0 r.value))
nothing-Reports r h = elim (Option-cases r.value) [
  | inl null ↦ size_asked null (rw null)
  | inr (buf, v) ↦
      let fits : length buf ≡ r.size = rw v at h in
      copied buf buf v (omega arith) (rw v) (record { same_length = fits; starts = refl })
]

hist_keys-Reports :
    (k : ℕ) (shots ks : List Bytes) (r : Request)
    → front_length shots ≡ k
    → HaveLength k ks
    → length ks * (k + 1) < 18446744073709551616
    → IsContract r
    → Reports (join_shots ks) r (hist_keys shots ks r)
unfolding join_shots
hist_keys-Reports k shots [] r e h fits c = nothing-Reports r c
hist_keys-Reports k shots (key ∷ ks) r e h fits c =
    let size : size_t (length (key ∷ ks) * (front_length shots + 1))
        ≡ length (join_shots (key ∷ ks)) =
      rw e (mod-eq_of_lt fits ∙ sym (length-join_shots k key ks h)) in
    rw (end_list-comma_list key ks) (copy-Reports (join_shots (key ∷ ks)) _ r size c)

keys-Reports :
    (k : ℕ) (shots : List Bytes) (r : Request)
    → HaveLength k shots
    → length (histogram shots) * (k + 1) < 18446744073709551616
    → IsContract r
    → Reports (join_shots (keys (histogram shots))) r (hist_keys shots (keys (histogram shots)) r)
unfolding histogram_from join_shots
keys-Reports k [] r h fits c = nothing-Reports r c
keys-Reports k (s ∷ shots) r h fits c =
    let all = histogram (s ∷ shots) in
    let l : length (keys all) ≡ length all = length-map (λ (e : Bytes × ℕ). e.0) all in
    hist_keys-Reports k (s ∷ shots) (keys all) r h.0
      (histogram_from-HaveLength k (s ∷ shots) [] h tt) (rw l fits) c

-- For shots of one length, as long as the sizes fit `size_t`, the keys of the histogram are reported
-- as one text, with a comma between them and NUL at the end, and its values as one `size_t` for
-- each key, in the order of the keys.
pub get_results_hist-Reports :
    (k : ℕ) (shots : List Bytes) (r : Request)
    → HaveLength k shots
    → length (histogram shots) * (k + 1) < 18446744073709551616
    → length (histogram shots) * 8 < 18446744073709551616
    → IsContract r
    → Reports (join_shots (keys (histogram shots))) r (get_results_hist shots JobResult.hist_keys r)
      × Reports
          (encode_all 8 (counts (histogram shots)))
          r
          (get_results_hist shots JobResult.hist_values r)
unfolding get_results_hist
get_results_hist-Reports k shots r h keys_fit values_fit c = (
  keys-Reports k shots r h keys_fit c,
  copy-Reports (encode_all 8 (counts (histogram shots))) _ r
      (omega (
        arith,
        length-encode_all 8 (counts (histogram shots)),
        length-map (λ (e : Bytes × ℕ). e.1) (histogram shots),
      ))
      c,
)
