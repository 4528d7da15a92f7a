-- ===== src/Fomac/Reading.antt =====
-- What the class FoMaC of examples/fomac/example_fomac.cpp reads from queries that serve a value.
use qdmi.Base.{
  ℕ, suc, ◌*◌, ◌/◌, ◌^◌, ◌<◌, ◌≡◌, refl, ap, sym, ◌∙◌, true, false, Option, none, some, List, [],
  ◌∷◌, ◌++◌, arith, length, replicate, All, take-length, take-append, take_first, drop_first,
  get_elem?-append_length, length-append, length-replicate,
}
use qdmi.Base.Bytes.{Bytes, encode, encode_all, decode-encode, length-encode, length-encode_all}
use qdmi.Output.{Request, Reply}
use qdmi.Output.Serves.{IsContract, Serves, size_query, too_small, filled, Holds}
use qdmi.Fomac.{
  ok, throw_if_error, read_value, read_size, read_vector, read_list, string_of, read_string,
  read_number, decode_all,
}

-- The query serves one value, whatever it is asked for by.
abbrev pub IsServing : Bytes → (Request → Option Reply) → Type 0
IsServing payload query = (r : Request) → IsContract r → Serves payload r (query r)

size-Serves :
    (payload : Bytes) (query : Request → Option Reply) (message : Bytes)
    → let r : Request = record { size = 0; value = none; size_ret = true } in
      Serves payload r (query r) → read_size query message ≡ ok (length payload)
unfolding read_size throw_if_error
size-Serves payload query message (size_query n e) = rw (read_size, e)
size-Serves payload query message (too_small buf v s e) = cc
size-Serves payload query message (filled buf buf' v s e h) = cc

Holds-eq : (payload buf : Bytes) → Holds payload (length payload) buf → buf ≡ payload
Holds-eq payload buf h = sym (take-length buf) ∙ (rw h.same_length h.starts)

value-Serves :
    (payload : Bytes) (query : Request → Option Reply) (n : ℕ) (message : Bytes)
    → n ≡ length payload
    → let r : Request = record { size = n; value = some (replicate n 0); size_ret = false } in
      Serves payload r (query r) → read_value query n n message ≡ ok payload
unfolding read_value throw_if_error
value-Serves payload query n message l (size_query v e) = cc
value-Serves payload query n message l (too_small buf v s e) = absurd (omega arith)
value-Serves payload query n message l (filled buf buf' v s e h) =
    let same : buf' ≡ payload = Holds-eq payload buf' (rw (← l) h) in rw (read_value, e, same)

pub read_size-IsServing :
    (payload : Bytes) (query : Request → Option Reply) (message : Bytes)
    → IsServing payload query
    → read_size query message ≡ ok (length payload)
read_size-IsServing payload query message h =
    size-Serves payload query message (h (record { size = 0; value = none; size_ret = true }) tt)

pub read_value-IsServing :
    (payload : Bytes) (query : Request → Option Reply) (n : ℕ) (message : Bytes)
    → n ≡ length payload
    → IsServing payload query
    → read_value query n n message ≡ ok payload
read_value-IsServing payload query n message l h =
    value-Serves payload query n message l (
      h (record { size = n; value = some (replicate n 0); size_ret = false })
        (length-replicate n 0))

-- A number of eight bytes is read as it was served.
pub read_number-IsServing :
    (n : ℕ) (query : Request → Option Reply) (message : Bytes)
    → n < 2 ^ 64
    → IsServing (encode 8 n) query
    → read_number query message ≡ ok n
unfolding read_number
read_number-IsServing n query message small h = rw (
  read_value-IsServing (encode 8 n) query 8 message (sym (length-encode 8 n)) h,
  decode-encode 8 n (omega (arith, small)),
)

string_of-append : (s : Bytes) → string_of (length s) (s ++ 0 ∷ []) ≡ ok s
string_of-append s = rw (string_of, get_elem?-append_length s 0 [], take-append s (0 ∷ []))

-- A text is read without its terminator.
pub read_string-IsServing :
    (s : Bytes) (query : Request → Option Reply) (size_message message : Bytes)
    → IsServing (s ++ 0 ∷ []) query
    → read_string query size_message message ≡ ok s
unfolding read_string
read_string-IsServing s query size_message message h =
    let l : length (s ++ 0 ∷ []) ≡ suc (length s) = omega (arith, length-append s (0 ∷ [])) in
    rw
      (
        read_size-IsServing (s ++ 0 ∷ []) query size_message h,
        l,
        read_value-IsServing (s ++ 0 ∷ []) query (suc (length s)) message (sym l) h,
      )
      (string_of-append s)

decode_all-encode_all :
    (w : ℕ) (ns : List ℕ)
    → All (λ (n : ℕ). n < 256 ^ w) ns
    → decode_all w (length ns) (encode_all w ns) ≡ ns
unfolding decode_all encode_all
decode_all-encode_all w [] h = refl
decode_all-encode_all w (n ∷ ns) h =
    rw
      (
        take_first w (encode w n) (encode_all w ns) (sym (length-encode w n)),
        drop_first w (encode w n) (encode_all w ns) (sym (length-encode w n)),
        decode-encode w n h.0,
      )
      (ap (λ (ms : List ℕ). n ∷ ms) (decode_all-encode_all w ns h.1))

whole : (w n : ℕ) → 0 < w → (n * w) / w ≡ n
whole w n h = grind arith

null-Serves :
    (payload : Bytes) (query : Request → Option Reply) (w n : ℕ) (message : Bytes)
    → let r : Request = record { size = n; value = none; size_ret = false } in
      Serves payload r (query r) → read_vector query w n 0 message ≡ ok []
unfolding throw_if_error
null-Serves payload query w n message (size_query v e) = rw (read_vector, e)
null-Serves payload query w n message (too_small buf v s e) = cc
null-Serves payload query w n message (filled buf buf' v s e h) = cc

pub read_vector-IsServing :
    (w : ℕ) (ns : List ℕ) (query : Request → Option Reply) (message : Bytes)
    → All (λ (n : ℕ). n < 256 ^ w) ns
    → IsServing (encode_all w ns) query
    → read_vector query w (length ns * w) (length ns) message ≡ ok ns
read_vector-IsServing w [] query message small h =
    null-Serves (encode_all w []) query w (0 * w) message
      (h (record { size = 0 * w; value = none; size_ret = false }) tt)
read_vector-IsServing w (n ∷ ns) query message small h = rw (
  read_value-IsServing (encode_all w (n ∷ ns)) query (suc (length ns) * w) message
      (sym (length-encode_all w (n ∷ ns))) h,
  decode_all-encode_all w (n ∷ ns) small,
)

-- A list is read as it was served, if its elements fit their w bytes.
pub read_list-IsServing :
    (w : ℕ) (ns : List ℕ) (query : Request → Option Reply) (size_message message : Bytes)
    → 0 < w
    → All (λ (n : ℕ). n < 256 ^ w) ns
    → IsServing (encode_all w ns) query
    → read_list query w size_message message ≡ ok ns
unfolding read_list
read_list-IsServing w ns query size_message message p small h =
    rw
      (
        read_size-IsServing (encode_all w ns) query size_message h,
        length-encode_all w ns,
        whole w (length ns) p,
      )
      (read_vector-IsServing w ns query message small h)
