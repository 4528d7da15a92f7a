-- ===== src/Output/Serves.antt =====
-- What a query owes to its caller: it serves a fixed string of bytes, its payload.
use mathlib.Core.Option.{some-injective}
use mathlib.Core.Path.{subst}
use mathlib.Core.Bool.{false≢true}
use qdmi.Base.{
  true, ◌∙◌, ℕ, ◌*◌, ◌≤◌, ◌<◌, ◌≡◌, refl, Option, none, some, List, ◌∷◌, ◌++◌, ◌==◌, arith, ltb,
  lookup, length, take, drop, length-append, length-drop, take-append, Bool-cases, ltb→lt,
  not_ltb→le, sym, inl, inr, Option-cases,
}
use qdmi.Base.Bytes.{Bytes, encode_all, length-encode_all}
use qdmi.Constants.{error_invalid_argument, error_not_supported}
use qdmi.Output.{
  Request, Reply, fail, is_empty_buffer, succeed, overwrite, answer, add_single_value_property,
  add_list_property,
}

-- The caller's side of the contract: the buffer has the size that is passed.
abbrev pub FitsValue : ℕ → Option Bytes → Type 0
FitsValue size none = Unit
FitsValue size (some buf) = length buf ≡ size

abbrev pub IsContract : Request → Type 0
IsContract r = FitsValue r.size r.value

-- A buffer of the same length that begins with the payload.
pub record Holds (payload : Bytes) (size : ℕ) (buf : Bytes) : Type 0 where
  pub same_length : length buf ≡ size
  pub starts : take (length payload) buf ≡ payload

-- A query with a null pointer succeeds and reports the payload's size; a buffer that is too small
-- is refused and left alone; any other begins with the payload afterwards, and the size is
-- reported.
pub data Serves (payload : Bytes) (r : Request) (out : Option Reply) : Type 0 where
  size_query : r.value ≡ none → out ≡ some (succeed r (length payload) none) → Serves payload r out
  too_small :
      (buf : Bytes)
      → r.value ≡ some buf
      → r.size < length payload
      → out ≡ some (fail r error_invalid_argument)
      → Serves payload r out
  filled :
      (buf buf' : Bytes)
      → r.value ≡ some buf
      → length payload ≤ r.size
      → out ≡ some (succeed r (length payload) (some buf'))
      → Holds payload r.size buf'
      → Serves payload r out

-- The answer to a property that has a payload or none.
pub data Answers (spec : Option Bytes) (r : Request) (out : Option Reply) : Type 0 where
  refused : spec ≡ none → out ≡ some (fail r error_not_supported) → Answers spec r out
  served : (payload : Bytes) → spec ≡ some payload → Serves payload r out → Answers spec r out

pub Answers-some :
    {spec : Option Bytes} {payload : Bytes} {r : Request} {out : Option Reply}
    → Answers spec r out
    → spec ≡ some payload
    → Serves payload r out
Answers-some (refused a _) e = cc
Answers-some {r} {out} (served p a s) e =
    subst (λ x. Serves x r out) (some-injective _ _ (sym a ∙ e)) s

pub Answers-none :
    {spec : Option Bytes} {r : Request} {out : Option Reply}
    → Answers spec r out
    → spec ≡ none
    → out ≡ some (fail r error_not_supported)
Answers-none (refused _ o) e = o
Answers-none (served p a s) e = cc

-- The guard that the queries share, `value != nullptr && size == 0`, refuses what does not fit.
pub empty_buffer-Serves :
    (payload : Bytes) (r : Request)
    → 0 < length payload
    → is_empty_buffer r ≡ true
    → Serves payload r (some (fail r error_invalid_argument))
empty_buffer-Serves payload r p e = elim (Option-cases r.value) [
  | inl null ↦ absurd (false≢true (rw null at e))
  | inr (buf, v) ↦ let z : (r.size == 0) ≡ true = rw v at e in too_small buf v (ground arith) refl
]

module _ (payload : Bytes) (n : ℕ) (fill : Bytes → Option Bytes) (r : Request) where
  answer_value-Serves :
      n ≡ length payload
      → (buf : Bytes) → r.value ≡ some buf
      → length buf ≡ r.size
      → (n ≤ r.size → (buf' : Bytes) × (fill buf ≡ some buf') × Holds payload r.size buf')
      → Serves payload r (answer n fill r)
  unfolding answer
  answer_value-Serves e buf v h k = elim (Bool-cases (ltb r.size n)) [
    | inl small ↦ too_small buf v (omega (arith, ltb→lt _ _ small)) (rw (v, small))
    | inr fits ↦
        let (buf', f, holds) = k (not_ltb→le _ _ fits) in
        filled buf buf' v (omega (arith, not_ltb→le _ _ fits)) (rw (v, fits, f, e)) holds
  ]

  -- A way to fill the buffer that always leaves the payload at its start serves the payload.
  pub answer-Serves :
      n ≡ length payload
      → IsContract r
      → ((buf : Bytes)
          → length buf ≡ r.size
          → n ≤ r.size
          → (buf' : Bytes) × (fill buf ≡ some buf') × Holds payload r.size buf')
      → Serves payload r (answer n fill r)
  unfolding answer
  answer-Serves e h k = elim (Option-cases r.value) [
    | inl null ↦ size_query null (rw (null, e))
    | inr (buf, v) ↦
        let fits : length buf ≡ r.size = rw v at h in answer_value-Serves e buf v fits (k buf fits)
  ]

pub overwrite-Holds :
    (bs buf : Bytes) (size : ℕ)
    → length buf ≡ size
    → length bs ≤ size
    → (buf' : Bytes) × (overwrite bs buf ≡ some buf') × Holds bs size buf'
unfolding overwrite
overwrite-Holds bs buf size e h = (
  bs ++ drop (length bs) buf,
  ground arith,
  record {
    same_length =
        omega (arith, length-append bs (drop (length bs) buf), length-drop (length bs) buf);
    starts = take-append bs (drop (length bs) buf);
  },
)

-- A query that copies a fixed payload serves it, if it computes the payload's length.
pub copy-Serves :
    (bs : Bytes) (n : ℕ) (r : Request)
    → n ≡ length bs
    → IsContract r
    → Serves bs r (answer n (overwrite bs) r)
copy-Serves bs n r e h =
    answer-Serves bs n (overwrite bs) r e h
      (λ buf f le. overwrite-Holds bs buf r.size f (omega arith))

module _ (name prop : ℕ) (r : Request) (rest : Option Reply) (table : List (ℕ × Bytes)) where
  pub single-Answers :
      (bytes : Bytes)
      → IsContract r
      → Answers (lookup prop table) r rest
      → Answers
          (lookup prop ((name, bytes) ∷ table))
          r
          (add_single_value_property name bytes prop r rest)
  unfolding add_single_value_property lookup
  single-Answers bytes h k = elim (Bool-cases (prop == name)) [
    | inl same ↦ rw same (
        served bytes refl (
          answer-Serves bytes (length bytes) (overwrite bytes) r refl h
            (λ buf e le. overwrite-Holds bytes buf r.size e le)))
    | inr other ↦ rw other k
  ]

  pub list-Answers :
      (w : ℕ) (values : List ℕ)
      → IsContract r
      → Answers (lookup prop table) r rest
      → Answers
          (lookup prop ((name, (encode_all w values)) ∷ table))
          r
          (add_list_property name w values prop r rest)
  unfolding add_list_property lookup
  list-Answers w values h k =
      let bytes = encode_all w values in
      let e : length values * w ≡ length bytes = sym (length-encode_all w values) in
      elim (Bool-cases (prop == name)) [
        | inl same ↦ rw same (
            served bytes refl (
              answer-Serves bytes (length values * w) (overwrite bytes) r e h
                (λ buf f le. overwrite-Holds bytes buf r.size f (omega arith))))
        | inr other ↦ rw other k
      ]
