-- ===== src/Device/Contracts/Reply.antt =====
-- What a query of examples/device/src/cxx_device.cpp that serves a value returns.
use qdmi.Base.{
  ℕ, ◌<◌, ◌≡◌, ◌==◌, inl, inr, true, false, Option, none, some, List, arith, All, All-lookup,
  lookup, length, Option-cases,
}
use qdmi.Base.Bytes.{Bytes}
use qdmi.Constants.{Code}
use qdmi.Output.{Request, Reply, is_empty_buffer}
use qdmi.Output.Serves.{Serves, size_query, too_small, filled}
use qdmi.Interface.{Documented, caused, succeeded, IsSmall}

-- The code of a query, unless it is undefined.
abbrev pub OfReply : (Code → Type 0) → Option Reply → Type 0
OfReply P none = Unit
OfReply P (some reply) = P reply.code

pub Serves-Documented :
    (Invalid : Type 0) (others : List Code) (payload : Bytes) (r : Request) (out : Option Reply)
    → ¬ Invalid
    → Serves payload r out
    → OfReply (Documented Invalid (IsSmall (some payload) r) others) out
Serves-Documented Invalid others payload r out fine (size_query n e) = rw e (succeeded fine)
Serves-Documented Invalid others payload r out fine (too_small buf v s e) =
    rw e (caused fine (buf, v, s))
Serves-Documented Invalid others payload r out fine (filled buf buf' v s e h) =
    rw e (succeeded fine)

-- A buffer of size 0 is smaller than any value of a table.
pub empty-IsSmall :
    (prop : ℕ) (table : List (ℕ × Bytes)) (r : Request)
    → All (λ (e : ℕ × Bytes). 0 < length e.1) table
    → is_empty_buffer r ≡ true
    → IsSmall (lookup prop table) r
empty-IsSmall prop table r full e = elim (Option-cases r.value) [
  | inl null ↦ (let no : false ≡ true = rw null at e in cc)
  | inr (buf, v) ↦
      let z : (r.size == 0) ≡ true = rw v at e in
      elim (Option-cases (lookup prop table)) [
        | inl nothing ↦ rw nothing (buf, v, ground arith)
        | inr (payload, found) ↦
            let p = All-lookup (λ (bs : Bytes). 0 < length bs) prop table full found in
            rw found (buf, v, ground (arith, p))
      ]
]
