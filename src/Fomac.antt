-- ===== src/Fomac.antt =====
-- examples/fomac/example_fomac.cpp, the example library of figures of merit and constraints: the
-- class FoMaC, a client that reads the properties of one device. The three queries of the client
-- interface for that device are parameters. Every getter asks for a value of known size, or first
-- for the size and then for the value. An exception carries the text that it was thrown with. The
-- memory of the client is assumed to suffice.
pub mod Reading
pub mod Reference
pub mod Getters
pub mod Sample
mod Tests
use qdmi.Base.{
  ℕ, zero, suc, ◌+◌, ◌-◌, ◌*◌, ◌/◌, ◌%◌, Bool, true, false, not, Option, none, some, List, [], ◌∷◌,
  ◌==◌, if◌then◌else◌, is_empty, length, take, drop, replicate, get_elem?,
}
use Prim.Native.Nat.{Ordering}
use qdmi.Base.Bytes.{Bytes, text, decode}
use qdmi.Constants.{
  Code, success, warn_general, error_fatal, error_out_of_mem, error_not_implemented,
  error_lib_not_found, error_not_found, error_out_of_range, error_invalid_argument,
  error_permission_denied, error_not_supported,
}
use qdmi.Constants.DeviceProperty
use qdmi.Constants.SiteProperty
use qdmi.Constants.OperationProperty
use qdmi.Output.{Request, Reply}
use qdmi.Device.Query.{Operands}
use qdmi.Device.Results.Histogram.{compare_text}

-- The exceptions that the class throws.
pub data Exception : Type 0 where
  invalid_argument runtime_error out_of_range : Bytes → Exception
  bad_alloc length_error : Exception

-- How a member function ends; `undefined` is undefined behaviour.
pub data Result {ℓ} (A : Type ℓ) : Type ℓ where
  ok : A → Result A
  threw : Exception → Result A
  undefined : Result A

infixl 5 ◌>>=◌ ◌>>◌
abbrev pub ◌>>=◌ {ℓ κ} : {A : Type ℓ} {B : Type κ} → Result A → (A → Result B) → Result B
ok a >>= f = f a
threw e >>= f = threw e
undefined >>= f = undefined

abbrev pub ◌>>◌ {ℓ} : {B : Type ℓ} → Result (Unit {0}) → Result B → Result B
m >> k = m >>= λ _. k

-- The texts for a status without a message; a status that none of the tests names is let pass.
abbrev pub throw_default : Code → Result (Unit {0})
throw_default error_fatal = threw (runtime_error (text "A fatal error."))
throw_default error_out_of_mem = threw bad_alloc
throw_default error_not_implemented = threw (runtime_error (text "Not implemented."))
throw_default error_lib_not_found = threw (runtime_error (text "Library not found."))
throw_default error_not_found = threw (runtime_error (text "Element not found."))
throw_default error_out_of_range = threw (out_of_range (text "Out of range."))
throw_default error_invalid_argument = threw (invalid_argument (text "Invalid argument."))
throw_default error_permission_denied = threw (runtime_error (text "Permission denied."))
throw_default error_not_supported = threw (runtime_error (text "Operation is not supported."))
throw_default _ = ok tt

abbrev pub throw_message : Code → Bytes → Result (Unit {0})
throw_message error_invalid_argument message = threw (invalid_argument message)
throw_message _ message = threw (runtime_error message)

-- FoMaC::throw_if_error; a warning is only printed.
unfoldable pub throw_if_error : Code → Bytes → Result (Unit {0})
throw_if_error success message = ok tt
throw_if_error warn_general message = ok tt
throw_if_error c message =
    if not (is_empty message) then throw_message c message else throw_default c

-- The queries of include/qdmi/client.h for one device.
pub record Queries : Type 0 where
  pub device : ℕ → Request → Option Reply
  pub site : ℕ → ℕ → Request → Option Reply
  pub operation : ℕ → Operands → ℕ → Request → Option Reply

-- A value of `size` bytes read into a buffer of the client's, which holds `room` bytes, all 0.
abbrev pub buffer_of : Code → Option Bytes → Bytes → Result Bytes
buffer_of c none message = undefined
buffer_of c (some buf) message = throw_if_error c message >> ok buf

unfoldable pub read_value : (Request → Option Reply) → ℕ → ℕ → Bytes → Result Bytes
read_value query size room message =
    elim (query (record { size = size; value = some (replicate room 0); size_ret = false })) [
      | none ↦ undefined
      | some reply ↦ buffer_of reply.code reply.value message
    ]

-- The size that a query with a null pointer reports; the variable starts at 0.
abbrev pub reported : Option ℕ → ℕ
reported none = 0
reported (some n) = n

unfoldable pub read_size : (Request → Option Reply) → Bytes → Result ℕ
read_size query message = elim (query (record { size = 0; value = none; size_ret = true })) [
  | none ↦ undefined
  | some reply ↦ throw_if_error reply.code message >> ok (reported reply.size_ret)
]

-- The elements of a vector of w bytes each, in n elements.
unfoldable pub decode_all : ℕ → ℕ → Bytes → List ℕ
decode_all w zero bytes = []
decode_all w (suc n) bytes = decode (take w bytes) ∷ decode_all w n (drop w bytes)

-- A list: its size, and then a vector of as many whole elements. The vector's storage may be
-- smaller than the size that is passed, and an empty vector has a null pointer.
abbrev pub read_vector : (Request → Option Reply) → ℕ → ℕ → ℕ → Bytes → Result (List ℕ)
read_vector query w size zero message =
    elim (query (record { size = size; value = none; size_ret = false })) [
      | none ↦ undefined
      | some reply ↦ throw_if_error reply.code message >> ok []
    ]
read_vector query w size (suc n) message = do
  let bytes = (← read_value query size (suc n * w) message)
  ok (decode_all w (suc n) bytes)

unfoldable pub read_list : (Request → Option Reply) → ℕ → Bytes → Bytes → Result (List ℕ)
read_list query w size_message message =
    read_size query size_message >>= λ size. read_vector query w size (size / w) message

-- A text: its size with the terminator, and then a string of one less, whose terminator may only
-- be overwritten by itself. For the size 0 the length of the string wraps and it throws.
abbrev pub string_of : ℕ → Bytes → Result Bytes
string_of n bytes = elim (get_elem? bytes n) [
  | none ↦ undefined
  | some last ↦ if last == 0 then ok (take n bytes) else undefined
]

abbrev pub read_text : (Request → Option Reply) → ℕ → Bytes → Result Bytes
read_text query zero message = threw length_error
read_text query (suc n) message =
    read_value query (suc n) (suc n) message >>= λ bytes. string_of n bytes

unfoldable pub read_string : (Request → Option Reply) → Bytes → Bytes → Result Bytes
read_string query size_message message =
    read_size query size_message >>= λ size. read_text query size message

unfoldable pub read_number : (Request → Option Reply) → Bytes → Result ℕ
read_number query message = read_value query 8 8 message >>= λ bytes. ok (decode bytes)
