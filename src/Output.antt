-- ===== src/Output.antt =====
-- The output parameters `size`, `value`, `size_ret` that every query of the interface shares, and
-- the three macros of examples/device/src/cxx_device.cpp that fill them:
-- ADD_SINGLE_VALUE_PROPERTY, ADD_STRING_PROPERTY and ADD_LIST_PROPERTY.
-- A buffer is the list of its bytes. A write past its end, or any other undefined behaviour, is
-- `none`. `size_t`, pointers and `double` take eight bytes and an enumeration four, as on the
-- 64-bit platforms that the project builds for; integers lie low byte first.
pub mod Serves
pub mod Strings
use mathlib.Core.Option
use qdmi.Base.{
  ℕ, ◌+◌, ◌-◌, ◌*◌, Bool, Option, none, some, true, false, List, [], ◌∷◌, ◌++◌, ltb, leb, ◌==◌,
  if◌then◌else◌, length, take, drop, replicate,
}
use qdmi.Base.Bytes.{Bytes, encode_all}
use qdmi.Constants.{Code, success, error_invalid_argument}

-- What the caller passes: the size, the buffer or a null pointer, and whether `size_ret` points
-- somewhere.
pub record Request : Type 0 where
  pub size : ℕ
  pub value : Option Bytes
  pub size_ret : Bool

-- What the caller has afterwards: the status code, the buffer, and what `size_ret` was set to.
pub record Reply : Type 0 where
  pub code : Code
  pub value : Option Bytes
  pub size_ret : Option ℕ

-- An early return that writes nothing.
abbrev pub fail : Request → Code → Reply
fail r c = record { code = c; value = r.value; size_ret = none }

-- `if (size_ret != nullptr) { *size_ret = n; }`
abbrev pub report : Request → ℕ → Option ℕ
report r n = if r.size_ret then some n else none

abbrev pub succeed : Request → ℕ → Option Bytes → Reply
succeed r n v = record { code = success; value = v; size_ret = report r n }

-- `value != nullptr && size == 0`
abbrev pub is_empty_buffer : Request → Bool
is_empty_buffer r = elim r.value [ none ↦ false | some buf ↦ r.size == 0 ]

-- `memcpy` to the start of a buffer.
unfoldable pub overwrite : Bytes → Bytes → Option Bytes
overwrite bs buf = if leb (length bs) (length buf) then some (bs ++ drop (length bs) buf) else none

-- The shape of every query: nothing is written through a null pointer, a buffer is refused if its
-- size is below n, and is filled otherwise; then the size is reported.
unfoldable pub answer : ℕ → (Bytes → Option Bytes) → Request → Option Reply
answer n fill r = elim r.value [
  | none ↦ some (succeed r n none)
  | some buf ↦
      if ltb r.size n
      then some (fail r error_invalid_argument)
      else Option.map (λ buf'. succeed r n (some buf')) (fill buf)
]

-- ADD_SINGLE_VALUE_PROPERTY: `bytes` is the value in memory, so its length is the type's size.
unfoldable pub add_single_value_property : ℕ → Bytes → ℕ → Request → Option Reply → Option Reply
unfolding answer overwrite
add_single_value_property prop_name bytes prop r rest =
    if prop == prop_name then answer (length bytes) (overwrite bytes) r else rest

-- `strncpy(value, s, size)`: at most `size` bytes of the text, then NUL up to `size`.
unfoldable pub strncpy : Bytes → ℕ → Bytes
strncpy s size = take size s ++ replicate (size - length s) 0

-- `value[size - 1] = '\0'`
unfoldable pub terminate : ℕ → Bytes → Bytes
terminate size buf = take (size - 1) buf ++ 0 ∷ drop size buf

-- The two statements of ADD_STRING_PROPERTY that write.
unfoldable pub fill_string : Bytes → ℕ → Bytes → Option Bytes
unfolding overwrite strncpy terminate
fill_string s size buf = Option.map (terminate size) (overwrite (strncpy s size) buf)

unfoldable pub add_string_property : ℕ → Bytes → ℕ → Request → Option Reply → Option Reply
unfolding answer fill_string
add_string_property prop_name s prop r rest =
    if prop == prop_name then answer (length s + 1) (fill_string s r.size) r else rest

-- ADD_LIST_PROPERTY, for elements of `w` bytes.
unfoldable pub add_list_property : ℕ → ℕ → List ℕ → ℕ → Request → Option Reply → Option Reply
unfolding answer overwrite encode_all
add_list_property prop_name w values prop r rest =
    if prop == prop_name
    then answer (length values * w) (overwrite (encode_all w values)) r
    else rest
