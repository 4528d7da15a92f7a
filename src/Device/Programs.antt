-- ===== src/Device/Programs.antt =====
-- The program list of a job in examples/device/src/cxx_device.cpp: set_programs, get_program and
-- get_program_status, with the tests on formats and programs.
pub mod Laws
pub mod Roundtrip
use qdmi.Base.{
  ℕ, zero, suc, ◌+◌, ◌-◌, ◌*◌, Bool, true, false, not, ◌&&◌, ◌||◌, Option, none, some, List, [],
  ◌∷◌, ◌++◌, ltb, leb, ◌==◌, if◌then◌else◌, length, take, get_elem?, is_empty,
}
use qdmi.Base.Bytes.{Bytes}
use qdmi.Constants.{
  Code, success, error_invalid_argument, error_bad_state, error_not_supported, error_out_of_mem,
  error_out_of_range, JobStatus, created,
}
use qdmi.Constants.ProgramFormat
use qdmi.Output.{Request, Reply, fail, succeed, answer, overwrite}
use qdmi.Device.State.{Job}
use qdmi.Device.Tables.{supported_program_formats}

-- `Valid_format`. A format is an unsigned number, so `format >= 0` always holds.
unfoldable pub valid_format : ℕ → Bool
valid_format format =
    ltb format ProgramFormat.max_value
    || (leb ProgramFormat.custom1 format && leb format ProgramFormat.custom5)

-- `std::ranges::find` in a constant array.
abbrev contains : ℕ → List ℕ → Bool
contains a [] = false
contains a (x ∷ xs) = a == x || contains a xs

-- `Supported_format`.
unfoldable pub supported_format : ℕ → Bool
supported_format format = contains format supported_program_formats

-- `format != QDMI_PROGRAM_FORMAT_QASM2 && format != QDMI_PROGRAM_FORMAT_QIRBASESTRING`, negated.
abbrev is_text_format : ℕ → Bool
is_text_format format = format == ProgramFormat.qasm2 || format == ProgramFormat.qirbasestring

-- `Valid_program`. The program is a pointer to bytes; `none` is a read past their end.
unfoldable pub valid_program : ℕ → ℕ → Option Bytes → Option Bool
valid_program format size none = some false
valid_program format size (some bytes) =
    if size == 0
    then some false
    else if not (is_text_format format)
    then some true
    else elim (get_elem? bytes (size - 1)) [
      | none ↦ none
      | some last ↦ some (last == 0 && not (contains 0 (take (size - 1) bytes)))
    ]

-- `new_programs.emplace_back(bytes, bytes + sizes[i])`: the copy of the program.
unfoldable pub copy_program : ℕ → Option Bytes → Option Bytes
copy_program size none = none
copy_program size (some bytes) = if ltb (length bytes) size then none else some (take size bytes)

-- How the loop of set_programs ends: with the list, with a status code, or undefined.
pub data Loaded : Type 0 where
  loaded : List Bytes → Loaded
  stopped : Code → Loaded
  undefined : Loaded

abbrev prepend : Bytes → Loaded → Loaded
prepend p (loaded ps) = loaded (p ∷ ps)
prepend p (stopped c) = stopped c
prepend p undefined = undefined

-- One round, by the test of the program, its copy, and whether the copy's allocation succeeds.
abbrev pub load_program : Option Bool → Option Bytes → Bool → Loaded → Loaded
load_program none copy allocated rest = undefined
load_program (some false) copy allocated rest = stopped error_invalid_argument
load_program (some true) none allocated rest = undefined
load_program (some true) (some bytes) false rest = stopped error_out_of_mem
load_program (some true) (some bytes) true rest = prepend bytes rest

-- The loop, with the rounds left and the index; `memory k` tells whether the allocation k of this
-- call succeeds. An array shorter than the count is read past its end.
unfoldable pub load_programs : (ℕ → Bool) → ℕ → ℕ → ℕ → List ℕ → List (Option Bytes) → Loaded
load_programs memory format zero i sizes programs = loaded []
load_programs memory format (suc n) i [] programs = undefined
load_programs memory format (suc n) i (size ∷ sizes) [] = undefined
load_programs memory format (suc n) i (size ∷ sizes) (program ∷ programs) =
    load_program (valid_program format size program) (copy_program size program) (memory (suc i))
      (load_programs memory format n (suc i) sizes programs)

-- `std::vector<std::vector<char>>::max_size()`, 24 bytes for each element.
abbrev pub max_programs : ℕ
max_programs = 384307168202282325

-- The `try` block: `reserve` throws for a count that no vector holds, and both exceptions are
-- caught.
unfoldable pub load_all : (ℕ → Bool) → ℕ → ℕ → List ℕ → List (Option Bytes) → Loaded
load_all memory format count sizes programs =
    if ltb max_programs count
    then stopped error_invalid_argument
    else if memory 0
    then load_programs memory format count 0 sizes programs
    else stopped error_out_of_mem

-- The two assignments at the end, made only if the whole list was loaded.
abbrev pub store_programs : Job → ℕ → Loaded → Option (Code × Option Job)
store_programs job format (loaded ps) =
    some (success, some (record job { format = format; programs = ps }))
store_programs job format (stopped c) = some (c, some job)
store_programs job format undefined = none

abbrev pub load_given :
    (ℕ → Bool)
    → Job
    → ℕ
    → ℕ
    → Option (List ℕ)
    → Option (List (Option Bytes))
    → Option (Code × Option Job)
load_given memory job format count sizes none = some (success, some job)
load_given memory job format count none (some programs) = some (error_invalid_argument, some job)
load_given memory job format count (some sizes) (some programs) =
    store_programs job format (load_all memory format count sizes programs)

abbrev pub is_created : JobStatus → Bool
is_created created = true
is_created _ = false

-- CXX_QDMI_device_job_set_programs; `none` is undefined behaviour.
unfoldable pub set_programs :
    (ℕ → Bool)
    → Option Job
    → ℕ
    → ℕ
    → Option (List ℕ)
    → Option (List (Option Bytes))
    → Option (Code × Option Job)
set_programs memory none format count sizes programs = some (error_invalid_argument, none)
set_programs memory (some job) format count sizes programs =
    if count == 0 || not (valid_format format)
    then some (error_invalid_argument, some job)
    else if not (is_created job.status)
    then some (error_bad_state, some job)
    else if not (supported_format format)
    then some (error_not_supported, some job)
    else load_given memory job format count sizes programs

abbrev pub get_program_in : List Bytes → ℕ → Request → Option Reply
get_program_in programs index r = elim (get_elem? programs index) [
  | none ↦ some (fail r error_out_of_range)
  | some program ↦ answer (length program) (overwrite program) r
]

-- CXX_QDMI_device_job_get_program.
unfoldable pub get_program : Option Job → ℕ → Request → Option Reply
get_program none index r = some (fail r error_invalid_argument)
get_program (some job) index r =
    if is_empty job.programs
    then some (fail r error_bad_state)
    else get_program_in job.programs index r

-- CXX_QDMI_device_job_get_program_status.
unfoldable pub get_program_status : Option Job → ℕ → Code
get_program_status none index = error_invalid_argument
get_program_status (some job) index =
    if is_empty job.programs
    then error_bad_state
    else if leb (length job.programs) index
    then error_out_of_range
    else error_not_supported
