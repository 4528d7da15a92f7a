-- ===== src/Template.antt =====
-- templates/device/src/my_device.cpp, the template of a device: every function is there, and all
-- but two return NOTIMPLEMENTED whatever they are given. Its sessions and jobs hold nothing, so a
-- handle to one is the flag whether it is not null; a pointer to an out-parameter that nothing is
-- written to is the flag whether it is not null, too.
mod Tests
use qdmi.Base.{
  ℕ, zero, ◌+◌, ◌<◌, ◌≡◌, ◌≢◌, refl, inl, inr, ◌⊎◌, Bool, true, false, not, Option, none, some,
  List, [], ◌∷◌, ◌++◌, ◌==◌, if◌then◌else◌, length, arith, length-append, Bool-cases,
}
use qdmi.Base.Bytes.{Bytes}
use qdmi.Constants.{Code, error_invalid_argument, error_not_supported, error_not_implemented}
use qdmi.Constants.DeviceProperty
use qdmi.Output.{Request, Reply, fail, answer, overwrite}
use qdmi.Output.Serves.{IsContract, Serves, copy-Serves}
use qdmi.Device.Query.{Operands}

-- MY_QDMI_device_initialize and MY_QDMI_device_finalize.
abbrev pub device_initialize : Code
device_initialize = error_not_implemented

abbrev device_finalize : Code
device_finalize = error_not_implemented

-- The functions on sessions; MY_QDMI_device_session_free does nothing.
abbrev session_alloc : Bool → Code
session_alloc out = error_not_implemented

abbrev session_init : Bool → Code
session_init session = error_not_implemented

abbrev session_free : Bool → Unit {0}
session_free session = tt

abbrev session_set_parameter : Bool → ℕ → ℕ → Option Bytes → Code
session_set_parameter session param size value = error_not_implemented

abbrev session_create_device_job : Bool → Bool → Code
session_create_device_job session out = error_not_implemented

abbrev session_retrieve_device_job_by_id : Bool → Option Bytes → Bool → Code
session_retrieve_device_job_by_id session job_id out = error_not_implemented

-- The functions on jobs; MY_QDMI_device_job_free does nothing.
abbrev job_free : Bool → Unit {0}
job_free job = tt

abbrev job_set_parameter : Bool → ℕ → ℕ → Option Bytes → Code
job_set_parameter job param size value = error_not_implemented

abbrev job_set_programs : Bool → ℕ → ℕ → Option (List ℕ) → Option (List (Option Bytes)) → Code
job_set_programs job format count sizes programs = error_not_implemented

abbrev job_get_program : Bool → ℕ → Request → Reply
job_get_program job index r = fail r error_not_implemented

abbrev pub job_get_program_status : Bool → ℕ → Bool → Code
job_get_program_status job index out =
    if not job then error_invalid_argument else error_not_supported

abbrev job_query_property : Bool → ℕ → Request → Reply
job_query_property job prop r = fail r error_not_implemented

abbrev job_submit : Bool → Code
job_submit job = error_not_implemented

abbrev job_cancel : Bool → Code
job_cancel job = error_not_implemented

abbrev job_check : Bool → Bool → Code
job_check job out = error_not_implemented

abbrev job_wait : Bool → ℕ → Code
job_wait job timeout = error_not_implemented

abbrev job_get_results : Bool → ℕ → ℕ → Request → Reply
job_get_results job index result r = fail r error_not_implemented

-- MY_QDMI_device_session_query_device_property; `id` is MY_QDMI_DEVICE_ID, which the build gives.
unfoldable pub query_device_property : Bytes → Bool → ℕ → Request → Option Reply
query_device_property id session prop r =
    if not session
    then some (fail r error_invalid_argument)
    else if not (prop == DeviceProperty.id)
    then some (fail r error_not_implemented)
    else answer (length id + 1) (overwrite (id ++ zero ∷ [])) r

abbrev query_site_property : Bool → ℕ → ℕ → Request → Reply
query_site_property session site prop r = fail r error_not_implemented

abbrev query_operation_property : Bool → ℕ → Operands → ℕ → Request → Reply
query_operation_property session op a prop r = fail r error_not_implemented

-- What the query of the device owes: its identifier, and nothing else.
abbrev pub Owes : Bytes → ℕ → Request → Option Reply → Type 0
Owes id prop r out =
    ((prop ≡ DeviceProperty.id) × Serves (id ++ zero ∷ []) r out)
    ⊎ ((prop ≢ DeviceProperty.id) × (out ≡ some (fail r error_not_implemented)))

-- With a session that is not null, the template serves the identifier of the build with its
-- terminator, whatever the size and the pointers, and refuses every other property with
-- NOTIMPLEMENTED.
pub query_device_property-Owes :
    (id : Bytes) (prop : ℕ) (r : Request)
    → IsContract r
    → Owes id prop r (query_device_property id true prop r)
unfolding query_device_property
query_device_property-Owes id prop r c = elim (Bool-cases (prop == DeviceProperty.id)) [
  | inl same ↦ rw same (
      inl (
        ground arith,
        copy-Serves (id ++ zero ∷ []) _ r (omega (arith, length-append id (zero ∷ []))) c,
      ))
  | inr other ↦ rw other (inr (ground arith, refl))
]
