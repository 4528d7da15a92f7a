-- ===== src/Interface.antt =====
-- What the comments of include/qdmi/device.h document of the status that each function of a device
-- returns. A handle is `none` if it is null; a pointer to an out-parameter is the flag whether it is
-- not null.
use qdmi.Base.{ℕ, ◌<◌, ◌≡◌, ◌≢◌, ◌⊎◌, Bool, true, false, Option, none, some, List, [], ◌∷◌, length}
use qdmi.Base.Bytes.{Bytes}
use qdmi.Constants.{
  Code, success, error_fatal, error_out_of_mem, error_not_supported, error_invalid_argument,
  error_bad_state, error_permission_denied, error_out_of_range, error_timeout, JobStatus, done,
  is_invalid_enum_value,
}
use qdmi.Constants.DeviceSessionParameter
use qdmi.Constants.DeviceProperty
use qdmi.Constants.SiteProperty
use qdmi.Constants.DeviceJobParameter
use qdmi.Constants.DeviceJobProperty
use qdmi.Output.{Request}

-- One of the codes of a list.
abbrev pub Listed : Code → List Code → Type 0
Listed c [] = ⊥
Listed c (d ∷ codes) = (c ≡ d) ⊎ Listed c codes

-- The codes that a function may return: INVALIDARGUMENT where the arguments are invalid, and for a
-- further documented cause; SUCCESS and the other documented codes only for valid arguments.
pub data Documented (Invalid Cause : Type 0) (others : List Code) : Code → Type 0 where
  invalid : Invalid → Documented Invalid Cause others error_invalid_argument
  caused : ¬ Invalid → Cause → Documented Invalid Cause others error_invalid_argument
  succeeded : ¬ Invalid → Documented Invalid Cause others success
  reported : (c : Code) → ¬ Invalid → Listed c others → Documented Invalid Cause others c

-- A value that is given with the size 0.
abbrev pub IsEmptyValue : ℕ → Option Bytes → Type 0
IsEmptyValue size none = ⊥
IsEmptyValue size (some bytes) = size ≡ 0

-- A value that is given with another size than the one that is specified for the parameter.
abbrev pub IsUnexpected : Option ℕ → ℕ → Option Bytes → Type 0
IsUnexpected (some expected) size (some bytes) = size ≢ expected
IsUnexpected _ size _ = ⊥

-- A buffer that is given and is smaller than the data being queried, `none` where there is none.
abbrev pub IsSmall : Option Bytes → Request → Type 0
IsSmall none r = (buf : Bytes) × (r.value ≡ some buf) × (r.size ≡ 0)
IsSmall (some payload) r = (buf : Bytes) × (r.value ≡ some buf) × (r.size < length payload)

-- QDMI_device_initialize.
abbrev pub DeviceInitialize : Code → Type 0
DeviceInitialize = Documented ⊥ ⊥ (error_fatal ∷ [])

-- QDMI_device_finalize.
abbrev pub DeviceFinalize : Code → Type 0
DeviceFinalize = Documented ⊥ ⊥ (error_fatal ∷ [])

-- QDMI_device_session_set_parameter; no size is specified for any of its parameters.
abbrev pub SessionSetParameter : {S : Type 0} → Option S → ℕ → ℕ → Option Bytes → Code → Type 0
SessionSetParameter session param size value =
    Documented
      ((session ≡ none)
        ⊎ ((is_invalid_enum_value param DeviceSessionParameter.max_value ≡ true)
            ⊎ IsEmptyValue size value))
      (IsUnexpected none size value) (error_not_supported ∷ error_bad_state ∷ error_fatal ∷ [])

-- QDMI_device_session_init, for a session that was or was not initialized before: a session may only
-- be successfully initialized once.
abbrev pub SessionInit : {S : Type 0} → Option S → Bool → Code → Type 0
SessionInit session before c =
    Documented (session ≡ none) ⊥ (error_permission_denied ∷ error_bad_state ∷ error_fatal ∷ []) c
    × (before ≡ true → c ≢ success)

-- QDMI_device_session_query_device_property, for the data of the property if it is supported.
abbrev pub QueryDeviceProperty :
    {S : Type 0} → Option S → ℕ → Option Bytes → Request → Code → Type 0
QueryDeviceProperty session prop payload r =
    Documented ((session ≡ none) ⊎ (is_invalid_enum_value prop DeviceProperty.max_value ≡ true))
      (IsSmall payload r) (error_not_supported ∷ error_bad_state ∷ error_fatal ∷ [])

-- QDMI_device_session_query_site_property, for the data of the property if it is supported.
abbrev pub QuerySiteProperty :
    {S : Type 0} → Option S → ℕ → ℕ → Option Bytes → Request → Code → Type 0
QuerySiteProperty session site prop payload r =
    Documented
      ((session ≡ none) ⊎ ((site ≡ 0) ⊎ (is_invalid_enum_value prop SiteProperty.max_value ≡ true)))
      (IsSmall payload r) (error_not_supported ∷ error_bad_state ∷ error_fatal ∷ [])

-- QDMI_device_session_create_device_job.
abbrev pub CreateDeviceJob : {S : Type 0} → Option S → Bool → Code → Type 0
CreateDeviceJob session out =
    Documented ((session ≡ none) ⊎ (out ≡ false)) ⊥
      (error_bad_state ∷ error_permission_denied ∷ error_fatal ∷ [])

-- QDMI_device_job_set_parameter, for the size that is specified for the parameter.
abbrev pub JobSetParameter :
    {J : Type 0} → Option J → ℕ → Option ℕ → ℕ → Option Bytes → Code → Type 0
JobSetParameter job param expected size value =
    Documented
      ((job ≡ none)
        ⊎ ((is_invalid_enum_value param DeviceJobParameter.max_value ≡ true)
            ⊎ IsEmptyValue size value))
      (IsUnexpected expected size value)
      (error_not_supported ∷ error_bad_state ∷ error_out_of_mem ∷ error_permission_denied
        ∷ error_fatal ∷ [])

-- QDMI_device_job_get_program, for the program if there is one.
abbrev pub JobGetProgram : {J : Type 0} → Option J → Option Bytes → Request → Code → Type 0
JobGetProgram job payload r = Documented (job ≡ none) (IsSmall payload r) (
    error_not_supported ∷ error_bad_state ∷ error_out_of_range ∷ error_permission_denied
    ∷ error_fatal ∷ [])

-- QDMI_device_job_get_program_status, where individual outcomes are not supported.
abbrev pub JobGetProgramStatus : {J : Type 0} → Option J → Code → Type 0
JobGetProgramStatus job =
    Documented (job ≡ none) ⊥
      (error_not_supported ∷ error_bad_state ∷ error_out_of_range ∷ error_fatal ∷ [])

-- QDMI_device_job_query_property, for the data of the property if it is supported.
abbrev pub JobQueryProperty : {J : Type 0} → Option J → ℕ → Option Bytes → Request → Code → Type 0
JobQueryProperty job prop payload r =
    Documented ((job ≡ none) ⊎ (is_invalid_enum_value prop DeviceJobProperty.max_value ≡ true))
      (IsSmall payload r) (error_not_supported ∷ error_bad_state ∷ error_fatal ∷ [])

-- QDMI_device_job_cancel, by the status of the job.
abbrev pub JobCancel : Option JobStatus → Code → Type 0
JobCancel status =
    Documented ((status ≡ none) ⊎ (status ≡ some done)) ⊥
      (error_permission_denied ∷ error_fatal ∷ [])

-- QDMI_device_job_check.
abbrev pub JobCheck : {J : Type 0} → Option J → Bool → Code → Type 0
JobCheck job out =
    Documented ((job ≡ none) ⊎ (out ≡ false)) ⊥ (error_permission_denied ∷ error_fatal ∷ [])

-- QDMI_device_job_wait.
abbrev pub JobWait : {J : Type 0} → Option J → Code → Type 0
JobWait job = Documented (job ≡ none) ⊥ (error_permission_denied ∷ error_timeout ∷ error_fatal ∷ [])

-- The code of a call, unless the call is undefined.
abbrev pub OfCode : {A : Type 0} → (Code → Type 0) → Option (Code × A) → Type 0
OfCode P none = Unit
OfCode P (some (c, a)) = P c
