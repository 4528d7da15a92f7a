-- ===== src/Driver/Client.antt =====
-- The functions that examples/driver/qdmi_example_driver.cpp gives to clients beside starting and
-- freeing a session: its parameters and properties, the properties of a device, and new jobs.
use qdmi.Base.{
  ℕ, zero, ◌+◌, ◌-◌, ◌*◌, Bool, true, false, not, ◌||◌, Option, none, some, List, [], ◌∷◌, ◌++◌,
  ◌==◌, if◌then◌else◌, length, map,
}
use qdmi.Base.Bytes.{Bytes, encode_all}
use qdmi.Constants.{
  Code, success, error_out_of_mem, error_invalid_argument, error_not_supported, error_bad_state,
  error_permission_denied, is_invalid_enum_value,
}
use qdmi.Constants.SessionParameter
use qdmi.Constants.SessionProperty
use qdmi.Output.{Request, Reply, fail, is_empty_buffer, answer, overwrite}
use qdmi.Device.Session.{is_empty_value, read_bytes}
use qdmi.Constants.DeviceProperty
use qdmi.Driver.{
  Library, ClientDevice, Mode, readonly, readwrite, ClientStatus, allocated, initialized,
  ClientSession, ClientJob, is_success,
}

module _ {S : Type 0} (libs : ℕ → Library S) where
  abbrev finish_job : ClientDevice → Code × ℕ × S → Code × Option ClientJob × S
  finish_job d (c, h, s) =
      if is_success c
      then (success, some (record { device = d; device_job = h }), s)
      else (c, none, s)

  abbrev create_job_in : Mode → Bool → ClientDevice → S → Code × Option ClientJob × S
  create_job_in readonly memory d s = (error_permission_denied, none, s)
  create_job_in readwrite false d s = (error_out_of_mem, none, s)
  create_job_in readwrite true d s =
      finish_job d ((libs d.library).create_device_job d.device_session s)

  -- QDMI_device_create_job: the device with its session, or a null pointer; whether the
  -- out-parameter is not null; and whether the job can be allocated.
  unfoldable pub create_job :
      Option (ClientDevice × ClientSession) → Bool → Bool → S → Code × Option ClientJob × S
  create_job none out memory s = (error_invalid_argument, none, s)
  create_job (some (d, session)) false memory s = (error_invalid_argument, none, s)
  create_job (some (d, session)) true memory s = create_job_in session.mode memory d s

-- `std::string(value, size - 1)`, where the size is not 0.
abbrev pub store_token : ClientSession → ℕ → Option Bytes → Option (Code × Option ClientSession)
store_token s size none = some (success, some s)
store_token s size (some bytes) = elim (read_bytes (size - 1) bytes) [
  | none ↦ none
  | some t ↦ some (success, some (record s { token = some t }))
]

abbrev pub set_parameter_in :
    ClientStatus → ClientSession → ℕ → ℕ → Option Bytes → Option (Code × Option ClientSession)
set_parameter_in initialized s param size value = some (error_bad_state, some s)
set_parameter_in allocated s param size value =
    if not (param == SessionParameter.token)
    then some (error_not_supported, some s)
    else store_token s size value

-- QDMI_session_set_parameter; `none` is undefined behaviour.
unfoldable pub session_set_parameter :
    Option ClientSession → ℕ → ℕ → Option Bytes → Option (Code × Option ClientSession)
session_set_parameter none param size value = some (error_invalid_argument, none)
session_set_parameter (some s) param size value =
    if is_empty_value size value || is_invalid_enum_value param SessionParameter.max_value
    then some (error_invalid_argument, some s)
    else set_parameter_in s.status s param size value

-- QDMI_session_query_session_property; the addresses of the devices are given.
abbrev session_properties : ClientStatus → List ℕ → ℕ → Request → Option Reply
session_properties allocated pointers prop r = some (fail r error_bad_state)
session_properties initialized pointers prop r =
    if not (prop == SessionProperty.devices)
    then some (fail r error_not_supported)
    else answer (length pointers * 8) (overwrite (encode_all 8 pointers)) r

unfoldable pub query_session_property :
    (ClientDevice → ℕ) → Option ClientSession → ℕ → Request → Option Reply
query_session_property address none prop r = some (fail r error_invalid_argument)
query_session_property address (some s) prop r =
    if is_empty_buffer r || is_invalid_enum_value prop SessionProperty.max_value
    then some (fail r error_invalid_argument)
    else session_properties s.status (map address s.device_list) prop r

-- QDMI_device_query_device_property: the driver answers for the id of the configuration, and
-- `forward` is the query of the device library.
unfoldable pub query_device_property :
    (ClientDevice → ℕ → Request → Option Reply) → Option ClientDevice → ℕ → Request → Option Reply
query_device_property forward none prop r = some (fail r error_invalid_argument)
query_device_property forward (some d) prop r =
    if prop == DeviceProperty.id
    then answer (length d.id + 1) (overwrite (d.id ++ zero ∷ [])) r
    else forward d prop r
