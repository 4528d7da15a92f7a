-- ===== src/Device/Session.antt =====
-- Life of the device and of its sessions in examples/device/src/cxx_device.cpp. A handler takes
-- the structure that the handle points to, `none` for a null handle, and returns the status code
-- with what it leaves there.
pub mod Laws
use qdmi.Base.{
  ℕ, Option, none, some, Bool, true, false, ◌||◌, not, ◌==◌, ltb, if◌then◌else◌, is_empty, [], take,
  length,
}
use qdmi.Base.Bytes.{Bytes}
use qdmi.Constants.{
  Code, success, error_fatal, error_invalid_argument, error_permission_denied, error_bad_state,
  error_not_supported, DeviceStatus, offline, idle, error, maintenance, is_invalid_enum_value,
  JobStatus, created,
}
use qdmi.Constants.DeviceSessionParameter
use qdmi.Constants.ProgramFormat
use qdmi.Device.State.{
  Session, SessionStatus, allocated, initialized, Job, DeviceState, Random, Effect,
}

-- CXX_QDMI_device_initialize.
unfoldable pub device_initialize : DeviceState → Code × DeviceState
device_initialize dev = (success, record dev { status = idle })

-- CXX_QDMI_device_finalize.
unfoldable pub device_finalize : DeviceState → Code × DeviceState
device_finalize dev = (success, record dev { status = offline })

-- `new CXX_QDMI_Device_Session_impl_d()`
abbrev pub new_session : Session
new_session = record { token = []; status = allocated }

-- The `switch` of session_init: the states of the device in which no session starts.
abbrev pub is_down : DeviceStatus → Bool
is_down error = true
is_down offline = true
is_down maintenance = true
is_down _ = false

-- CXX_QDMI_device_session_init.
unfoldable pub session_init : DeviceState → Option Session → Code × Option Session
session_init dev none = (error_invalid_argument, none)
session_init dev (some s) =
    if is_down dev.status
    then (error_fatal, some s)
    else if is_empty s.token
    then (error_permission_denied, some s)
    else (success, some (record s { status = initialized }))

-- A pointer to a parameter's value: the bytes that it points to, or null.
abbrev pub is_empty_value : ℕ → Option Bytes → Bool
is_empty_value size none = false
is_empty_value size (some bytes) = size == 0

-- `std::string(value, size)`: reading past the bytes that are there is undefined behaviour.
abbrev pub read_bytes : ℕ → Bytes → Option Bytes
read_bytes size bytes = if ltb (length bytes) size then none else some (take size bytes)

abbrev pub set_token : Session → ℕ → Option Bytes → Option (Code × Option Session)
set_token s size none = some (success, some s)
set_token s size (some bytes) = elim (read_bytes size bytes) [
  | none ↦ none
  | some t ↦ some (success, some (record s { token = t }))
]

abbrev pub set_parameter_in :
    SessionStatus → Session → ℕ → ℕ → Option Bytes → Option (Code × Option Session)
set_parameter_in initialized s param size value = some (error_bad_state, some s)
set_parameter_in allocated s param size value =
    if not (param == DeviceSessionParameter.token)
    then some (error_not_supported, some s)
    else set_token s size value

-- CXX_QDMI_device_session_set_parameter; `none` is undefined behaviour.
unfoldable pub session_set_parameter :
    Option Session → ℕ → ℕ → Option Bytes → Option (Code × Option Session)
session_set_parameter none param size value = some (error_invalid_argument, none)
session_set_parameter (some s) param size value =
    if is_empty_value size value || is_invalid_enum_value param DeviceSessionParameter.max_value
    then some (error_invalid_argument, some s)
    else set_parameter_in s.status s param size value

-- CXX_QDMI_device_session_create_device_job: the session's address and structure, and whether the
-- out-parameter is not null. The identifier is drawn from the generator.
unfoldable pub create_device_job : Random → DeviceState → ℕ → Option Session → Bool → Effect
create_device_job rnd dev address none out = record {
  code = error_invalid_argument;
  dev = dev;
  job = none;
}
create_device_job rnd dev address (some s) false = record {
  code = error_invalid_argument;
  dev = dev;
  job = none;
}
create_device_job rnd dev address (some s) true = elim s.status [
  | allocated ↦ record { code = error_bad_state; dev = dev; job = none }
  | initialized ↦
      let (id, gen) = rnd.draw_id dev.gen in
      record {
        code = success;
        dev = record dev { gen = gen };
        job = some (record {
          session = address;
          id = id;
          format = ProgramFormat.max_value;
          programs = [];
          status = created;
          num_shots = 0;
          results = [];
        });
      }
]

-- CXX_QDMI_device_session_retrieve_device_job_by_id.
unfoldable pub retrieve_device_job_by_id : Option Session → Code
retrieve_device_job_by_id s = error_not_supported
