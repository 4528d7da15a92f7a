-- ===== src/Constants.antt =====
-- include/qdmi/constants.h and the enumerations of include/qdmi/client.h: the status codes, the
-- two enumerations that are state of the reference device, and the test for enumeration values.
-- An enumeration whose values cross the interface as plain integers is a child module of numbers.
pub mod DeviceSessionParameter
pub mod DeviceJobParameter
pub mod DeviceJobProperty
pub mod DeviceProperty
pub mod SiteProperty
pub mod OperationProperty
pub mod ProgramFormat
pub mod JobResult
pub mod SessionParameter
pub mod SessionProperty
pub mod JobParameter
pub mod JobProperty
pub mod Ranges
use qdmi.Base.{ℕ, Bool, not, ◌&&◌, leb, ◌==◌}

-- `QDMI_STATUS`.
pub data Code : Type 0 where
  warn_general success error_fatal error_out_of_mem error_not_implemented : Code
  error_lib_not_found error_not_found error_out_of_range error_invalid_argument : Code
  error_permission_denied error_not_supported error_bad_state error_timeout : Code

-- `QDMI_DEVICE_STATUS_T`, without its bound.
pub data DeviceStatus : Type 0 where
  offline idle busy error maintenance calibration : DeviceStatus

abbrev pub device_status_value : DeviceStatus → ℕ
device_status_value offline = 0
device_status_value idle = 1
device_status_value busy = 2
device_status_value error = 3
device_status_value maintenance = 4
device_status_value calibration = 5

-- `QDMI_JOB_STATUS_T`.
pub data JobStatus : Type 0 where
  created submitted queued running done canceled failed : JobStatus

abbrev pub job_status_value : JobStatus → ℕ
job_status_value created = 0
job_status_value submitted = 1
job_status_value queued = 2
job_status_value running = 3
job_status_value done = 4
job_status_value canceled = 5
job_status_value failed = 6

-- The macro `QDMI_IS_INVALID_ENUM_VALUE`. Its second argument gives the bound; the numbers of the
-- five custom members are the same in every enumeration.
unfoldable pub is_invalid_enum_value : ℕ → ℕ → Bool
is_invalid_enum_value value max_value =
    leb max_value value
    && not (value == 999999995)
    && not (value == 999999996)
    && not (value == 999999997)
    && not (value == 999999998)
    && not (value == 999999999)
