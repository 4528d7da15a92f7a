-- ===== src/Device/Jobs.antt =====
-- The functions on one job in examples/device/src/cxx_device.cpp that neither submit it nor read
-- its programs and results: set_parameter, query_property, cancel, check and wait.
pub mod Laws
use qdmi.Base.{
  ℕ, zero, suc, ◌+◌, ◌/◌, ◌%◌, Bool, true, false, not, ◌&&◌, ◌||◌, Option, none, some, List, [],
  ◌∷◌, ltb, ◌==◌, if◌then◌else◌, length, take, is_empty,
}
use qdmi.Base.Bytes.{Bytes, encode, decode}
use qdmi.Constants.{
  Code, success, error_invalid_argument, error_bad_state, error_not_supported, DeviceStatus, idle,
  JobStatus, created, submitted, queued, running, done, canceled, failed, is_invalid_enum_value,
}
use qdmi.Constants.DeviceJobParameter
use qdmi.Constants.DeviceJobProperty
use qdmi.Constants.ProgramFormat
use qdmi.Output.{
  Request, Reply, fail, is_empty_buffer, add_single_value_property, add_string_property,
}
use qdmi.Device.State.{Job, DeviceState, Random, Effect}
use qdmi.Device.Session.{is_empty_value, read_bytes}
use qdmi.Device.Programs.{is_created}

abbrev pub keep : Code → DeviceState → Option Job → Effect
keep c dev job = record { code = c; dev = dev; job = job }

-- The case QDMI_DEVICE_JOB_PARAMETER_SHOTSNUM.
abbrev pub set_num_shots : Job → ℕ → Option Bytes → Option (Code × Option Job)
set_num_shots job size none = some (success, some job)
set_num_shots job size (some bytes) =
    if not (size == 8) then some (error_invalid_argument, some job) else elim (read_bytes 8 bytes) [
      | none ↦ none
      | some word ↦ some (success, some (record job { num_shots = decode word }))
    ]

-- CXX_QDMI_device_job_set_parameter; `none` is undefined behaviour.
unfoldable pub job_set_parameter : Option Job → ℕ → ℕ → Option Bytes → Option (Code × Option Job)
job_set_parameter none param size value = some (error_invalid_argument, none)
job_set_parameter (some job) param size value =
    if is_empty_value size value || is_invalid_enum_value param DeviceJobParameter.max_value
    then some (error_invalid_argument, some job)
    else if not (is_created job.status)
    then some (error_bad_state, some job)
    else if param == DeviceJobParameter.shotsnum
    then set_num_shots job size value
    else some (error_not_supported, some job)

-- `std::to_string` of a number that is not negative: at most `fuel` digits, before the given ones.
unfoldable pub digits : ℕ → ℕ → Bytes → Bytes
digits zero n later = later
digits (suc fuel) n later =
    let rest = digits fuel (n / 10) ((n % 10 + 48) ∷ later) in
    if n / 10 == 0 then (n % 10 + 48) ∷ later else rest

unfoldable pub to_string : ℕ → Bytes
unfolding digits
to_string n = digits (suc n) n []

-- The macros of CXX_QDMI_device_job_query_property, with the two tests between them.
unfoldable pub job_properties : Job → ℕ → Request → Option Reply
job_properties job prop r = add_string_property DeviceJobProperty.id (to_string job.id) prop r (
    if prop == DeviceJobProperty.programformat && job.format == ProgramFormat.max_value
    then some (fail r error_bad_state)
    else add_single_value_property DeviceJobProperty.programformat (encode 4 job.format) prop r (
        add_single_value_property DeviceJobProperty.shotsnum (encode 8 job.num_shots) prop r (
          if prop == DeviceJobProperty.programsnum && is_empty job.programs
          then some (fail r error_bad_state)
          else add_single_value_property DeviceJobProperty.programsnum
              (encode 8 (length job.programs)) prop r (some (fail r error_not_supported)))))

-- CXX_QDMI_device_job_query_property.
unfoldable pub job_query_property : Option Job → ℕ → Request → Option Reply
job_query_property none prop r = some (fail r error_invalid_argument)
job_query_property (some job) prop r =
    if is_empty_buffer r || is_invalid_enum_value prop DeviceJobProperty.max_value
    then some (fail r error_invalid_argument)
    else job_properties job prop r

abbrev pub cancel_in : JobStatus → DeviceState → Job → Effect
cancel_in done dev job = keep error_invalid_argument dev (some job)
cancel_in _ dev job =
    keep success (record dev { status = idle }) (some (record job { status = canceled }))

-- CXX_QDMI_device_job_cancel.
unfoldable pub cancel : DeviceState → Option Job → Effect
cancel dev none = keep error_invalid_argument dev none
cancel dev (some job) = cancel_in job.status dev job

-- `generate_bit()` decides whether a running job is done; no bit is drawn for any other.
abbrev pub poll : Bool × ℕ → DeviceState → Job → DeviceState × Job
poll (true, gen) dev job = (record dev { gen = gen; status = idle }, record job { status = done })
poll (false, gen) dev job = (record dev { gen = gen }, job)

abbrev pub check_in : Random → JobStatus → DeviceState → Job → DeviceState × Job
check_in rnd running dev job = poll (rnd.draw_bit dev.gen) dev job
check_in rnd _ dev job = (dev, job)

-- CXX_QDMI_device_job_check: the flag tells whether `status` is not null; what is written there is
-- the second part.
unfoldable pub check : Random → DeviceState → Option Job → Bool → Effect × Option JobStatus
check rnd dev none out = (keep error_invalid_argument dev none, none)
check rnd dev (some job) false = (keep error_invalid_argument dev (some job), none)
check rnd dev (some job) true =
    let (dev', job') = check_in rnd job.status dev job in
    (keep success dev' (some job'), some job'.status)

abbrev pub wait_in : JobStatus → DeviceState → Job → Effect
wait_in done dev job = keep success dev (some job)
wait_in canceled dev job = keep success dev (some job)
wait_in failed dev job = keep success dev (some job)
wait_in _ dev job =
    keep success (record dev { status = idle }) (some (record job { status = done }))

-- CXX_QDMI_device_job_wait; the timeout is not used.
unfoldable pub wait : DeviceState → Option Job → ℕ → Effect
wait dev none timeout = keep error_invalid_argument dev none
wait dev (some job) timeout = wait_in job.status dev job
