-- ===== src/Device/Contracts/Jobs.antt =====
-- The functions of examples/device/src/cxx_device.cpp on jobs return the
-- codes that include/qdmi/device.h documents, each for its documented cause.
use mathlib.Core.Option
use qdmi.Base.{
  ℕ, ◌≡◌, inl, inr, refl, Bool, true, false, ◌||◌, ◌==◌, if◌then◌else◌, Option, none, some, arith,
  Bool-cases, Option-cases, is_empty, leb, length, get_elem?,
}
use qdmi.Base.Bytes.{Bytes}
use qdmi.Constants.{Code, success, JobStatus, done, canceled, failed, is_invalid_enum_value}
use qdmi.Constants.DeviceJobParameter
use qdmi.Output.{Request}
use qdmi.Output.Serves.{IsContract, copy-Serves}
use qdmi.Device.State.{Job, DeviceState, Random}
use qdmi.Device.Session.{is_empty_value, read_bytes}
use qdmi.Device.Jobs.{set_num_shots, job_set_parameter, cancel, cancel_in, check, wait, wait_in}
use qdmi.Device.Programs.{is_created, get_program, get_program_in, get_program_status}
use qdmi.Device.Contracts.{no_cause, Refused, Refused-none, Refused-some}
use qdmi.Device.Jobs.{job_query_property}
use qdmi.Device.Contracts.Properties.{data_of_job, job_query_property-Documented}
use qdmi.Device.Contracts.Reply.{OfReply, Serves-Documented}
use qdmi.Interface.{Documented, invalid, caused, succeeded, reported, IsSmall, IsUnexpected, OfCode}
use qdmi.Interface

-- The size that is specified for the parameter: eight bytes for the number of shots.
unfoldable pub expected_size : ℕ → Option ℕ
expected_size param = if param == DeviceJobParameter.shotsnum then some 8 else none

module _ (job : Job) (param size : ℕ) (value : Option Bytes)
    (fine : ¬ Refused (some job) param DeviceJobParameter.max_value size value) where
  abbrev IsSetParameter : Option (Code × Option Job) → Type 0
  IsSetParameter =
      OfCode (Interface.JobSetParameter (some job) param (expected_size param) size value)

  word-Documented :
      (o : Option Bytes) (f : Bytes → Option Job)
      → IsSetParameter (elim o [ none ↦ none | some word ↦ some (success, f word) ])
  word-Documented none f = tt
  word-Documented (some t) f = succeeded fine

num_shots-Documented :
    (job : Job) (param size : ℕ) (value : Option Bytes)
    → ¬ Refused (some job) param DeviceJobParameter.max_value size value
    → (param == DeviceJobParameter.shotsnum) ≡ true
    → OfCode
        (Interface.JobSetParameter (some job) param (expected_size param) size value)
        (set_num_shots job size value)
unfolding expected_size
num_shots-Documented job param size none fine h = succeeded fine
num_shots-Documented job param size (some bytes) fine h = elim (Bool-cases (size == 8)) [
  | inl word ↦ rw word (word-Documented job param size (some bytes) fine (read_bytes 8 bytes) _)
  | inr other ↦ rw other (caused fine (rw (expected_size, h) (ground arith)))
]

job_set_parameter-Documented :
    (job : Option Job) (param size : ℕ) (value : Option Bytes)
    → OfCode
        (Interface.JobSetParameter job param (expected_size param) size value)
        (job_set_parameter job param size value)
unfolding job_set_parameter
job_set_parameter-Documented none param size value = invalid (inl refl)
job_set_parameter-Documented (some job) param size value =
    elim (Bool-cases
      (is_empty_value size value || is_invalid_enum_value param DeviceJobParameter.max_value)) [
        | inl bad ↦ rw (job_set_parameter, bad) (invalid (Refused-some job param _ size value bad))
        | inr good ↦
            let fine = Refused-none job param _ size value good in
            elim (Bool-cases (is_created job.status)) [
              | inr late ↦ rw (job_set_parameter, good, late) (reported _ fine (inr (inl refl)))
              | inl fresh ↦ elim (Bool-cases (param == DeviceJobParameter.shotsnum)) [
                | inl shots ↦
                    rw (job_set_parameter, good, fresh, shots)
                      (num_shots-Documented job param size value fine shots)
                | inr other ↦
                    rw (job_set_parameter, good, fresh, other) (reported _ fine (inl refl))
              ]
            ]
      ]

cancel_in-Documented :
    (dev : DeviceState) (job : Job) (status : JobStatus)
    → Interface.JobCancel (some status) (cancel_in status dev job).code
cancel_in-Documented dev job done = invalid (inr refl)
cancel_in-Documented dev job _ = succeeded (no_cause (λ n. cc) (λ n. cc))

wait_in-Documented :
    (dev : DeviceState) (job : Job) (status : JobStatus)
    → Interface.JobWait (some job) (wait_in status dev job).code
wait_in-Documented dev job done = succeeded (λ n. cc)
wait_in-Documented dev job canceled = succeeded (λ n. cc)
wait_in-Documented dev job failed = succeeded (λ n. cc)
wait_in-Documented dev job _ = succeeded (λ n. cc)

cancel-Documented :
    (dev : DeviceState) (job : Option Job)
    → Interface.JobCancel (Option.map (λ (j : Job). j.status) job) (cancel dev job).code
unfolding cancel
cancel-Documented dev none = invalid (inl refl)
cancel-Documented dev (some job) = cancel_in-Documented dev job job.status

wait-Documented :
    (dev : DeviceState) (job : Option Job) (timeout : ℕ)
    → Interface.JobWait job (wait dev job timeout).code
unfolding wait
wait-Documented dev none timeout = invalid refl
wait-Documented dev (some job) timeout = wait_in-Documented dev job job.status

check-Documented :
    (rnd : Random) (dev : DeviceState) (job : Option Job) (out : Bool)
    → Interface.JobCheck job out (check rnd dev job out).0.code
unfolding check
check-Documented rnd dev none out = invalid (inl refl)
check-Documented rnd dev (some job) false = invalid (inr refl)
check-Documented rnd dev (some job) true = succeeded (no_cause (λ n. cc) (λ n. cc))

get_program_status-Documented :
    (job : Option Job) (index : ℕ)
    → Interface.JobGetProgramStatus job (get_program_status job index)
unfolding get_program_status
get_program_status-Documented none index = invalid refl
get_program_status-Documented (some job) index = elim (Bool-cases (is_empty job.programs)) [
  | inl without ↦ rw without (reported _ (λ n. cc) (inr (inl refl)))
  | inr given ↦ elim (Bool-cases (leb (length job.programs) index)) [
    | inl past ↦ rw (given, past) (reported _ (λ n. cc) (inr (inr (inl refl))))
    | inr inside ↦ rw (given, inside) (reported _ (λ n. cc) (inl refl))
  ]
]

-- The program at an index, if there is one.
abbrev pub program_at : Option Job → ℕ → Option Bytes
program_at none index = none
program_at (some j) index = get_elem? j.programs index

get_program-Documented :
    (job : Option Job) (index : ℕ) (r : Request)
    → IsContract r
    → OfReply (Interface.JobGetProgram job (program_at job index) r) (get_program job index r)
unfolding get_program
get_program-Documented none index r h = invalid refl
get_program-Documented (some job) index r h = elim (Bool-cases (is_empty job.programs)) [
  | inl without ↦ rw without (reported _ (λ n. cc) (inr (inl refl)))
  | inr given ↦ elim (Option-cases (get_elem? job.programs index)) [
    | inl past ↦ rw (given, get_program_in, past) (reported _ (λ n. cc) (inr (inr (inl refl))))
    | inr (program, e) ↦
        rw (given, get_program_in, e)
          (Serves-Documented _ _ program r _ (λ n. cc)
            (copy-Serves program (length program) r refl h))
  ]
]

-- For any handle of a job, null or not: set_parameter, query_property, cancel, check, wait,
-- get_program_status and get_program return only codes that are documented, INVALIDARGUMENT
-- whenever the arguments are invalid and otherwise only for a documented cause, whatever the
-- arguments, as long as a call reads no memory that is not its client's.
pub jobs-Documented :
    (rnd : Random) (dev : DeviceState) (job : Option Job) (param size prop timeout index : ℕ)
    (value : Option Bytes) (out : Bool) (r : Request)
    → IsContract r
    → OfCode
        (Interface.JobSetParameter job param (expected_size param) size value)
        (job_set_parameter job param size value)
      × OfReply
          (Interface.JobQueryProperty job prop (data_of_job job prop) r)
          (job_query_property job prop r)
      × Interface.JobCancel (Option.map (λ (j : Job). j.status) job) (cancel dev job).code
      × Interface.JobCheck job out (check rnd dev job out).0.code
      × Interface.JobWait job (wait dev job timeout).code
      × Interface.JobGetProgramStatus job (get_program_status job index)
      × OfReply (Interface.JobGetProgram job (program_at job index) r) (get_program job index r)
jobs-Documented rnd dev job param size prop timeout index value out r h = (
  job_set_parameter-Documented job param size value,
  job_query_property-Documented job prop r h,
  cancel-Documented dev job,
  check-Documented rnd dev job out,
  wait-Documented dev job timeout,
  get_program_status-Documented job index,
  get_program-Documented job index r h,
)
