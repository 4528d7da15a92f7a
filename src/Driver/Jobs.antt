-- ===== src/Driver/Jobs.antt =====
-- The functions of examples/driver/qdmi_example_driver.cpp on jobs, and the queries of sites and
-- operations: each finds the device library of its handle and calls that library's function.
pub mod Reference
pub mod Retrieval
mod Tests
use qdmi.Base.{
  ℕ, zero, suc, ◌==◌, Bool, true, false, not, Option, none, some, List, [], ◌∷◌, if◌then◌else◌,
}
use qdmi.Base.Bytes.{Bytes}
use qdmi.Constants.{
  Code, success, error_invalid_argument, error_permission_denied, error_not_supported, JobStatus,
}
use qdmi.Output.{Request, Reply, fail}
use qdmi.Device.Query.{Operands}
use qdmi.Driver.{ClientDevice, ClientSession, ClientJob, Mode, readonly, readwrite, is_success}

-- The functions of a device library, on a state of its own, that take a device job or query a site
-- or an operation; `none` is undefined behaviour. The last is a null pointer in a library that
-- does not have it.
pub record DeviceFunctions (S : Type 0) : Type 0 where
  pub job_free : ℕ → S → Option S
  pub job_set_parameter : ℕ → ℕ → ℕ → Option Bytes → S → Option (Code × S)
  pub job_set_programs :
      ℕ → ℕ → ℕ → Option (List ℕ) → Option (List (Option Bytes)) → S → Option (Code × S)
  pub job_get_program : ℕ → ℕ → Request → S → Option Reply
  pub job_get_program_status : ℕ → ℕ → S → Option (Code × Option JobStatus)
  pub job_query_property : ℕ → ℕ → Request → S → Option Reply
  pub job_submit : ℕ → S → Option (Code × S)
  pub job_cancel : ℕ → S → Option (Code × S)
  pub job_check : ℕ → Bool → S → Option (Code × Option JobStatus × S)
  pub job_wait : ℕ → ℕ → S → Option (Code × S)
  pub job_get_results : ℕ → ℕ → ℕ → Request → S → Option Reply
  pub query_site_property : ℕ → ℕ → ℕ → Request → S → Option Reply
  pub query_operation_property : ℕ → ℕ → Operands → ℕ → Request → S → Option Reply
  pub retrieve_device_job_by_id : Option (ℕ → Bytes → S → Option (Code × ℕ × S))

-- What retrieve_job_by_id does: it returns, or an exception or undefined behaviour ends it.
pub data Retrieved (S : Type 0) : Type 0 where
  returned : Code → Option ClientJob → S → Retrieved S
  out_of_memory : Retrieved S
  stuck : Retrieved S

module _ {S : Type 0} (libs : ℕ → DeviceFunctions S) where
  abbrev pub finish_retrieval : ClientDevice → S → Option (Code × ℕ × S) → Retrieved S
  finish_retrieval d s none = stuck
  finish_retrieval d s (some (c, h, s')) =
      if not (is_success c)
      then returned c none s'
      else returned success (some (record { device = d; device_job = h })) s'

  -- `std::make_unique` throws where the memory does not suffice.
  abbrev pub retrieve_with :
      ClientDevice → Bool → Bytes → S → Option (ℕ → Bytes → S → Option (Code × ℕ × S)) → Retrieved S
  retrieve_with d memory job_id s none = returned error_not_supported none s
  retrieve_with d false job_id s (some retrieve) = out_of_memory
  retrieve_with d true job_id s (some retrieve) =
      finish_retrieval d s (retrieve d.device_session job_id s)

  abbrev pub retrieve_in : Mode → ClientDevice → Bool → Bytes → S → Retrieved S
  retrieve_in readonly d memory job_id s = returned error_permission_denied none s
  retrieve_in readwrite d memory job_id s =
      retrieve_with d memory job_id s (libs d.library).retrieve_device_job_by_id

  -- QDMI_session_retrieve_job_by_id: the device with its session, or a null pointer; the
  -- identifier, up to its terminator; whether the out-parameter is not null; and whether the job
  -- can be allocated.
  unfoldable pub retrieve_job_by_id :
      Option (ClientDevice × ClientSession) → Option Bytes → Bool → Bool → S → Retrieved S
  retrieve_job_by_id none job_id out memory s = returned error_invalid_argument none s
  retrieve_job_by_id (some (d, session)) none out memory s = returned error_invalid_argument none s
  retrieve_job_by_id (some (d, session)) (some []) out memory s =
      returned error_invalid_argument none s
  retrieve_job_by_id (some (d, session)) (some (c ∷ job_id)) false memory s =
      returned error_invalid_argument none s
  retrieve_job_by_id (some (d, session)) (some (c ∷ job_id)) true memory s =
      retrieve_in session.mode d memory (c ∷ job_id) s

  -- QDMI_job_free.
  unfoldable pub job_free : Option ClientJob → S → Option S
  job_free none s = some s
  job_free (some job) s = (libs job.device.library).job_free job.device_job s

  -- QDMI_job_set_parameter.
  unfoldable pub job_set_parameter : Option ClientJob → ℕ → ℕ → Option Bytes → S → Option (Code × S)
  job_set_parameter none param size value s = some (error_invalid_argument, s)
  job_set_parameter (some job) param size value s =
      (libs job.device.library).job_set_parameter job.device_job param size value s

  -- QDMI_job_set_programs.
  unfoldable pub job_set_programs :
      Option ClientJob
      → ℕ
      → ℕ
      → Option (List ℕ)
      → Option (List (Option Bytes))
      → S
      → Option (Code × S)
  job_set_programs none format count sizes programs s = some (error_invalid_argument, s)
  job_set_programs (some job) format count sizes programs s =
      (libs job.device.library).job_set_programs job.device_job format count sizes programs s

  -- QDMI_job_get_program.
  unfoldable pub job_get_program : Option ClientJob → ℕ → Request → S → Option Reply
  job_get_program none index r s = some (fail r error_invalid_argument)
  job_get_program (some job) index r s =
      (libs job.device.library).job_get_program job.device_job index r s

  -- QDMI_job_get_program_status; the flag tells whether `status` is not null.
  unfoldable pub job_get_program_status :
      Option ClientJob → ℕ → Bool → S → Option (Code × Option JobStatus)
  job_get_program_status none index out s = some (error_invalid_argument, none)
  job_get_program_status (some job) index false s = some (error_invalid_argument, none)
  job_get_program_status (some job) index true s =
      (libs job.device.library).job_get_program_status job.device_job index s

  -- QDMI_job_query_property.
  unfoldable pub job_query_property : Option ClientJob → ℕ → Request → S → Option Reply
  job_query_property none prop r s = some (fail r error_invalid_argument)
  job_query_property (some job) prop r s =
      (libs job.device.library).job_query_property job.device_job prop r s

  -- QDMI_job_submit.
  unfoldable pub job_submit : Option ClientJob → S → Option (Code × S)
  job_submit none s = some (error_invalid_argument, s)
  job_submit (some job) s = (libs job.device.library).job_submit job.device_job s

  -- QDMI_job_cancel.
  unfoldable pub job_cancel : Option ClientJob → S → Option (Code × S)
  job_cancel none s = some (error_invalid_argument, s)
  job_cancel (some job) s = (libs job.device.library).job_cancel job.device_job s

  -- QDMI_job_check.
  unfoldable pub job_check : Option ClientJob → Bool → S → Option (Code × Option JobStatus × S)
  job_check none out s = some (error_invalid_argument, none, s)
  job_check (some job) out s = (libs job.device.library).job_check job.device_job out s

  -- QDMI_job_wait.
  unfoldable pub job_wait : Option ClientJob → ℕ → S → Option (Code × S)
  job_wait none timeout s = some (error_invalid_argument, s)
  job_wait (some job) timeout s = (libs job.device.library).job_wait job.device_job timeout s

  -- QDMI_job_get_results.
  unfoldable pub job_get_results : Option ClientJob → ℕ → ℕ → Request → S → Option Reply
  job_get_results none index result r s = some (fail r error_invalid_argument)
  job_get_results (some job) index result r s =
      (libs job.device.library).job_get_results job.device_job index result r s

  -- QDMI_device_query_site_property.
  unfoldable pub query_site_property : Option ClientDevice → ℕ → ℕ → Request → S → Option Reply
  query_site_property none site prop r s = some (fail r error_invalid_argument)
  query_site_property (some d) site prop r s =
      (libs d.library).query_site_property d.device_session site prop r s

  -- QDMI_device_query_operation_property.
  unfoldable pub query_operation_property :
      Option ClientDevice → ℕ → Operands → ℕ → Request → S → Option Reply
  query_operation_property none op a prop r s = some (fail r error_invalid_argument)
  query_operation_property (some d) op a prop r s =
      (libs d.library).query_operation_property d.device_session op a prop r s
