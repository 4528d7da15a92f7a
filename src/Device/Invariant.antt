-- ===== src/Device/Invariant.antt =====
-- The invariant of a job of the reference device in examples/device/src/cxx_device.cpp. The
-- children show that the functions on a job keep it.
pub mod Operations
pub mod Submit
use mathlib.Core.Path.{subst}
use qdmi.Base.{
  ℕ, ◌<◌, ◌≡◌, ◌≢◌, ◌⊎◌, inl, inr, refl, sym, ◌∙◌, Bool, true, false, Option, none, some, List, [],
  not, ◌==◌, ◌||◌, ◌∷◌, length, All, is_empty, arith, Bool-cases,
}
use qdmi.Base.Bytes.{Bytes, decode}
use qdmi.Constants.DeviceJobParameter
use qdmi.Constants.{
  is_invalid_enum_value, error_out_of_mem, Code, success, JobStatus, created, running, done,
  canceled, failed,
}
use qdmi.Constants.ProgramFormat
use qdmi.Device.State.{Session, initialized, Job, ResultData, DeviceState, Build, Random, Float}
use qdmi.Device.Session.{create_device_job}
use qdmi.Device.Programs.{set_programs, supported_format, valid_program, is_created}
use qdmi.Device.Programs.Laws.{
  IsProgram, is_created_iff, Inputs-IsProgram, SetPrograms, kept, checked, stored, unreadable,
  set_programs-SetPrograms,
}
use qdmi.Device.Session.{read_bytes, is_empty_value}
use qdmi.Device.Jobs.{
  set_num_shots, poll, check_in, wait_in, job_set_parameter, cancel, check, wait,
}
use qdmi.Device.Submit.{
  submit, try_submit, Setting, Outcome, computed, threw, finish_submit, submit_setting,
}
use qdmi.Device.Submit.Results.{
  IsResult, IsResults, num_qubits_initialized, compute_results-IsResults,
}

-- The states that a job of this device takes.
abbrev pub CanBe : JobStatus → Type 0
CanBe created = Unit
CanBe running = Unit
CanBe done = Unit
CanBe canceled = Unit
CanBe _ = ⊥

pub record IsSound (job : Job) : Type 0 where
  -- a stored program list is in a supported format, and each program is valid in it
  pub format_supported : job.programs ≢ [] → supported_format job.format ≡ true
  pub programs_valid : All (IsProgram job.format) job.programs
  pub status_possible : CanBe job.status
  -- results are there from the submission on, one for each program
  pub none_before : job.status ≡ created → job.results ≡ []
  pub one_each : (job.results ≡ []) ⊎ (length job.results ≡ length job.programs)
  pub all_there : job.status ≡ running → length job.results ≡ length job.programs
  pub results_valid : All (IsResult job.num_shots) job.results

-- What a function leaves behind the handle, if anything, is sound.
abbrev pub IsSoundOption : Option Job → Type 0
IsSoundOption none = Unit
IsSoundOption (some job) = IsSound job

pub new_job-IsSound :
    (address id : ℕ)
    → IsSound (record {
      session = address;
      id = id;
      format = ProgramFormat.max_value;
      programs = [];
      status = created;
      num_shots = 0;
      results = [];
    })
new_job-IsSound address id = record {
  format_supported = λ e. absurd (e refl);
  programs_valid = tt;
  status_possible = tt;
  none_before = λ _. refl;
  one_each = inl refl;
  all_there = λ e. cc;
  results_valid = tt;
}

abbrev pub LeavesSound : Option (Code × Option Job) → Type 0
LeavesSound none = Unit
LeavesSound (some (c, job)) = IsSoundOption job
