-- ===== src/Device/Invariant/Operations.antt =====
-- The functions of examples/device/src/cxx_device.cpp that configure a job, cancel it, wait for it
-- and check it keep the invariant of a job.
use mathlib.Core.Path.{subst}
use qdmi.Base.{
  ℕ, ◌≡◌, ◌≢◌, inl, inr, sym, ◌∙◌, Bool, true, false, Option, none, some, List, ◌==◌, ◌||◌, All,
  arith, Bool-cases,
}
use qdmi.Base.Bytes.{Bytes, decode}
use qdmi.Constants.DeviceJobParameter
use qdmi.Constants.{
  is_invalid_enum_value, Code, success, JobStatus, created, running, done, canceled, failed,
}
use qdmi.Device.State.{Job, ResultData, DeviceState, Random}
use qdmi.Device.Programs.{set_programs, is_created}
use qdmi.Device.Programs.Laws.{
  is_created_iff, Inputs-IsProgram, SetPrograms, kept, checked, stored, unreadable,
  set_programs-SetPrograms,
}
use qdmi.Device.Session.{read_bytes, is_empty_value}
use qdmi.Device.Jobs.{
  set_num_shots, poll, check_in, wait_in, job_set_parameter, cancel, check, wait,
}
use qdmi.Device.Submit.Results.{IsResult}
use qdmi.Device.Invariant.{CanBe, IsSound, IsSoundOption, LeavesSound}

SetPrograms-LeavesSound :
    (job : Job) (format count : ℕ) (sizes : Option (List ℕ))
    (programs : Option (List (Option Bytes))) {r : Option (Code × Option Job)}
    → IsSound job
    → SetPrograms job format count sizes programs r
    → LeavesSound r
SetPrograms-LeavesSound job format count sizes programs h (kept c n) = h
SetPrograms-LeavesSound job format count sizes programs h (checked p s) = h
SetPrograms-LeavesSound job format count sizes programs h (stored ss ps out _ _ fresh s i) =
    let empty = h.none_before fresh in
    record {
      format_supported = λ _. s;
      programs_valid = (Inputs-IsProgram format i).0;
      status_possible = h.status_possible;
      none_before = h.none_before;
      one_each = inl empty;
      all_there = λ e. (let no : created ≡ running = sym fresh ∙ e in cc);
      results_valid = h.results_valid;
    }
SetPrograms-LeavesSound job format count sizes programs h unreadable = tt

pub set_programs-IsSound :
    (memory : ℕ → Bool) (job : Job) (format count : ℕ) (sizes : Option (List ℕ))
    (programs : Option (List (Option Bytes)))
    → IsSound job
    → LeavesSound (set_programs memory (some job) format count sizes programs)
set_programs-IsSound memory job format count sizes programs h =
    SetPrograms-LeavesSound job format count sizes programs h
      (set_programs-SetPrograms memory job format count sizes programs)

num_shots-IsSound :
    (job : Job) (n : ℕ)
    → IsSound job
    → job.status ≡ created
    → IsSound (record job { num_shots = n })
num_shots-IsSound job n h fresh = record {
  format_supported = h.format_supported;
  programs_valid = h.programs_valid;
  status_possible = h.status_possible;
  none_before = h.none_before;
  one_each = h.one_each;
  all_there = h.all_there;
  results_valid =
      subst (λ (rs : List ResultData). All (IsResult n) rs) (sym (h.none_before fresh)) tt;
}

word-IsSound :
    (job : Job) (word : Option Bytes)
    → IsSound job
    → job.status ≡ created
    → LeavesSound (elim word [
      | none ↦ none
      | some w ↦ some (success, some (record job { num_shots = decode w }))
    ])
word-IsSound job none h fresh = tt
word-IsSound job (some w) h fresh = num_shots-IsSound job (decode w) h fresh

set_num_shots-IsSound :
    (job : Job) (size : ℕ) (value : Option Bytes)
    → IsSound job
    → job.status ≡ created
    → LeavesSound (set_num_shots job size value)
set_num_shots-IsSound job size none h fresh = h
set_num_shots-IsSound job size (some bytes) h fresh = elim (Bool-cases (size == 8)) [
  | inl word ↦ rw word (word-IsSound job (read_bytes 8 bytes) h fresh)
  | inr other ↦ rw other h
]

pub job_set_parameter-IsSound :
    (job : Job) (param size : ℕ) (value : Option Bytes)
    → IsSound job
    → LeavesSound (job_set_parameter (some job) param size value)
unfolding job_set_parameter
job_set_parameter-IsSound job param size value h =
    elim (Bool-cases
      (is_empty_value size value || is_invalid_enum_value param DeviceJobParameter.max_value)) [
        | inl bad ↦ rw bad h
        | inr good ↦ elim (Bool-cases (is_created job.status)) [
          | inr late ↦ rw (good, late) h
          | inl fresh ↦ elim (Bool-cases (param == DeviceJobParameter.shotsnum)) [
            | inl shots ↦
                rw (good, fresh, shots)
                  (set_num_shots-IsSound job size value h (is_created_iff job.status fresh))
            | inr other ↦ rw (good, fresh, other) h
          ]
        ]
      ]

-- The state alone changes, to one in which nothing more is asked of the results.
status-IsSound :
    (job : Job) (s : JobStatus)
    → IsSound job
    → CanBe s
    → s ≢ created
    → s ≢ running
    → IsSound (record job { status = s })
status-IsSound job s h p nc nr = record {
  format_supported = h.format_supported;
  programs_valid = h.programs_valid;
  status_possible = p;
  none_before = λ e. absurd (nc e);
  one_each = h.one_each;
  all_there = λ e. absurd (nr e);
  results_valid = h.results_valid;
}

pub cancel-IsSound :
    (dev : DeviceState) (job : Job) → IsSound job → IsSoundOption (cancel dev (some job)).job
unfolding cancel
cancel-IsSound dev job h = ground (arith, status-IsSound job canceled)

wait_in-IsSound :
    (dev : DeviceState) (job : Job) (s : JobStatus)
    → IsSound job
    → IsSoundOption (wait_in s dev job).job
wait_in-IsSound dev job done h = h
wait_in-IsSound dev job canceled h = h
wait_in-IsSound dev job failed h = h
wait_in-IsSound dev job _ h = status-IsSound job done h tt (λ e. cc) (λ e. cc)

pub wait-IsSound :
    (dev : DeviceState) (job : Job) (timeout : ℕ)
    → IsSound job
    → IsSoundOption (wait dev (some job) timeout).job
unfolding wait
wait-IsSound dev job timeout h = wait_in-IsSound dev job job.status h

poll-IsSound :
    (draw : Bool × ℕ) (dev : DeviceState) (job : Job) → IsSound job → IsSound (poll draw dev job).1
poll-IsSound (true, gen) dev job h = status-IsSound job done h tt (λ e. cc) (λ e. cc)
poll-IsSound (false, gen) dev job h = h

check_in-IsSound :
    (rnd : Random) (dev : DeviceState) (job : Job) (s : JobStatus)
    → IsSound job
    → IsSound (check_in rnd s dev job).1
check_in-IsSound rnd dev job running h = poll-IsSound (rnd.draw_bit dev.gen) dev job h
check_in-IsSound rnd dev job _ h = h

pub check-IsSound :
    (rnd : Random) (dev : DeviceState) (job : Job) (out : Bool)
    → IsSound job
    → IsSoundOption (check rnd dev (some job) out).0.job
unfolding check
check-IsSound rnd dev job false h = h
check-IsSound rnd dev job true h = check_in-IsSound rnd dev job job.status h
