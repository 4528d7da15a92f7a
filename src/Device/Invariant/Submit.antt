-- ===== src/Device/Invariant/Submit.antt =====
-- The function CXX_QDMI_device_job_submit of examples/device/src/cxx_device.cpp keeps the invariant
-- of a job.
use mathlib.Core.Path.{subst}
use qdmi.Base.{
  ℕ, ◌<◌, ◌≡◌, inl, inr, refl, Bool, some, List, [], not, ◌∷◌, length, All, is_empty, arith,
  Bool-cases,
}
use qdmi.Base.Bytes.{Bytes}
use qdmi.Constants.{error_out_of_mem}
use qdmi.Device.State.{Session, initialized, Job, ResultData, DeviceState, Build, Random, Float}
use qdmi.Device.Programs.{valid_program, is_created}
use qdmi.Device.Programs.Laws.{IsProgram}
use qdmi.Device.Submit.{
  submit, try_submit, Setting, Outcome, computed, threw, finish_submit, submit_setting,
}
use qdmi.Device.Submit.Results.{
  IsResult, IsResults, num_qubits_initialized, compute_results-IsResults,
}
use qdmi.Device.Invariant.{IsSound, IsSoundOption}

IsProgram-pos : (format : ℕ) (bytes : Bytes) → IsProgram format bytes → 0 < length bytes
unfolding valid_program
IsProgram-pos format bytes h = ground arith

pub programs-pos :
    (format : ℕ) (ps : List Bytes)
    → All (IsProgram format) ps
    → All (λ (p : Bytes). 0 < length p) ps
programs-pos format [] h = tt
programs-pos format (p ∷ ps) h = (IsProgram-pos format p h.0, programs-pos format ps h.1)

finish_submit-IsSound :
    (s : Setting) (dev : DeviceState) (job : Job) (o : Outcome)
    → s.num_shots ≡ job.num_shots
    → IsSound job
    → ((rs : List ResultData) (gen : ℕ) → o ≡ computed rs gen → IsResults s job.programs rs)
    → IsSoundOption (finish_submit dev job o).job
finish_submit-IsSound s dev job (threw c gen) e h k = h
finish_submit-IsSound s dev job (computed rs gen) e h k =
    let r = k rs gen refl in
    record {
      format_supported = h.format_supported;
      programs_valid = h.programs_valid;
      status_possible = tt;
      none_before = λ e. cc;
      one_each = inr r.one_each;
      all_there = λ _. r.one_each;
      results_valid = subst (λ (n : ℕ). All (IsResult n) rs) e r.each;
    }

try_submit-IsResults :
    (s : Setting) (memory : ℕ → Bool) (job : Job) (gen : ℕ)
    → s.qubits ≡ 5
    → IsSound job
    → (rs : List ResultData) (gen' : ℕ) → try_submit s memory job.programs gen ≡ computed rs gen'
    → IsResults s job.programs rs
unfolding try_submit
try_submit-IsResults s memory job gen q h rs gen' e = elim (Bool-cases (memory 0)) [
  | inl enough ↦
      compute_results-IsResults s memory 0 job.programs gen gen' rs q
        (programs-pos job.format job.programs h.programs_valid) (rw (enough, try_submit) at e)
  | inr short ↦
      (let no : threw error_out_of_mem gen ≡ computed rs gen' = rw (short, try_submit) at e in cc)
]

-- Submission in an initialized session keeps a job sound, whatever allocation fails.
pub submit-IsSound :
    (b : Build) (rnd : Random) (fl : Float) (memory : ℕ → Bool) (dev : DeviceState) (s : Session)
    (job : Job)
    → s.status ≡ initialized
    → IsSound job
    → IsSoundOption (submit b rnd fl memory dev (some s) (some job)).job
unfolding submit
submit-IsSound b rnd fl memory dev s job i h =
    let setting = submit_setting b rnd fl dev (some s) job in
    elim (Bool-cases (not (is_created job.status))) [
      | inl late ↦ rw late h
      | inr fresh ↦ elim (Bool-cases (is_empty job.programs)) [
        | inl empty ↦ rw (fresh, empty) h
        | inr given ↦
            rw (fresh, given)
              (finish_submit-IsSound setting dev job
                (try_submit setting memory job.programs dev.gen) refl h
                (try_submit-IsResults setting memory job dev.gen (num_qubits_initialized b dev s i)
                  h))
      ]
    ]
