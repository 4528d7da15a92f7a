-- ===== src/Device/Submit.antt =====
-- CXX_QDMI_device_job_submit in examples/device/src/cxx_device.cpp: the results of every program
-- are computed when the job is submitted.
pub mod Results
use qdmi.Base.{
  ℕ, zero, suc, ◌+◌, ◌-◌, ◌*◌, ◌%◌, ◌^◌, Bool, true, false, not, ◌&&◌, ◌||◌, Option, none, some,
  List, [], ◌∷◌, ◌++◌, map, ltb, ◌==◌, if◌then◌else◌, length, replicate, get_elem?, is_empty,
}
use qdmi.Base.Bytes.{Bytes, text, encode, decode}
use qdmi.Constants.{
  Code, success, error_invalid_argument, error_bad_state, error_out_of_mem, error_fatal,
  DeviceStatus, busy, JobStatus, running,
}
use qdmi.Constants.DeviceProperty
use qdmi.Constants.ProgramFormat
use qdmi.Output.{Request, Reply}
use qdmi.Device.State.{
  Job, ResultData, Amplitude, Session, DeviceState, Build, Random, Float, Effect,
}
use qdmi.Device.Programs.{is_created}
use qdmi.Device.Query.{query_device_property}

-- The query of the number of qubits: the variable holds 0 if nothing is written to it.
unfoldable pub num_qubits : Build → DeviceState → Option Session → ℕ
num_qubits b dev session =
    elim (query_device_property b dev session DeviceProperty.qubitsnum
      (record { size = 8; value = some (encode 8 0); size_ret = false })) [
        | none ↦ 0
        | some reply ↦ elim reply.value [ none ↦ 0 | some buf ↦ decode buf ]
      ]

-- `shot_outputs`.
abbrev pub shot_outputs : ℕ → Bytes
shot_outputs zero = text "01"
shot_outputs (suc zero) = text "10"
shot_outputs (suc (suc zero)) = text "11"
shot_outputs _ = text "00"

-- The index of the marker byte: the last byte of a module, the one before the NUL of a text.
abbrev pub marker_index : ℕ → Bytes → ℕ
marker_index format program =
    length program
    - (if not (format == ProgramFormat.qirbasemodule) && ltb 1 (length program) then 2 else 1)

-- `output_index`; an empty program makes `program.at` throw, which is `none`.
unfoldable pub output_index : ℕ → ℕ → Bytes → Option ℕ
output_index count format program =
    if ltb 1 count
    then elim (get_elem? program (marker_index format program)) [
      | none ↦ none
      | some marker ↦ some (marker % 4)
    ]
    else some 0

-- `std::string::max_size()` and `std::vector<std::string>::max_size()`.
abbrev pub max_string : ℕ
max_string = 4611686018427387903

abbrev pub max_shots : ℕ
max_shots = 288230376151711743

-- `shot.insert(0, num_qubits - shot.size(), '0')`: the subtraction wraps, and a count past the
-- longest string throws.
unfoldable pub pad_shot : ℕ → Bytes → Option Bytes
pad_shot qubits shot =
    let zeros = (qubits + 18446744073709551616 - length shot) % 18446744073709551616 in
    if ltb max_string (length shot + zeros) then none else some (replicate zeros b'0' ++ shot)

-- The loop over the amplitudes: it draws two numbers for each and adds up the norms. The two draws
-- of one amplitude are taken in the order of the arguments.
unfoldable pub draw_state : Random → Float → ℕ → ℕ → ℕ → List Amplitude × (ℕ × ℕ)
draw_state rnd fl zero norm gen = ([], (norm, gen))
draw_state rnd fl (suc n) norm gen =
    let (re, gen1) = rnd.draw_real gen in
    let (im, gen2) = rnd.draw_real gen1 in
    let c : Amplitude = record { re = re; im = im } in
    let (cs, (norm', gen')) = draw_state rnd fl n (fl.add norm (fl.norm c)) gen2 in
    (c ∷ cs, (norm', gen'))

-- How the loop over the programs ends; the generator has advanced in either case.
pub data Outcome : Type 0 where
  computed : List ResultData → ℕ → Outcome
  threw : Code → ℕ → Outcome

-- The state vector of one program: as many amplitudes as the qubits have states, and their
-- division by the square root of the norm.
unfoldable pub state_vector : Random → Float → ℕ → ℕ → List Amplitude × ℕ
unfolding draw_state
state_vector rnd fl qubits gen =
    let (cs, (norm, gen')) = draw_state rnd fl (2 ^ qubits) 0 gen in
    (map (λ c. fl.divide c (fl.sqrt norm)) cs, gen')

-- The shots and the state vector of one program, for the text of a shot.
abbrev pub program_result : Random → Float → ℕ → ℕ → Bytes → ℕ → ResultData × ℕ
program_result rnd fl qubits shots shot gen =
    let (cs, gen') = state_vector rnd fl qubits gen in
    (record { shots = replicate shots shot; state_vec = cs }, gen')

abbrev pub add_result : ResultData → Outcome → Outcome
add_result r (computed rs gen) = computed (r ∷ rs) gen
add_result r (threw c gen) = threw c gen

-- The job's data that the loop reads.
pub record Setting : Type 0 where
  pub rnd : Random
  pub fl : Float
  pub qubits : ℕ
  pub count : ℕ
  pub format : ℕ
  pub num_shots : ℕ

-- `std::string{shot_outputs.at(output_index)}`, with the zeros in front; `none` if one throws.
unfoldable pub shot_of : Setting → Bytes → Option Bytes
shot_of s program = elim (output_index s.count s.format program) [
  | none ↦ none
  | some index ↦ pad_shot s.qubits (shot_outputs index)
]

-- How one round ends.
pub data Round : Type 0 where
  did : ResultData → ℕ → Round
  broke : Code → ℕ → Round

-- The rest of a round, after the text of its shots: both allocations, and the results.
abbrev pub finish_round : Setting → Bool → ℕ → Option Bytes → Round
finish_round s allocated gen none = broke error_fatal gen
finish_round s allocated gen (some shot) =
    if ltb max_shots s.num_shots
    then broke error_fatal gen
    else if not allocated
    then broke error_out_of_mem gen
    else let (r, gen') = program_result s.rnd s.fl s.qubits s.num_shots shot gen in did r gen'

unfoldable pub compute_program : Setting → Bool → ℕ → Bytes → Round
compute_program s allocated gen program = finish_round s allocated gen (shot_of s program)

-- The loop over the programs. Each round allocates twice, for the shots and for the state vector;
-- `memory k` tells whether the allocation k of the call succeeds.
unfoldable pub compute_results : Setting → (ℕ → Bool) → ℕ → List Bytes → ℕ → Outcome
compute_results s memory i [] gen = computed [] gen
compute_results s memory i (program ∷ programs) gen =
    elim (compute_program s (memory (2 * i + 1) && memory (2 * i + 2)) gen program) [
      | broke c gen' ↦ threw c gen'
      | did r gen' ↦ add_result r (compute_results s memory (suc i) programs gen')
    ]

-- The end of the function, by the outcome of the `try` block.
abbrev pub finish_submit : DeviceState → Job → Outcome → Effect
finish_submit dev job (threw c gen) = record {
  code = c;
  dev = record dev { gen = gen };
  job = some job;
}
finish_submit dev job (computed rs gen) = record {
  code = success;
  dev = record dev { status = busy; gen = gen };
  job = some (record job { results = rs; status = running });
}

abbrev pub submit_setting : Build → Random → Float → DeviceState → Option Session → Job → Setting
submit_setting b rnd fl dev session job = record {
  rnd = rnd;
  fl = fl;
  qubits = num_qubits b dev session;
  count = length job.programs;
  format = job.format;
  num_shots = job.num_shots;
}

-- The `try` block; allocation 0 is the vector of the results.
unfoldable pub try_submit : Setting → (ℕ → Bool) → List Bytes → ℕ → Outcome
try_submit s memory programs gen =
    if memory 0 then compute_results s memory 0 programs gen else threw error_out_of_mem gen

-- CXX_QDMI_device_job_submit. `session` is the structure behind `job->session`.
unfoldable pub submit :
    Build → Random → Float → (ℕ → Bool) → DeviceState → Option Session → Option Job → Effect
submit b rnd fl memory dev session none = record {
  code = error_invalid_argument;
  dev = dev;
  job = none;
}
submit b rnd fl memory dev session (some job) =
    if not (is_created job.status)
    then record { code = error_invalid_argument; dev = dev; job = some job }
    else if is_empty job.programs
    then record { code = error_bad_state; dev = dev; job = some job }
    else finish_submit dev job
        (try_submit (submit_setting b rnd fl dev session job) memory job.programs dev.gen)
