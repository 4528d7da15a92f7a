-- ===== src/Device/Submit/Results.antt =====
-- What submit computes for each program.
use qdmi.Base.{
  ℕ, zero, suc, ◌+◌, ◌*◌, ◌^◌, ◌≤◌, ◌<◌, ◌≡◌, ◌∙◌, refl, ap, inl, inr, Bool, true, Option, none,
  some, List, [], ◌∷◌, ◌++◌, ltb, length, replicate, get_elem?-lt, ◌%◌, All, arith, ◌&&◌, ◌⊎◌,
  ltb_of_le, Bool-cases, length-map,
}
use qdmi.Base.Bytes.{Bytes, text, encode, decode}
use mathlib.Core.Path.{subst}
use qdmi.Constants.{Code, is_invalid_enum_value}
use qdmi.Output.{add_single_value_property, add_string_property, answer, overwrite}
use qdmi.Device.State.{Session, initialized, DeviceState, Build, Random, Float, ResultData}
use qdmi.Device.Query.{query_device_property, device_properties}
use qdmi.Device.Submit.{
  num_qubits, shot_outputs, marker_index, output_index, pad_shot, draw_state, state_vector,
  max_shots, Setting, shot_of, compute_results, program_result, Outcome, computed, threw,
  add_result, Round, did, broke, finish_round, compute_program,
}

-- In an initialized session the query finds the five qubits.
pub num_qubits_initialized :
    (b : Build) (dev : DeviceState) (s : Session)
    → s.status ≡ initialized
    → num_qubits b dev (some s) ≡ 5
unfolding num_qubits query_device_property device_properties add_single_value_property
    add_string_property answer overwrite encode decode is_invalid_enum_value
num_qubits_initialized b dev s i = rw i refl

-- A shot: one character for each of the five qubits.
abbrev pub IsShot : Bytes → Type 0
IsShot shot = (n : ℕ) × (shot ≡ text "000" ++ shot_outputs n)

pad_shot_five : (n : ℕ) → pad_shot 5 (shot_outputs n) ≡ some (text "000" ++ shot_outputs n)
unfolding pad_shot
pad_shot_five zero = refl
pad_shot_five (suc zero) = refl
pad_shot_five (suc (suc zero)) = refl
pad_shot_five (suc (suc (suc n))) = refl

length-draw_state :
    (rnd : Random) (fl : Float) (n norm gen : ℕ) → length (draw_state rnd fl n norm gen).0 ≡ n
unfolding draw_state
length-draw_state rnd fl zero norm gen = refl
length-draw_state rnd fl (suc n) norm gen = ap suc (length-draw_state rnd fl n _ _)

-- The state vector has an amplitude for each state of the qubits.
length-state_vector :
    (rnd : Random) (fl : Float) (qubits gen : ℕ)
    → length (state_vector rnd fl qubits gen).0 ≡ 2 ^ qubits
unfolding state_vector
length-state_vector rnd fl qubits gen =
    length-map _ (draw_state rnd fl (2 ^ qubits) 0 gen).0
    ∙ length-draw_state rnd fl (2 ^ qubits) 0 gen

marker_index-lt :
    (format : ℕ) (program : Bytes)
    → 0 < length program
    → marker_index format program < length program
marker_index-lt format program h = ground arith

output_index-some :
    (count format : ℕ) (program : Bytes)
    → 0 < length program
    → (k : ℕ) × (output_index count format program ≡ some k)
unfolding output_index
output_index-some count format program h =
    let (m, e) =
      get_elem?-lt program (marker_index format program) (marker_index-lt format program h) in
    elim (Bool-cases (ltb 1 count)) [
      | inl several ↦ (m % 4, rw (several, e))
      | inr one ↦ (0, rw one)
    ]

shot_of_index :
    (s : Setting) (o : Option ℕ) (k : ℕ)
    → s.qubits ≡ 5
    → o ≡ some k
    → (elim o [ none ↦ none | some index ↦ pad_shot s.qubits (shot_outputs index) ])
      ≡ some (text "000" ++ shot_outputs k)
shot_of_index s o k q e = rw (e, q) (pad_shot_five k)

shot_of-some :
    (s : Setting) (program : Bytes)
    → s.qubits ≡ 5
    → 0 < length program
    → (shot : Bytes) × IsShot shot × (shot_of s program ≡ some shot)
unfolding shot_of
shot_of-some s program q h =
    let (k, e) = output_index-some s.count s.format program h in
    (
      text "000" ++ shot_outputs k,
      (k, refl),
      shot_of_index s (output_index s.count s.format program) k q e,
    )

-- One result: as many shots as the job asks for, all alike, and the amplitudes of five qubits.
pub record IsResult (num_shots : ℕ) (r : ResultData) : Type 0 where
  pub shot : Bytes
  pub is_shot : IsShot shot
  pub shots_eq : r.shots ≡ replicate num_shots shot
  pub amplitudes : length r.state_vec ≡ 32

program_result-IsResult :
    (s : Setting) (shot : Bytes) (gen : ℕ)
    → s.qubits ≡ 5
    → IsShot shot
    → IsResult s.num_shots (program_result s.rnd s.fl s.qubits s.num_shots shot gen).0
program_result-IsResult s shot gen q h = record {
  shot = shot;
  is_shot = h;
  shots_eq = refl;
  amplitudes = length-state_vector s.rnd s.fl s.qubits gen ∙ ap (λ (n : ℕ). 2 ^ n) q;
}

finish_round-IsResult :
    (s : Setting) (allocated : Bool) (gen gen' : ℕ) (shot : Bytes) (r : ResultData)
    → s.qubits ≡ 5
    → IsShot shot
    → finish_round s allocated gen (some shot) ≡ did r gen'
    → IsResult s.num_shots r
finish_round-IsResult s allocated gen gen' shot r q h e =
    let same : (program_result s.rnd s.fl s.qubits s.num_shots shot gen).0 ≡ r = ground arith in
    subst (IsResult s.num_shots) same (program_result-IsResult s shot gen q h)

compute_program-IsResult :
    (s : Setting) (allocated : Bool) (gen gen' : ℕ) (program : Bytes) (r : ResultData)
    → s.qubits ≡ 5
    → 0 < length program
    → compute_program s allocated gen program ≡ did r gen'
    → IsResult s.num_shots r
unfolding compute_program
compute_program-IsResult s allocated gen gen' program r q h e =
    let (shot, is_shot, found) = shot_of-some s program q h in
    finish_round-IsResult s allocated gen gen' shot r q is_shot (rw found at e)

-- The results of a list of programs.
pub record IsResults (s : Setting) (programs : List Bytes) (rs : List ResultData) : Type 0 where
  pub one_each : length rs ≡ length programs
  pub each : All (IsResult s.num_shots) rs

Round-cases :
    (o : Round)
    → ((c : Code) × (gen : ℕ) × (o ≡ broke c gen))
      ⊎ ((r : ResultData) × (gen : ℕ) × (o ≡ did r gen))
Round-cases (broke c gen) = inl (c, gen, refl)
Round-cases (did r gen) = inr (r, gen, refl)

add_result-computed :
    (r : ResultData) (o : Outcome) (rs : List ResultData) (gen : ℕ)
    → add_result r o ≡ computed rs gen
    → (later : List ResultData) × (o ≡ computed later gen) × (rs ≡ r ∷ later)
add_result-computed r (computed later g) rs gen e = (later, cc, cc)
add_result-computed r (threw c g) rs gen e = cc

-- Whatever compute_results returns is a result for each program.
pub compute_results-IsResults :
    (s : Setting) (memory : ℕ → Bool) (i : ℕ) (programs : List Bytes) (gen gen' : ℕ)
    (rs : List ResultData)
    → s.qubits ≡ 5
    → All (λ (p : Bytes). 0 < length p) programs
    → compute_results s memory i programs gen ≡ computed rs gen'
    → IsResults s programs rs
unfolding compute_results
compute_results-IsResults s memory i [] gen gen' rs q h e =
    let none_left : [] ≡ rs = cc in rw (← none_left) (record { one_each = refl; each = tt })
compute_results-IsResults s memory i (program ∷ programs) gen gen' rs q h e =
    let allocated = memory (2 * i + 1) && memory (2 * i + 2) in
    elim (Round-cases (compute_program s allocated gen program)) [
      | inl (c, g, stop) ↦
          (let no : threw c g ≡ computed rs gen' = rw (stop, compute_results) at e in cc)
      | inr (r, g, ok) ↦
          let (later, rest, shape) =
            add_result-computed r (compute_results s memory (suc i) programs g) rs gen'
              (rw (ok, compute_results) at e) in
          let ih = compute_results-IsResults s memory (suc i) programs g gen' later q h.1 rest in
          rw shape (record {
            one_each = ap suc ih.one_each;
            each = (compute_program-IsResult s allocated gen g program r q h.0 ok, ih.each);
          })
    ]

compute_program-did :
    (s : Setting) (gen : ℕ) (program shot : Bytes)
    → s.num_shots ≤ max_shots
    → shot_of s program ≡ some shot
    → (a : Bool) → a ≡ true
    → compute_program s a gen program
      ≡ did
          (program_result s.rnd s.fl s.qubits s.num_shots shot gen).0
          (program_result s.rnd s.fl s.qubits s.num_shots shot gen).1
unfolding compute_program
compute_program-did s gen program shot n found a m = rw (found, m, ltb_of_le _ _ n)

-- With memory for every allocation and a number of shots that a vector holds, it returns them.
pub compute_results-computed :
    (s : Setting) (memory : ℕ → Bool) (i : ℕ) (programs : List Bytes) (gen : ℕ)
    → s.qubits ≡ 5
    → s.num_shots ≤ max_shots
    → ((k : ℕ) → memory k ≡ true)
    → All (λ (p : Bytes). 0 < length p) programs
    → (rs : List ResultData) × (gen' : ℕ) × (compute_results s memory i programs gen
        ≡ computed rs gen')
unfolding compute_results
compute_results-computed s memory i [] gen q n m h = ([], gen, refl)
compute_results-computed s memory i (program ∷ programs) gen q n m h =
    let (shot, is_shot, found) = shot_of-some s program q h.0 in
    let (r, g) = program_result s.rnd s.fl s.qubits s.num_shots shot gen in
    let (rs, gen', e) = compute_results-computed s memory (suc i) programs g q n m h.1 in
    let both : (memory (2 * i + 1) && memory (2 * i + 2)) ≡ true =
      rw (m (2 * i + 1), m (2 * i + 2)) in
    (
      r ∷ rs,
      gen',
      rw (compute_program-did s gen program shot n found _ both, compute_results)
          (ap (add_result r) e),
    )
