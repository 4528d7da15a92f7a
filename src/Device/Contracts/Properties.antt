-- ===== src/Device/Contracts/Properties.antt =====
-- The query of a job's properties in examples/device/src/cxx_device.cpp returns the codes that
-- include/qdmi/device.h documents, also where a property has no value yet.
use qdmi.Base.{
  ℕ, zero, ◌<◌, ◌≡◌, ◌⊎◌, inl, inr, refl, Bool, true, false, ◌==◌, if◌then◌else◌, Option, none,
  some, List, [], ◌∷◌, ◌++◌, arith, Bool-cases, length, length-append, lookup, All, lookup-nil,
}
use qdmi.Base.Bytes.{Bytes, encode}
use qdmi.Constants.{
  Code, error_invalid_argument, error_bad_state, error_not_supported, is_invalid_enum_value,
}
use qdmi.Constants.DeviceJobProperty
use qdmi.Output.{
  Request, Reply, fail, is_empty_buffer, add_single_value_property, add_string_property,
}
use qdmi.Output.Serves.{IsContract, Serves, Answers-some, refused, single-Answers}
use qdmi.Output.Strings.{string-Answers}
use qdmi.Device.State.{Job}
use qdmi.Device.Jobs.{to_string, job_properties, job_query_property}
use qdmi.Device.Contracts.{no_cause}
use qdmi.Device.Contracts.Reply.{OfReply, Serves-Documented, empty-IsSmall}
use qdmi.Interface.{Documented, invalid, caused, succeeded, reported, Listed, IsSmall}
use qdmi.Interface

-- What a job has to say of itself.
abbrev pub job_table : Job → List (ℕ × Bytes)
job_table job =
    (DeviceJobProperty.id, to_string job.id ++ zero ∷ [])
    ∷ (DeviceJobProperty.programformat, encode 4 job.format)
    ∷ (DeviceJobProperty.shotsnum, encode 8 job.num_shots)
    ∷ (DeviceJobProperty.programsnum, encode 8 (length job.programs))
    ∷ []

module _ (Invalid : Type 0) (others : List Code) (fine : ¬ Invalid) (prop : ℕ) (r : Request)
    (h : IsContract r) where
  abbrev IsAnswer : Option Bytes → Option Reply → Type 0
  IsAnswer payload = OfReply (Documented Invalid (IsSmall payload r) others)

  string-Documented :
      (name : ℕ) (s : Bytes) (table : List (ℕ × Bytes)) (rest : Option Reply)
      → IsAnswer (lookup prop table) rest
      → IsAnswer
          (lookup prop ((name, s ++ zero ∷ []) ∷ table))
          (add_string_property name s prop r rest)
  unfolding add_string_property lookup
  string-Documented name s table rest k = elim (Bool-cases (prop == name)) [
    | inl same ↦
        let a : Serves (s ++ zero ∷ []) r
            (add_string_property name s prop r (some (fail r error_not_supported))) =
          Answers-some
            (string-Answers name prop r _ [] s h (refused (lookup-nil {A = Bytes} prop) refl))
            (rw same) in
        rw same (Serves-Documented Invalid others (s ++ zero ∷ []) r _ fine (rw same at a))
    | inr other ↦ rw other k
  ]

  pub single-Documented :
      (name : ℕ) (bytes : Bytes) (table : List (ℕ × Bytes)) (rest : Option Reply)
      → IsAnswer (lookup prop table) rest
      → IsAnswer
          (lookup prop ((name, bytes) ∷ table))
          (add_single_value_property name bytes prop r rest)
  unfolding add_single_value_property lookup
  single-Documented name bytes table rest k = elim (Bool-cases (prop == name)) [
    | inl same ↦
        let a : Serves bytes r
            (add_single_value_property name bytes prop r (some (fail r error_not_supported))) =
          Answers-some
            (single-Answers name prop r _ [] bytes h (refused (lookup-nil {A = Bytes} prop) refl))
            (rw same) in
        rw same (Serves-Documented Invalid others bytes r _ fine (rw same at a))
    | inr other ↦ rw other k
  ]

  -- A value that is not there yet.
  missing-Documented :
      (t : Bool) (payload : Option Bytes) (rest : Option Reply)
      → Listed error_bad_state others
      → IsAnswer payload rest
      → IsAnswer payload (if t then some (fail r error_bad_state) else rest)
  missing-Documented true payload rest l k = reported _ fine l
  missing-Documented false payload rest l k = k

job_properties-Documented :
    (job : Job) (prop : ℕ) (r : Request)
    → IsContract r
    → is_invalid_enum_value prop DeviceJobProperty.max_value ≡ false
    → OfReply
        (Interface.JobQueryProperty (some job) prop (lookup prop (job_table job)) r)
        (job_properties job prop r)
unfolding job_properties
job_properties-Documented job prop r h valid =
    let fine : ¬ (
        (some job ≡ none) ⊎ (is_invalid_enum_value prop DeviceJobProperty.max_value ≡ true)) =
      no_cause (λ n. cc) (λ n. cc) in
    string-Documented _ _ fine prop r h _ _ _ _ (
      missing-Documented _ _ fine prop r h _ _ _ (inr (inl refl)) (
        single-Documented _ _ fine prop r h _ _ _ _ (
          single-Documented _ _ fine prop r h _ _ _ _ (
            missing-Documented _ _ fine prop r h _ _ _ (inr (inl refl))
              (single-Documented _ _ fine prop r h _ _ _ _ (reported _ fine (inl refl)))))))

job_table-IsFull : (job : Job) → All (λ (e : ℕ × Bytes). 0 < length e.1) (job_table job)
unfolding encode
job_table-IsFull job = omega (arith, length-append (to_string job.id) (zero ∷ []))

-- The properties of a job, where there is one.
abbrev pub data_of_job : Option Job → ℕ → Option Bytes
data_of_job none prop = none
data_of_job (some job) prop = lookup prop (job_table job)

query_in-Documented :
    (job : Job) (prop : ℕ) (r : Request)
    → IsContract r
    → is_invalid_enum_value prop DeviceJobProperty.max_value ≡ false
    → OfReply (Interface.JobQueryProperty (some job) prop (lookup prop (job_table job)) r) (
        if is_empty_buffer r
        then some (fail r error_invalid_argument)
        else job_properties job prop r)
query_in-Documented job prop r h valid = elim (Bool-cases (is_empty_buffer r)) [
  | inl empty ↦ rw empty (
      caused (no_cause (λ n. cc) (λ n. cc))
        (empty-IsSmall prop (job_table job) r (job_table-IsFull job) empty))
  | inr usable ↦ rw usable (job_properties-Documented job prop r h valid)
]

query_invalid :
    (job : Job) (prop : ℕ) (r : Request)
    → is_invalid_enum_value prop DeviceJobProperty.max_value ≡ true
    → job_query_property (some job) prop r ≡ some (fail r error_invalid_argument)
unfolding job_query_property
query_invalid job prop r bad = elim (Bool-cases (is_empty_buffer r)) [
  | inl empty ↦ rw (job_query_property, empty)
  | inr usable ↦ rw (job_query_property, usable, bad)
]

query_valid :
    (job : Job) (prop : ℕ) (r : Request)
    → is_invalid_enum_value prop DeviceJobProperty.max_value ≡ false
    → job_query_property (some job) prop r ≡ (
        if is_empty_buffer r
        then some (fail r error_invalid_argument)
        else job_properties job prop r)
unfolding job_query_property
query_valid job prop r valid = elim (Bool-cases (is_empty_buffer r)) [
  | inl empty ↦ rw (job_query_property, empty)
  | inr usable ↦ rw (job_query_property, usable, valid)
]

pub job_query_property-Documented :
    (job : Option Job) (prop : ℕ) (r : Request)
    → IsContract r
    → OfReply
        (Interface.JobQueryProperty job prop (data_of_job job prop) r)
        (job_query_property job prop r)
unfolding job_query_property
job_query_property-Documented none prop r h = invalid (inl refl)
job_query_property-Documented (some job) prop r h =
    elim (Bool-cases (is_invalid_enum_value prop DeviceJobProperty.max_value)) [
      | inl bad ↦ rw (query_invalid job prop r bad) (invalid (inr bad))
      | inr valid ↦ rw (query_valid job prop r valid) (query_in-Documented job prop r h valid)
    ]
