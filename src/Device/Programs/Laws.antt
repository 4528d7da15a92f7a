-- ===== src/Device/Programs/Laws.antt =====
-- What a job's program list holds after set_programs, and what get_program gives back.
use qdmi.Base.{
  ℕ, zero, suc, ◌≡◌, ◌≢◌, refl, ap, inl, inr, Bool, true, false, not, ◌||◌, Option, none, some,
  List, [], ◌∷◌, ltb, ◌==◌, length, take, get_elem?, arith, All, Bool-cases, not_ltb→le,
  length-take,
}
use mathlib.Core.Option.{some-injective}
use qdmi.Base.Bytes.{Bytes}
use qdmi.Constants.{
  Code, error_invalid_argument, error_bad_state, error_not_supported, success, JobStatus, created,
}
use qdmi.Device.State.{Job}
use qdmi.Device.Programs.{
  is_created, load_given, valid_format, supported_format, valid_program, copy_program, Loaded,
  loaded, stopped, undefined, load_program, load_programs, load_all, set_programs, store_programs,
}

-- A program as it is stored: not empty, and a text has its one NUL at its end.
abbrev pub IsProgram : ℕ → Bytes → Type 0
IsProgram format bytes = valid_program format (length bytes) (some bytes) ≡ some true

-- The programs that the first n entries of the two arrays describe, all of them valid.
pub data Inputs (format : ℕ) : ℕ → List ℕ → List (Option Bytes) → List Bytes → Type 0 where
  end_of_inputs :
      {sizes : List ℕ} {programs : List (Option Bytes)} → Inputs format zero sizes programs []
  input :
      {n size : ℕ} {program : Option Bytes} {bytes : Bytes} {sizes : List ℕ}
      {programs : List (Option Bytes)} {out : List Bytes}
      → valid_program format size program ≡ some true
      → copy_program size program ≡ some bytes
      → Inputs format n sizes programs out
      → Inputs format (suc n) (size ∷ sizes) (program ∷ programs) (bytes ∷ out)

load_program-loaded :
    (v : Option Bool) (c : Option Bytes) (allocated : Bool) (rest : Loaded) (out : List Bytes)
    → load_program v c allocated rest ≡ loaded out
    → (bytes : Bytes) × (later : List Bytes) × (v ≡ some true)
      × (c ≡ some bytes)
      × (rest ≡ loaded later)
      × (out ≡ bytes ∷ later)
load_program-loaded none c allocated rest out e = cc
load_program-loaded (some false) c allocated rest out e = cc
load_program-loaded (some true) none allocated rest out e = cc
load_program-loaded (some true) (some bytes) false rest out e = cc
load_program-loaded (some true) (some bytes) true (loaded later) out e =
    (bytes, later, refl, refl, refl, cc)
load_program-loaded (some true) (some bytes) true (stopped c) out e = cc
load_program-loaded (some true) (some bytes) true undefined out e = cc

load_programs-loaded :
    (memory : ℕ → Bool) (format n i : ℕ) (sizes : List ℕ) (programs : List (Option Bytes))
    (out : List Bytes)
    → load_programs memory format n i sizes programs ≡ loaded out
    → Inputs format n sizes programs out
unfolding load_programs
load_programs-loaded memory format zero i sizes programs out e =
    let none_left : [] ≡ out = cc in rw (← none_left) end_of_inputs
load_programs-loaded memory format (suc n) i [] programs out e = cc
load_programs-loaded memory format (suc n) i (size ∷ sizes) [] out e = cc
load_programs-loaded memory format (suc n) i (size ∷ sizes) (program ∷ programs) out e =
    let (bytes, later, v, c, r, o) =
      load_program-loaded (valid_program format size program) (copy_program size program)
        (memory (suc i)) (load_programs memory format n (suc i) sizes programs) out e in
    rw o (input v c (load_programs-loaded memory format n (suc i) sizes programs later r))

-- With memory for every copy the loop loads exactly these programs.
pub Inputs-load_programs :
    (memory : ℕ → Bool) (format i : ℕ) {n : ℕ} {sizes : List ℕ} {programs : List (Option Bytes)}
    {out : List Bytes}
    → ((k : ℕ) → memory k ≡ true)
    → Inputs format n sizes programs out
    → load_programs memory format n i sizes programs ≡ loaded out
unfolding load_programs
Inputs-load_programs memory format i m end_of_inputs = refl
Inputs-load_programs memory format i m (input v c rest) =
    rw (load_programs, v, c, m (suc i), Inputs-load_programs memory format (suc i) m rest)

take-take : (n : ℕ) (bs : Bytes) → take n (take (suc n) bs) ≡ take n bs
take-take zero bs = refl
take-take (suc n) [] = refl
take-take (suc n) (b ∷ bs) = ap (λ t. b ∷ t) (take-take n bs)

get_elem?-take : (n : ℕ) (bs : Bytes) → get_elem? (take (suc n) bs) n ≡ get_elem? bs n
get_elem?-take zero [] = refl
get_elem?-take zero (b ∷ bs) = refl
get_elem?-take (suc n) [] = refl
get_elem?-take (suc n) (b ∷ bs) = get_elem?-take n bs

valid_program-take :
    (format n : ℕ) (memory : Bytes)
    → valid_program format (suc n) (some (take (suc n) memory))
      ≡ valid_program format (suc n) (some memory)
unfolding valid_program
valid_program-take format n memory = ground (arith, get_elem?-take n memory, take-take n memory)

pub copy_program-eq :
    (size : ℕ) (memory bytes : Bytes)
    → copy_program size (some memory) ≡ some bytes
    → (take size memory ≡ bytes) × (length bytes ≡ size)
unfolding copy_program
copy_program-eq size memory bytes c = elim (Bool-cases (ltb (length memory) size)) [
  | inl short ↦ (let d : none ≡ some bytes = rw short at c in cc)
  | inr fits ↦
      let e : take size memory ≡ bytes = some-injective _ _ (rw fits at c) in
      (e, rw (← e) (omega (arith, length-take size memory, not_ltb→le _ _ fits)))
]

-- A copy of a valid program is a valid program.
copy-IsProgram :
    (format size : ℕ) (program : Option Bytes) (bytes : Bytes)
    → valid_program format size program ≡ some true
    → copy_program size program ≡ some bytes
    → IsProgram format bytes
copy-IsProgram format size none bytes v c = unfold copy_program in cc
copy-IsProgram format zero (some memory) bytes v c = unfold valid_program in cc
copy-IsProgram format (suc n) (some memory) bytes v c =
    let (e, l) = copy_program-eq (suc n) memory bytes c in
    rw (l, ← e, valid_program-take format n memory) v

pub Inputs-IsProgram :
    (format : ℕ) {n : ℕ} {sizes : List ℕ} {programs : List (Option Bytes)} {out : List Bytes}
    → Inputs format n sizes programs out
    → All (IsProgram format) out × (length out ≡ n)
Inputs-IsProgram format end_of_inputs = (tt, refl)
Inputs-IsProgram format (input v c rest) =
    let (valid, len) = Inputs-IsProgram format rest in
    ((copy-IsProgram format _ _ _ v c, valid), ap suc len)

load_all-loaded :
    (memory : ℕ → Bool) (format count : ℕ) (sizes : List ℕ) (programs : List (Option Bytes))
    (out : List Bytes)
    → load_all memory format count sizes programs ≡ loaded out
    → Inputs format count sizes programs out
unfolding load_all
load_all-loaded memory format count sizes programs out e =
    load_programs-loaded memory format count 0 sizes programs out (ground arith)

pub is_created_iff : (s : JobStatus) → is_created s ≡ true → s ≡ created
is_created_iff s e = ground arith

load_program-ne-success :
    (v : Option Bool) (c : Option Bytes) (allocated : Bool) (rest : Loaded)
    → rest ≢ stopped success
    → load_program v c allocated rest ≢ stopped success
load_program-ne-success v c allocated rest h e = ground arith

load_programs-ne-success :
    (memory : ℕ → Bool) (format n i : ℕ) (sizes : List ℕ) (programs : List (Option Bytes))
    → load_programs memory format n i sizes programs ≢ stopped success
unfolding load_programs
load_programs-ne-success memory format zero i sizes programs e = cc
load_programs-ne-success memory format (suc n) i [] programs e = cc
load_programs-ne-success memory format (suc n) i (size ∷ sizes) [] e = cc
load_programs-ne-success memory format (suc n) i (size ∷ sizes) (program ∷ programs) e =
    load_program-ne-success _ _ _ _
      (load_programs-ne-success memory format n (suc i) sizes programs) e

load_all-ne-success :
    (memory : ℕ → Bool) (format count : ℕ) (sizes : List ℕ) (programs : List (Option Bytes))
    → load_all memory format count sizes programs ≢ stopped success
unfolding load_all
load_all-ne-success memory format count sizes programs e =
    ground (arith, load_programs-ne-success memory format count 0 sizes programs)

-- What set_programs may have done to a job, by its status code.
pub data SetPrograms (job : Job) (format count : ℕ) (sizes : Option (List ℕ))
    (programs : Option (List (Option Bytes))) : Option (Code × Option Job) → Type 0 where
  -- an error, which changes nothing
  kept : (c : Code) → c ≢ success → SetPrograms job format count sizes programs (some (c, some job))
  -- a check that the format is supported, which changes nothing
  checked :
      programs ≡ none
      → supported_format format ≡ true
      → SetPrograms job format count sizes programs (some (success, some job))
  -- the list is stored
  stored :
      (ss : List ℕ) (ps : List (Option Bytes)) (out : List Bytes)
      → sizes ≡ some ss
      → programs ≡ some ps
      → job.status ≡ created
      → supported_format format ≡ true
      → Inputs format count ss ps out
      → SetPrograms job format count sizes programs
          (some (success, some (record job { format = format; programs = out })))
  -- a pointer was read past its end
  unreadable : SetPrograms job format count sizes programs none

module _ (memory : ℕ → Bool) (job : Job) (format count : ℕ) (fresh : job.status ≡ created)
    (supported : supported_format format ≡ true) where
  store_programs-SetPrograms :
      (ss : List ℕ) (ps : List (Option Bytes)) (l : Loaded)
      → load_all memory format count ss ps ≡ l
      → l ≢ stopped success
      → SetPrograms job format count (some ss) (some ps) (store_programs job format l)
  store_programs-SetPrograms ss ps (loaded out) e n =
      stored ss ps out refl refl fresh supported (load_all-loaded memory format count ss ps out e)
  store_programs-SetPrograms ss ps (stopped c) e n = kept c (λ s. n (ap stopped s))
  store_programs-SetPrograms ss ps undefined e n = unreadable

  load_given-SetPrograms :
      (sizes : Option (List ℕ)) (programs : Option (List (Option Bytes)))
      → SetPrograms job format count sizes programs
          (load_given memory job format count sizes programs)
  load_given-SetPrograms sizes none = checked refl supported
  load_given-SetPrograms none (some ps) = kept error_invalid_argument (λ e. cc)
  load_given-SetPrograms (some ss) (some ps) =
      store_programs-SetPrograms ss ps (load_all memory format count ss ps) refl
        (load_all-ne-success memory format count ss ps)

-- set_programs stores exactly the programs that it was given, all of them valid, in a job that
-- has just been created; or it checks the format; or it returns an error and changes nothing.
pub set_programs-SetPrograms :
    (memory : ℕ → Bool) (job : Job) (format count : ℕ) (sizes : Option (List ℕ))
    (programs : Option (List (Option Bytes)))
    → SetPrograms job format count sizes programs
        (set_programs memory (some job) format count sizes programs)
unfolding set_programs
set_programs-SetPrograms memory job format count sizes programs =
    elim (Bool-cases (count == 0 || not (valid_format format))) [
      | inl bad ↦ rw bad (kept error_invalid_argument (λ e. cc))
      | inr good ↦ elim (Bool-cases (is_created job.status)) [
        | inr late ↦ rw (good, late) (kept error_bad_state (λ e. cc))
        | inl fresh ↦ elim (Bool-cases (supported_format format)) [
          | inr other ↦ rw (good, fresh, other) (kept error_not_supported (λ e. cc))
          | inl supported ↦
              rw (good, fresh, supported)
                (load_given-SetPrograms memory job format count (is_created_iff job.status fresh)
                  supported sizes programs)
        ]
      ]
    ]
