-- ===== src/Device/Programs/Roundtrip.antt =====
-- Reading a program of a job back: set_programs and get_program of
-- examples/device/src/cxx_device.cpp together.
use mathlib.Core.Option.{some-injective}
use qdmi.Base.{
  ◌≤◌, true, ◌==◌, ltb_of_le, ℕ, zero, suc, ◌<◌, ◌≡◌, refl, sym, ap, Bool, false, Option, some,
  List, get_elem?, take, length, is_empty, arith,
}
use qdmi.Base.Bytes.{Bytes}
use qdmi.Constants.{created, Code, success}
use qdmi.Output.{Request}
use qdmi.Output.Serves.{IsContract, Serves, copy-Serves}
use qdmi.Device.State.{Job}
use qdmi.Device.Programs.{
  valid_format, supported_format, load_all, loaded, max_programs, set_programs, get_program,
  get_program_in,
}
use qdmi.Device.Programs.Laws.{
  Inputs-load_programs, Inputs, end_of_inputs, input, copy_program-eq, SetPrograms, kept, checked,
  stored, unreadable, set_programs-SetPrograms,
}

-- Of what set_programs may have done, a success with a program list stores it.
SetPrograms-stored :
    {job : Job} {format count : ℕ} {ss : List ℕ} {ps : List (Option Bytes)}
    {r : Option (Code × Option Job)} (j : Job)
    → SetPrograms job format count (some ss) (some ps) r
    → r ≡ some (success, some j)
    → Inputs format count ss ps j.programs
SetPrograms-stored j (kept c n) e = absurd (n cc)
SetPrograms-stored j (checked p s) e = cc
SetPrograms-stored j (stored ss ps out a b f s i) e =
    let same = some-injective _ _ (ap (λ x. x.1) (some-injective _ _ e)) in
    rw (some-injective _ _ a, some-injective _ _ b, ← ap (λ (x : Job). x.programs) same) i
SetPrograms-stored j unreadable e = cc

Inputs-get_elem? :
    {format n : ℕ} {ss : List ℕ} {ps : List (Option Bytes)} {out : List Bytes} (index size : ℕ)
    (memory : Bytes)
    → Inputs format n ss ps out
    → index < n
    → get_elem? ss index ≡ some size
    → get_elem? ps index ≡ some (some memory)
    → get_elem? out index ≡ some (take size memory)
Inputs-get_elem? index size memory end_of_inputs i e f = absurd (omega arith)
Inputs-get_elem? zero size memory (input v c rest) i e f =
    let found = rw (some-injective _ _ e, some-injective _ _ f) at c in
    ap some (sym (copy_program-eq size memory _ found).0)
Inputs-get_elem? (suc index) size memory (input v c rest) i e f =
    Inputs-get_elem? index size memory rest (omega arith) e f

load_all-loaded :
    (allocates : ℕ → Bool) (format count : ℕ) {ss : List ℕ} {ps : List (Option Bytes)}
    {out : List Bytes}
    → ((k : ℕ) → allocates k ≡ true)
    → count ≤ max_programs
    → Inputs format count ss ps out
    → load_all allocates format count ss ps ≡ loaded out
unfolding load_all
load_all-loaded allocates format count m few i =
    rw (ltb_of_le max_programs count few, m 0) (Inputs-load_programs allocates format 0 m i)

-- If the memory suffices, set_programs accepts any list of at least one and at most max_programs
-- programs that are valid in a supported format, for a job that has just been created, and stores
-- exactly those programs.
pub set_programs_accepts :
    (allocates : ℕ → Bool) (job : Job) (format count : ℕ) (ss : List ℕ) (ps : List (Option Bytes))
    (out : List Bytes)
    → ((k : ℕ) → allocates k ≡ true)
    → job.status ≡ created
    → valid_format format ≡ true
    → supported_format format ≡ true
    → 0 < count
    → count ≤ max_programs
    → Inputs format count ss ps out
    → set_programs allocates (some job) format count (some ss) (some ps)
      ≡ some (success, some (record job { format = format; programs = out }))
unfolding set_programs
set_programs_accepts allocates job format count ss ps out m fresh v s p few i =
    let some_there : (count == 0) ≡ false = ground arith in
    rw (some_there, v, fresh, s, load_all-loaded allocates format count m few i)

get_program-Serves :
    (job : Job) (index : ℕ) (program : Bytes) (r : Request)
    → get_elem? job.programs index ≡ some program
    → IsContract r
    → Serves program r (get_program (some job) index r)
unfolding get_program
get_program-Serves job index program r e c =
    let some_program : is_empty job.programs ≡ false = ground arith in
    rw (some_program, get_program_in, e) (copy-Serves program (length program) r refl c)

-- If set_programs succeeds with a list of programs, then get_program serves each of them: the bytes
-- at its pointer, as many as its size says.
pub programs_roundtrip :
    (allocates : ℕ → Bool) (job j : Job) (format count index size : ℕ) (ss : List ℕ)
    (ps : List (Option Bytes)) (memory : Bytes) (r : Request)
    → set_programs allocates (some job) format count (some ss) (some ps) ≡ some (success, some j)
    → index < count
    → get_elem? ss index ≡ some size
    → get_elem? ps index ≡ some (some memory)
    → IsContract r
    → Serves (take size memory) r (get_program (some j) index r)
programs_roundtrip allocates job j format count index size ss ps memory r e i s p c =
    let inputs =
      SetPrograms-stored j (set_programs-SetPrograms allocates job format count (some ss) (some ps))
        e in
    get_program-Serves j index (take size memory) r
      (Inputs-get_elem? index size memory inputs i s p) c
