-- ===== src/Driver/Life.antt =====
-- The life of the example driver in examples/driver/qdmi_example_driver.cpp: QDMI_session_alloc and
-- QDMI_session_free, which initialize the driver for the first session and release the libraries
-- with the last.
use qdmi.Base.{
  ℕ, ◌+◌, ◌%◌, ◌<◌, ◌≡◌, refl, Bool, true, false, Option, none, some, List, [], ◌∷◌, ◌==◌, ltb,
  if◌then◌else◌, arith, Bool-cases, inl, inr,
}
use mathlib.Core.Path.{subst}
use mathlib.Core.Option.{some-injective}
use qdmi.Base.Bytes.{Bytes}
use qdmi.Constants.{Code, success, error_invalid_argument, error_out_of_mem}
use qdmi.Driver.{ConfiguredDevice}
use qdmi.Driver.Libraries.{
  Loader, Run, LoadedLibrary, destroy_libraries, Init, configured, failed, initialize_driver,
}
use qdmi.Driver.Libraries.Balance.{
  opens, closes, starts, ends, IsBalanced, destroy_libraries-IsBalanced, InitBalanced,
  read_lines-Balanced,
}

-- `QDMI_Driver_State`, with the run of the libraries.
pub record DriverState (S : Type 0) : Type 0 where
  pub libraries : List LoadedLibrary
  pub configured_devices : List ConfiguredDevice
  pub sessions : ℕ
  pub run : Run S

-- `QDMI_get_driver_state()` before the first call.
abbrev new_driver : {S : Type 0} → S → DriverState S
new_driver s = record {
  libraries = [];
  configured_devices = [];
  sessions = 0;
  run = record { state = s; events = [] };
}

-- The calls: the flags tell whether the out-parameter is not null and the session can be
-- allocated; then what the allocator does, and the lines of the configuration file, if it is there.
pub data DriverCall : Type 0 where
  alloc_session : Bool → Bool → (ℕ → Bool) → Option (List Bytes) → DriverCall
  free_session : DriverCall

-- The libraries in the driver's list are open and initialized and no other, and without a
-- session there is none.
pub record IsKept {S : Type 0} (st : DriverState S) : Type 0 where
  pub balanced : IsBalanced st.libraries st.run.events
  pub idle : st.sessions ≡ 0 → st.libraries ≡ []

module _ {S : Type 0} (loader : Loader S) where
  -- The assignments at the end of QDMI_initialize_driver, and `++driver_state->sessions`. The
  -- libraries that were in the driver are destroyed when the new ones take their place.
  abbrev store_driver : DriverState S → Init S → Code × DriverState S
  store_driver st (failed c run) = (c, record st { run = run })
  store_driver st (configured ls devices run) = (
    success,
    record {
      libraries = ls;
      configured_devices = devices;
      sessions = (st.sessions + 1) % 18446744073709551616;
      run = destroy_libraries loader st.libraries run;
    },
  )

  -- QDMI_session_alloc.
  unfoldable pub session_alloc :
      Bool → Bool → (ℕ → Bool) → Option (List Bytes) → DriverState S → Code × DriverState S
  session_alloc false allocated memory lines st = (error_invalid_argument, st)
  session_alloc true false memory lines st = (error_out_of_mem, st)
  session_alloc true true memory lines st =
      if st.sessions == 0
      then store_driver st (initialize_driver loader memory lines st.run)
      else (success, record st { sessions = (st.sessions + 1) % 18446744073709551616 })

  -- QDMI_session_free of a session that is not null, after its devices are deleted.
  unfoldable pub session_free : DriverState S → DriverState S
  session_free st =
      let n = (st.sessions + 18446744073709551615) % 18446744073709551616 in
      if n == 0
      then record {
        libraries = [];
        configured_devices = [];
        sessions = n;
        run = destroy_libraries loader st.libraries st.run;
      }
      else record st { sessions = n }

  -- One call. Only a session that is there can be freed, and there are fewer sessions than
  -- addresses; anything else is `none`.
  abbrev driver_call : DriverCall → DriverState S → Option (DriverState S)
  driver_call (alloc_session out allocated memory lines) st =
      if ltb 18446744073709551614 st.sessions
      then none
      else some (session_alloc out allocated memory lines st).1
  driver_call free_session st = if st.sessions == 0 then none else some (session_free st)

  unfoldable pub driver_calls : List DriverCall → DriverState S → Option (DriverState S)
  driver_calls [] st = some st
  driver_calls (c ∷ cs) st = elim (driver_call c st) [
    | none ↦ none
    | some st' ↦ driver_calls cs st'
  ]

  abbrev LeavesKept : Option (DriverState S) → Type 0
  LeavesKept none = Unit
  LeavesKept (some st) = IsKept st

  store_driver-IsKept :
      (st : DriverState S) (o : Init S)
      → IsKept st
      → st.sessions ≡ 0
      → InitBalanced loader o
      → IsKept (store_driver st o).1
  unfolding destroy_libraries
  store_driver-IsKept st (failed c run) k z (n, b) = record {
    balanced = rw (k.idle z) b;
    idle = k.idle;
  }
  store_driver-IsKept st (configured ls devices run) k z b = record {
    balanced = rw (k.idle z) b;
    idle = λ e. absurd (omega (arith, z));
  }

  initialize_driver-Balanced :
      (memory : ℕ → Bool) (lines : Option (List Bytes)) (run : Run S)
      → IsBalanced [] run.events
      → InitBalanced loader (initialize_driver loader memory lines run)
  initialize_driver-Balanced memory none run b = ((λ e. cc), b)
  initialize_driver-Balanced memory (some lines) run b =
      read_lines-Balanced loader memory 0 lines [] [] [] run b

  idle-IsBalanced : (st : DriverState S) → IsKept st → st.sessions ≡ 0 → IsBalanced [] st.run.events
  idle-IsBalanced st k z = subst (λ ls. IsBalanced ls st.run.events) (k.idle z) k.balanced

  session_alloc-IsKept :
      (out allocated : Bool) (memory : ℕ → Bool) (lines : Option (List Bytes)) (st : DriverState S)
      → IsKept st
      → st.sessions < 18446744073709551615
      → IsKept (session_alloc out allocated memory lines st).1
  unfolding session_alloc
  session_alloc-IsKept false allocated memory lines st k few = k
  session_alloc-IsKept true false memory lines st k few = k
  session_alloc-IsKept true true memory lines st k few = elim (Bool-cases (st.sessions == 0)) [
    | inl first ↦
        let z : st.sessions ≡ 0 = ground arith in
        rw first (
          store_driver-IsKept st (initialize_driver loader memory lines st.run) k z
            (initialize_driver-Balanced memory lines st.run (idle-IsBalanced st k z)))
    | inr later ↦
        rw later (record { balanced = k.balanced; idle = λ e. absurd (omega (arith, few)) })
  ]

  session_free-IsKept : (st : DriverState S) → IsKept st → IsKept (session_free st)
  unfolding session_free
  session_free-IsKept st k =
      let n = (st.sessions + 18446744073709551615) % 18446744073709551616 in
      elim (Bool-cases (n == 0)) [
        | inl last ↦ rw last (record {
          balanced = destroy_libraries-IsBalanced loader st.libraries st.run k.balanced;
          idle = λ _. refl;
        })
        | inr more ↦ rw more (record { balanced = k.balanced; idle = λ e. absurd (ground arith) })
      ]

  driver_call-LeavesKept :
      (c : DriverCall) (st : DriverState S) → IsKept st → LeavesKept (driver_call c st)
  driver_call-LeavesKept (alloc_session out allocated memory lines) st k =
      elim (Bool-cases (ltb 18446744073709551614 st.sessions)) [
        | inl many ↦ rw many tt
        | inr few ↦ rw few (session_alloc-IsKept out allocated memory lines st k (ground arith))
      ]
  driver_call-LeavesKept free_session st k = elim (Bool-cases (st.sessions == 0)) [
    | inl no_session ↦ rw no_session tt
    | inr there ↦ rw there (session_free-IsKept st k)
  ]

  after_call :
      (cs : List DriverCall) (r : Option (DriverState S)) (st' : DriverState S)
      → ((st : DriverState S) → IsKept st → driver_calls cs st ≡ some st' → IsKept st')
      → LeavesKept r
      → (elim r [ none ↦ none | some st ↦ driver_calls cs st ]) ≡ some st'
      → IsKept st'
  after_call cs none st' ih k e = cc
  after_call cs (some st) st' ih k e = ih st k e

  driver_calls-IsKept :
      (cs : List DriverCall) (st st' : DriverState S)
      → IsKept st
      → driver_calls cs st ≡ some st'
      → IsKept st'
  unfolding driver_calls
  driver_calls-IsKept [] st st' k e = subst IsKept (some-injective _ _ e) k
  driver_calls-IsKept (c ∷ cs) st st' k e =
      after_call cs (driver_call c st) st' (λ v. driver_calls-IsKept cs v st')
        (driver_call-LeavesKept c st k) e

  -- After any calls of QDMI_session_alloc and QDMI_session_free from the start of the process on,
  -- whatever the configuration, the loader and the libraries do, if no session is left, then every
  -- library was closed as often as it was opened, and finalized as often as it was initialized.
  pub driver_calls-closed :
      (cs : List DriverCall) (s : S) (st : DriverState S)
      → driver_calls cs (new_driver s) ≡ some st
      → st.sessions ≡ 0
      → ((h : ℕ) → opens h st.run.events ≡ closes h st.run.events)
        × ((h : ℕ) (p : Bytes) → starts h p st.run.events ≡ ends h p st.run.events)
  driver_calls-closed cs s st e z =
      let first : IsKept (new_driver s) = record {
        balanced = record { open_once = λ h. refl; started_once = λ h p. refl };
        idle = λ _. refl;
      } in
      let b = idle-IsBalanced st (driver_calls-IsKept cs (new_driver s) st first e) z in
      (λ h. omega (arith, b.open_once h), λ h p. omega (arith, b.started_once h p))
