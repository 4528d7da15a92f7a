-- ===== src/Device/World/Submitted.antt =====
-- A call other than its release leaves a job that was submitted where it is, with its results.
use mathlib.Core.Path.{subst}
use mathlib.Core.Option.{some-injective}
use qdmi.Base.{
  ℕ, ◌≡◌, ◌≢◌, refl, sym, ◌∙◌, Bool, true, false, Option, none, some, arith, ◌⊎◌, inl, inr, ◌==◌,
  Bool-cases,
}
use qdmi.Constants.{Code, success, created}
use qdmi.Device.State.{Session, Job, DeviceState, Effect}
use qdmi.Device.Session.{create_device_job, session_init, session_set_parameter}
use qdmi.Device.Submit.{submit}
use qdmi.Device.World.{
  World, Platform, update, Handle, null, object, dangling, resolve, Call, initialize, finalize,
  alloc_session, init_session, free_session, set_session_parameter, create_job, free_job,
  set_job_parameter, set_job_programs, submit_job, cancel_job, check_job, wait_job, put_session,
  put_job, on_session, on_job, on_device, place_job, create_on, submit_on, call,
}
use qdmi.Device.World.Invariant.{IsSafe}
use qdmi.Device.World.Reach.{resolve-object}
use qdmi.Device.World.Kept.{
  Kept, same-Kept, LeavesKept, cancel-Kept, wait-Kept, check-Kept, set_programs-LeavesKept,
  job_set_parameter-LeavesKept, submit-Kept,
}

-- After a call the job at an address is kept, or the call was its release and it is gone.
abbrev pub Remains : ℕ → Job → Call → Option (Code × World) → Type 0
Remains p j c none = Unit
Remains p j c (some (_, w)) = Kept j (w.jobs p) ⊎ ((c ≡ free_job p) × (w.jobs p ≡ none))

-- The same for a call that is not a release.
abbrev Stays : ℕ → Job → Option (Code × World) → Type 0
Stays p j none = Unit
Stays p j (some (_, w)) = Kept j (w.jobs p)

Stays-Remains :
    (p : ℕ) (j : Job) (c : Call) (r : Option (Code × World)) → Stays p j r → Remains p j c r
Stays-Remains p j c none h = tt
Stays-Remains p j c (some (_, w)) h = inl h

update-Kept :
    (f : ℕ → Option Job) (q p : ℕ) (j i : Job)
    → f p ≡ some j
    → f q ≡ some i
    → (v : Option Job) → (i.status ≢ created → Kept i v)
    → j.status ≢ created
    → Kept j (update f q v p)
update-Kept f q p j i e g v k n = elim (Bool-cases (q == p)) [
  | inl there ↦
      let one : q ≡ p = ground arith in
      let eq : i ≡ j = some-injective _ _ (sym g ∙ (rw one e)) in
      rw there (
        subst (λ x. (x.status ≢ created → Kept x v) → Kept x v → Kept j v) (sym eq) (λ h m. m) k
          (k (rw eq n)))
  | inr elsewhere ↦ rw (elsewhere, e) (same-Kept j n)
]

module _ (w : World) (p : ℕ) (j : Job) (live : w.jobs p ≡ some j) (n : j.status ≢ created) where
  still : Kept j (w.jobs p)
  still = rw live (same-Kept j n)

  left_job-Stays :
      (q : ℕ) (i : Job) (r : Option (Code × Option Job))
      → w.jobs q ≡ some i
      → (i.status ≢ created → LeavesKept i r)
      → Stays p j (elim r [ none ↦ none | some (c, i') ↦ some (c, put_job w q i') ])
  left_job-Stays q i none g k = tt
  left_job-Stays q i (some (c, v)) g k = update-Kept w.jobs q p j i live g v k n

  on_job-Stays :
      (q : ℕ) (hd : Handle Job) (f : Option Job → Option (Code × Option Job))
      → resolve w.jobs q ≡ hd
      → ((i : Job) → i.status ≢ created → LeavesKept i (f (some i)))
      → Stays p j (on_job w q hd f)
  on_job-Stays q dangling f e k = tt
  on_job-Stays q null f e k = unchanged (f none)
    where
      unchanged :
          (r : Option (Code × Option Job))
          → Stays p j (elim r [ none ↦ none | some (c, s) ↦ some (c, w) ])
      unchanged none = tt
      unchanged (some (c, s)) = still
  on_job-Stays q (object i) f e k =
      left_job-Stays q i (f (some i)) (resolve-object w.jobs q i e) (k i)

  on_session-Stays :
      (q : ℕ) (hd : Handle Session) (f : Option Session → Option (Code × Option Session))
      → Stays p j (on_session w q hd f)
  on_session-Stays q dangling f = tt
  on_session-Stays q null f = unchanged (f none)
    where
      unchanged :
          (r : Option (Code × Option Session))
          → Stays p j (elim r [ none ↦ none | some (c, s) ↦ some (c, w) ])
      unchanged none = tt
      unchanged (some (c, s)) = still
  on_session-Stays q (object s) f = changed (f (some s))
    where
      changed :
          (r : Option (Code × Option Session))
          → Stays p j (elim r [ none ↦ none | some (c, s') ↦ some (c, put_session w q s') ])
      changed none = tt
      changed (some (c, s')) = still

  on_device-Stays :
      (q : ℕ) (hd : Handle Job) (f : DeviceState → Option Job → Effect)
      → resolve w.jobs q ≡ hd
      → ((i : Job) → i.status ≢ created → Kept i (f w.dev (some i)).job)
      → Stays p j (on_device w q hd f)
  on_device-Stays q dangling f e k = tt
  on_device-Stays q null f e k = still
  on_device-Stays q (object i) f e k =
      update-Kept w.jobs q p j i live (resolve-object w.jobs q i e) _ (k i) n

  submit_session-Stays :
      (pl : Platform) (memory : ℕ → Bool) (q : ℕ) (i : Job) (hs : Handle Session)
      → resolve w.jobs q ≡ object i
      → Stays p j (elim hs [
        | dangling ↦ none
        | null ↦
            on_device w q (object i) (λ dev job. submit pl.build pl.rnd pl.fl memory dev none job)
        | object s ↦
            on_device w q
              (object i)
              (λ dev job. submit pl.build pl.rnd pl.fl memory dev (some s) job)
      ])
  submit_session-Stays pl memory q i dangling e = tt
  submit_session-Stays pl memory q i null e =
      on_device-Stays q (object i) (λ dev job. submit pl.build pl.rnd pl.fl memory dev none job) e
        (λ k. submit-Kept pl.build pl.rnd pl.fl memory w.dev none k)
  submit_session-Stays pl memory q i (object s) e =
      on_device-Stays q (object i) (λ dev job. submit pl.build pl.rnd pl.fl memory dev (some s) job)
        e (λ k. submit-Kept pl.build pl.rnd pl.fl memory w.dev (some s) k)

  submit_on-Stays :
      (pl : Platform) (memory : ℕ → Bool) (q : ℕ) (hd : Handle Job)
      → resolve w.jobs q ≡ hd
      → Stays p j (submit_on pl memory w q hd)
  submit_on-Stays pl memory q null e = still
  submit_on-Stays pl memory q dangling e = tt
  submit_on-Stays pl memory q (object i) e =
      submit_session-Stays pl memory q i (resolve w.sessions i.session) e

  place_job-Stays : (h : IsSafe w) (e : Effect) → Stays p j (some (e.code, place_job w e))
  place_job-Stays h e = placed e.job
    where
      elsewhere : (w.next == p) ≡ false
      elsewhere = let old = h.jobs_below p j live in ground arith

      placed : (v : Option Job) → Stays p j (some (e.code, place_job w (record e { job = v })))
      placed none = still
      placed (some i) = rw elsewhere still

  create_on-Stays :
      (h : IsSafe w) (pl : Platform) (q : ℕ) (out : Bool) (hd : Handle Session)
      → Stays p j (create_on pl w q out hd)
  create_on-Stays h pl q out dangling = tt
  create_on-Stays h pl q out null = place_job-Stays h (create_device_job pl.rnd w.dev q none out)
  create_on-Stays h pl q out (object s) =
      place_job-Stays h (create_device_job pl.rnd w.dev q (some s) out)

  free_job-Remains :
      (q : ℕ) (hd : Handle Job)
      → Remains p j (free_job q) (on_job w q hd (λ _. some (success, none)))
  free_job-Remains q dangling = tt
  free_job-Remains q null = inl still
  free_job-Remains q (object i) = elim (Bool-cases (q == p)) [
    | inl there ↦ let one : q ≡ p = ground arith in rw (there, one) (inr (refl, refl))
    | inr elsewhere ↦ rw elsewhere (inl still)
  ]

  -- In a safe state, any call leaves a job that was submitted where it is, with its results and all
  -- else but its state, which is not CREATED again, and is DONE if it was; unless the call is the
  -- release of this job.
  pub call-Remains : (pl : Platform) (c : Call) → IsSafe w → Remains p j c (call pl c w)
  unfolding call
  call-Remains pl initialize h = inl still
  call-Remains pl finalize h = inl still
  call-Remains pl (alloc_session false) h = inl still
  call-Remains pl (alloc_session true) h = inl still
  call-Remains pl (init_session q) h =
      Stays-Remains p j _ _
        (on_session-Stays q (resolve w.sessions q) (λ s. some (session_init w.dev s)))
  call-Remains pl (free_session q) h =
      Stays-Remains p j _ _ (on_session-Stays q (resolve w.sessions q) (λ _. some (success, none)))
  call-Remains pl (set_session_parameter q param size value) h =
      Stays-Remains p j _ _
        (on_session-Stays q (resolve w.sessions q) (λ s. session_set_parameter s param size value))
  call-Remains pl (create_job q out) h = Stays-Remains p j _ _ (create_on-Stays h pl q out _)
  call-Remains pl (free_job q) h = free_job-Remains q _
  call-Remains pl (set_job_parameter q param size value) h = Stays-Remains p j _ _ (
      on_job-Stays q _ _ refl
        (λ i. job_set_parameter-LeavesKept pl.build pl.rnd pl.fl w.dev i param size value))
  call-Remains pl (set_job_programs memory q format count sizes programs) h =
      Stays-Remains p j _ _ (
        on_job-Stays q _ _ refl (λ i.
          set_programs-LeavesKept pl.build pl.rnd pl.fl memory w.dev i format count sizes programs))
  call-Remains pl (submit_job memory q) h =
      Stays-Remains p j _ _ (submit_on-Stays pl memory q _ refl)
  call-Remains pl (cancel_job q) h =
      Stays-Remains p j _ _ (on_device-Stays q _ _ refl (cancel-Kept w.dev))
  call-Remains pl (check_job q out) h =
      Stays-Remains p j _ _ (on_device-Stays q _ _ refl (λ i. check-Kept pl.rnd w.dev i out))
  call-Remains pl (wait_job q timeout) h =
      Stays-Remains p j _ _ (on_device-Stays q _ _ refl (λ i. wait-Kept w.dev i timeout))
