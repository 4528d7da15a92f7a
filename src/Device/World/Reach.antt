-- ===== src/Device/World/Reach.antt =====
-- Every call keeps the invariant of the device, so it holds in every state that calls reach.
use mathlib.Core.Path.{subst}
use mathlib.Core.Option.{some-injective}
use qdmi.Base.{
  ℕ, suc, ◌≡◌, refl, Bool, true, false, Option, none, some, List, [], ◌∷◌, arith, sym, ◌∙◌, ◌⊎◌,
  inl, inr,
}
use qdmi.Base.Bytes.{Bytes}
use qdmi.Constants.{Code}
use qdmi.Device.State.{Session, SessionStatus, initialized, allocated, Job, DeviceState, Effect}
use qdmi.Device.Session.{new_session, session_init, session_set_parameter, create_device_job}
use qdmi.Device.Submit.{submit}
use qdmi.Device.Invariant.{IsSound, new_job-IsSound}
use qdmi.Device.World.{
  World, Platform, start, update, Handle, null, object, dangling, resolve, Call, initialize,
  finalize, alloc_session, init_session, free_session, set_session_parameter, create_job, free_job,
  set_job_parameter, set_job_programs, submit_job, cancel_job, check_job, wait_job, put_session,
  put_job, on_session, on_job, on_device, create_on, submit_on, call, calls,
}
use qdmi.Device.World.Invariant.{
  Fits, IsSafe, IsOf, put_job-IsSafe, put_session-IsSafe, new_session-IsSafe, update-Fits,
  update_below,
}
use qdmi.Device.World.Ownership.{
  LeavesOf, set_programs-LeavesOf, job_set_parameter-LeavesOf, cancel-IsOf, wait-IsOf, check-IsOf,
  submit-IsOf,
}

SessionStatus-cases : (x : SessionStatus) → (x ≡ allocated) ⊎ (x ≡ initialized)
SessionStatus-cases allocated = inl refl
SessionStatus-cases initialized = inr refl

-- A call that is defined leaves a safe state.
abbrev pub IsSafeAfter : Option (Code × World) → Type 0
IsSafeAfter none = Unit
IsSafeAfter (some (c, w)) = IsSafe w

pub resolve-object :
    {A : Type 0} (f : ℕ → Option A) (p : ℕ) (a : A) → resolve f p ≡ object a → f p ≡ some a
resolve-object f p a e = ground arith

device-IsSafe : (w : World) (dev : DeviceState) → IsSafe w → IsSafe (record w { dev = dev })
device-IsSafe w dev h = record {
  jobs_fit = h.jobs_fit;
  started = h.started;
  below = h.below;
  jobs_below = h.jobs_below;
}

-- A session that is initialized stays so under the function.
abbrev Stays : Session → Option (Code × Option Session) → Type 0
Stays s none = Unit
Stays s (some (c, none)) = Unit
Stays s (some (c, some x)) = s.status ≡ initialized → x.status ≡ initialized

left_session-IsSafe :
    (w : World) (p : ℕ) (s : Session) (r : Option (Code × Option Session))
    → IsSafe w
    → w.sessions p ≡ some s
    → Stays s r
    → IsSafeAfter (elim r [ none ↦ none | some (c, s') ↦ some (c, put_session w p s') ])
left_session-IsSafe w p s none h e k = tt
left_session-IsSafe w p s (some (c, none)) h e k = put_session-IsSafe w p s none h e (λ x f. cc)
left_session-IsSafe w p s (some (c, some x)) h e k =
    put_session-IsSafe w p s (some x) h e
      (λ y f i. subst (λ (z : Session). z.status ≡ initialized) (some-injective _ _ f) (k i))

on_session-IsSafe :
    (w : World) (p : ℕ) (hd : Handle Session) (f : Option Session → Option (Code × Option Session))
    → IsSafe w
    → resolve w.sessions p ≡ hd
    → ((s : Session) → Stays s (f (some s)))
    → IsSafeAfter (on_session w p hd f)
on_session-IsSafe w p dangling f h e k = tt
on_session-IsSafe w p null f h e k = unchanged (f none)
  where
    unchanged :
        (r : Option (Code × Option Session))
        → IsSafeAfter (elim r [ none ↦ none | some (c, s) ↦ some (c, w) ])
    unchanged none = tt
    unchanged (some (c, s)) = h
on_session-IsSafe w p (object s) f h e k =
    left_session-IsSafe w p s (f (some s)) h (resolve-object w.sessions p s e) (k s)

left_job-IsSafe :
    (w : World) (p : ℕ) (j : Job) (r : Option (Code × Option Job))
    → IsSafe w
    → w.jobs p ≡ some j
    → LeavesOf j.session r
    → IsSafeAfter (elim r [ none ↦ none | some (c, j') ↦ some (c, put_job w p j') ])
left_job-IsSafe w p j none h e k = tt
left_job-IsSafe w p j (some (c, j')) h e k = put_job-IsSafe w w.dev p j j' h e k

on_job-IsSafe :
    (w : World) (p : ℕ) (hd : Handle Job) (f : Option Job → Option (Code × Option Job))
    → IsSafe w
    → resolve w.jobs p ≡ hd
    → ((j : Job) → IsSound j → LeavesOf j.session (f (some j)))
    → IsSafeAfter (on_job w p hd f)
on_job-IsSafe w p dangling f h e k = tt
on_job-IsSafe w p null f h e k = unchanged (f none)
  where
    unchanged :
        (r : Option (Code × Option Job))
        → IsSafeAfter (elim r [ none ↦ none | some (c, s) ↦ some (c, w) ])
    unchanged none = tt
    unchanged (some (c, s)) = h
on_job-IsSafe w p (object j) f h e k =
    let live = resolve-object w.jobs p j e in
    left_job-IsSafe w p j (f (some j)) h live (k j (h.jobs_fit p j live).sound)

on_device-IsSafe :
    (w : World) (p : ℕ) (hd : Handle Job) (f : DeviceState → Option Job → Effect)
    → IsSafe w
    → resolve w.jobs p ≡ hd
    → ((j : Job) → hd ≡ object j → IsSound j → IsOf j.session (f w.dev (some j)).job)
    → IsSafeAfter (on_device w p hd f)
on_device-IsSafe w p dangling f h e k = tt
on_device-IsSafe w p null f h e k = device-IsSafe w (f w.dev none).dev h
on_device-IsSafe w p (object j) f h e k =
    let live = resolve-object w.jobs p j e in
    put_job-IsSafe w (f w.dev (some j)).dev p j (f w.dev (some j)).job h live
      (k j refl (h.jobs_fit p j live).sound)

submit_on_session-IsSafe :
    (pl : Platform) (memory : ℕ → Bool) (w : World) (p : ℕ) (j : Job) (hs : Handle Session)
    → IsSafe w
    → resolve w.jobs p ≡ object j
    → resolve w.sessions j.session ≡ hs
    → IsSafeAfter (elim hs [
      | dangling ↦ none
      | null ↦
          on_device w p (object j) (λ dev job. submit pl.build pl.rnd pl.fl memory dev none job)
      | object s ↦
          on_device w p (object j) (λ dev job. submit pl.build pl.rnd pl.fl memory dev (some s) job)
    ])
submit_on_session-IsSafe pl memory w p j dangling h e es = tt
submit_on_session-IsSafe pl memory w p j null h e es =
    let real = (h.jobs_fit p j (resolve-object w.jobs p j e)).real in absurd (ground arith)
submit_on_session-IsSafe pl memory w p j (object s) h e es =
    let live = resolve-object w.jobs p j e in
    let ready = (h.jobs_fit p j live).ready s (resolve-object w.sessions j.session s es) in
    put_job-IsSafe w _ p j _ h live
      (submit-IsOf pl.build pl.rnd pl.fl memory w.dev s j ready (h.jobs_fit p j live).sound)

submit_on-IsSafe :
    (pl : Platform) (memory : ℕ → Bool) (w : World) (p : ℕ) (hd : Handle Job)
    → IsSafe w
    → resolve w.jobs p ≡ hd
    → IsSafeAfter (submit_on pl memory w p hd)
submit_on-IsSafe pl memory w p null h e = device-IsSafe w _ h
submit_on-IsSafe pl memory w p dangling h e = tt
submit_on-IsSafe pl memory w p (object j) h e =
    submit_on_session-IsSafe pl memory w p j (resolve w.sessions j.session) h e refl

place_job-IsSafe :
    (w : World) (dev : DeviceState) (j : Job)
    → IsSafe w
    → Fits w.sessions w.next j
    → IsSafe (record w { dev = dev; jobs = update w.jobs w.next (some j); next = suc w.next })
place_job-IsSafe w dev j h k = record {
  jobs_fit =
      update-Fits w.sessions (suc w.next) w.jobs w.next (some j)
        (λ q i e. later i (h.jobs_fit q i e))
        (λ i e. later i (subst (Fits w.sessions w.next) (some-injective _ _ e) k));
  started = omega arith;
  below = λ q x e. omega (arith, h.below q x e);
  jobs_below =
      update_below (suc w.next) w.jobs w.next (some j) (λ q i e. omega (arith, h.jobs_below q i e))
        (λ i e. omega arith);
}
  where
    later : (i : Job) → Fits w.sessions w.next i → Fits w.sessions (suc w.next) i
    later i f = record {
      sound = f.sound;
      ready = f.ready;
      old = omega (arith, f.old);
      real = f.real;
    }

create_on-IsSafe :
    (pl : Platform) (w : World) (p : ℕ) (out : Bool) (hd : Handle Session)
    → IsSafe w
    → resolve w.sessions p ≡ hd
    → IsSafeAfter (create_on pl w p out hd)
unfolding create_device_job
create_on-IsSafe pl w p out dangling h e = tt
create_on-IsSafe pl w p out null h e = device-IsSafe w w.dev h
create_on-IsSafe pl w p false (object s) h e = device-IsSafe w w.dev h
create_on-IsSafe pl w p true (object s) h e =
    let live = resolve-object w.sessions p s e in
    let (id, gen) = pl.rnd.draw_id w.dev.gen in
    elim (SessionStatus-cases s.status) [
      | inl early ↦ rw early (device-IsSafe w w.dev h)
      | inr ready ↦ rw ready (
          place_job-IsSafe w _ _ h (record {
            sound = new_job-IsSound p id;
            ready =
                λ x f. (let same : s ≡ x = some-injective _ _ (sym live ∙ f) in rw (← same) ready);
            old = h.below p s live;
            real = ground arith;
          }))
    ]

session_init-Stays : (dev : DeviceState) (s : Session) → Stays s (some (session_init dev (some s)))
unfolding session_init
session_init-Stays dev s = ground arith

session_set_parameter-Stays :
    (s : Session) (param size : ℕ) (value : Option Bytes)
    → Stays s (session_set_parameter (some s) param size value)
unfolding session_set_parameter
session_set_parameter-Stays s param size value = ground arith

-- Every call that is defined leads from a safe state to a safe state.
pub call-IsSafe : (pl : Platform) (c : Call) (w : World) → IsSafe w → IsSafeAfter (call pl c w)
unfolding call
call-IsSafe pl initialize w h = device-IsSafe w _ h
call-IsSafe pl finalize w h = device-IsSafe w _ h
call-IsSafe pl (alloc_session false) w h = h
call-IsSafe pl (alloc_session true) w h = new_session-IsSafe w new_session h
call-IsSafe pl (init_session p) w h = on_session-IsSafe w p _ _ h refl (session_init-Stays w.dev)
call-IsSafe pl (free_session p) w h = on_session-IsSafe w p _ _ h refl (λ s. tt)
call-IsSafe pl (set_session_parameter p param size value) w h =
    on_session-IsSafe w p _ _ h refl (λ s. session_set_parameter-Stays s param size value)
call-IsSafe pl (create_job p out) w h = create_on-IsSafe pl w p out _ h refl
call-IsSafe pl (free_job p) w h = on_job-IsSafe w p _ _ h refl (λ j k. tt)
call-IsSafe pl (set_job_parameter p param size value) w h =
    on_job-IsSafe w p _ _ h refl (λ j. job_set_parameter-LeavesOf j param size value)
call-IsSafe pl (set_job_programs memory p format count sizes programs) w h =
    on_job-IsSafe w p _ _ h refl (λ j. set_programs-LeavesOf memory j format count sizes programs)
call-IsSafe pl (submit_job memory p) w h = submit_on-IsSafe pl memory w p _ h refl
call-IsSafe pl (cancel_job p) w h = on_device-IsSafe w p _ _ h refl (λ j e. cancel-IsOf w.dev j)
call-IsSafe pl (check_job p out) w h =
    on_device-IsSafe w p _ _ h refl (λ j e. check-IsOf pl.rnd w.dev j out)
call-IsSafe pl (wait_job p timeout) w h =
    on_device-IsSafe w p _ _ h refl (λ j e. wait-IsOf w.dev j timeout)

start-IsSafe : (seed : ℕ) → IsSafe (start seed)
start-IsSafe seed = record {
  jobs_fit = λ p j e. cc;
  started = omega arith;
  below = λ p s e. cc;
  jobs_below = λ p j e. cc;
}

after_call :
    (pl : Platform) (cs : List Call) (r : Option (Code × World)) (w' : World)
    → ((w : World) → IsSafe w → calls pl cs w ≡ some w' → IsSafe w')
    → IsSafeAfter r
    → (elim r [ none ↦ none | some (_, w) ↦ calls pl cs w ]) ≡ some w'
    → IsSafe w'
after_call pl cs none w' ih h e = cc
after_call pl cs (some (c, w)) w' ih h e = ih w h e

calls-IsSafe :
    (pl : Platform) (cs : List Call) (w w' : World) → IsSafe w → calls pl cs w ≡ some w' → IsSafe w'
unfolding calls
calls-IsSafe pl [] w w' h e = subst IsSafe (some-injective _ _ e) h
calls-IsSafe pl (c ∷ cs) w w' h e =
    after_call pl cs (call pl c w) w' (λ v. calls-IsSafe pl cs v w') (call-IsSafe pl c w h) e

-- Whatever sequence of calls the client makes after the start of the process, as long as none of
-- them is undefined: every live job is sound, its session was a real one and is initialized as
-- long as it lives, and every object is at an address below the next new one.
pub reached-IsSafe :
    (pl : Platform) (cs : List Call) (seed : ℕ) (w : World)
    → calls pl cs (start seed) ≡ some w
    → IsSafe w
reached-IsSafe pl cs seed w e = calls-IsSafe pl cs (start seed) w (start-IsSafe seed) e
