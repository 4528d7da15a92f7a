-- ===== src/Device/World/Invariant.antt =====
-- What holds in every state of the reference device that any sequence of calls reaches.
use qdmi.Base.{ℕ, suc, ◌<◌, ◌≡◌, Option, none, some, ◌⊎◌, inl, inr, arith}
use mathlib.Core.Path.{subst}
use mathlib.Core.Option.{some-injective}
use qdmi.Device.State.{Session, initialized, Job, DeviceState}
use qdmi.Device.Invariant.{IsSound}
use qdmi.Device.World.{World, update, put_session, put_job}

-- A live job among the sessions: it is sound, its session is not null, is initialized as long as it lives, and
-- no new session will get the address of its session.
pub record Fits (sessions : ℕ → Option Session) (next : ℕ) (j : Job) : Type 0 where
  pub sound : IsSound j
  pub ready : (s : Session) → sessions j.session ≡ some s → s.status ≡ initialized
  pub old : j.session < next
  pub real : 0 < j.session

pub record IsSafe (w : World) : Type 0 where
  pub jobs_fit : (p : ℕ) (j : Job) → w.jobs p ≡ some j → Fits w.sessions w.next j
  pub started : 0 < w.next
  -- every live session is at an address that was used
  pub below : (p : ℕ) (s : Session) → w.sessions p ≡ some s → p < w.next
  pub jobs_below : (p : ℕ) (j : Job) → w.jobs p ≡ some j → p < w.next

-- What a job's function leaves: no job, or a sound one of the same session.
abbrev pub IsOf : ℕ → Option Job → Type 0
IsOf a none = Unit
IsOf a (some j) = (j.session ≡ a) × IsSound j

update-some :
    {A : Type 0} (f : ℕ → Option A) (p q : ℕ) (v : Option A) {x : A}
    → update f p v q ≡ some x
    → ((p ≡ q) × (v ≡ some x)) ⊎ (f q ≡ some x)
update-some f p q v e = ground arith

IsOf-Fits :
    (sessions : ℕ → Option Session) (next : ℕ) (j j' : Job)
    → Fits sessions next j
    → IsOf j.session (some j')
    → Fits sessions next j'
IsOf-Fits sessions next j j' h (same, sound) = record {
  sound = sound;
  ready = λ s e. h.ready s (rw same at e);
  old = rw same h.old;
  real = rw same h.real;
}

pub update-Fits :
    (sessions : ℕ → Option Session) (next : ℕ) (jobs : ℕ → Option Job) (p : ℕ) (v : Option Job)
    → ((q : ℕ) (j : Job) → jobs q ≡ some j → Fits sessions next j)
    → ((j : Job) → v ≡ some j → Fits sessions next j)
    → (q : ℕ) (j : Job) → update jobs p v q ≡ some j
    → Fits sessions next j
update-Fits sessions next jobs p v h k q j e = elim (update-some jobs p q v e) [
  | inl (_, new) ↦ k j new
  | inr before ↦ h q j before
]

pub update_below :
    (next : ℕ) (jobs : ℕ → Option Job) (p : ℕ) (v : Option Job)
    → ((q : ℕ) (j : Job) → jobs q ≡ some j → q < next)
    → ((j : Job) → v ≡ some j → p < next)
    → (q : ℕ) (j : Job) → update jobs p v q ≡ some j
    → q < next
update_below next jobs p v h k q j e = elim (update-some jobs p q v e) [
  | inl (same, new) ↦ rw (← same) (k j new)
  | inr before ↦ h q j before
]

-- A change of the device, and of one job to what a function left.
pub put_job-IsSafe :
    (w : World) (dev : DeviceState) (p : ℕ) (j : Job) (j' : Option Job)
    → IsSafe w
    → w.jobs p ≡ some j
    → IsOf j.session j'
    → IsSafe (put_job (record w { dev = dev }) p j')
put_job-IsSafe w dev p j none h e k = record {
  jobs_fit = update-Fits w.sessions w.next w.jobs p none h.jobs_fit (λ i f. cc);
  started = h.started;
  below = h.below;
  jobs_below = update_below w.next w.jobs p none h.jobs_below (λ i f. cc);
}
put_job-IsSafe w dev p j (some j') h e k =
    let fits = IsOf-Fits w.sessions w.next j j' (h.jobs_fit p j e) k in
    record {
      jobs_fit =
          update-Fits w.sessions w.next w.jobs p (some j') h.jobs_fit
            (λ i f. subst (Fits w.sessions w.next) (some-injective _ _ f) fits);
      started = h.started;
      below = h.below;
      jobs_below = update_below w.next w.jobs p (some j') h.jobs_below (λ i f. h.jobs_below p j e);
    }

-- An initialized session that stays initialized, or any change of a session that was not.
pub put_session-IsSafe :
    (w : World) (p : ℕ) (s : Session) (s' : Option Session)
    → IsSafe w
    → w.sessions p ≡ some s
    → ((x : Session) → s' ≡ some x → s.status ≡ initialized → x.status ≡ initialized)
    → IsSafe (put_session w p s')
put_session-IsSafe w p s s' h e k = record {
  jobs_fit = λ q j f.
      (let fits = h.jobs_fit q j f in
        record {
          sound = fits.sound;
          ready = λ x g. elim (update-some w.sessions p j.session s' g) [
            | inl (same, new) ↦ k x new (fits.ready s (rw (← same) e))
            | inr before ↦ fits.ready x before
          ];
          old = fits.old;
          real = fits.real;
        });
  started = h.started;
  below = λ q x g. elim (update-some w.sessions p q s' g) [
    | inl (same, new) ↦ rw (← same) (h.below p s e)
    | inr before ↦ h.below q x before
  ];
  jobs_below = h.jobs_below;
}

-- A new session cannot be the session of a job.
pub new_session-IsSafe :
    (w : World) (s : Session)
    → IsSafe w
    → IsSafe (record w { sessions = update w.sessions w.next (some s); next = suc w.next })
new_session-IsSafe w s h = record {
  jobs_fit = λ q j f.
      (let fits = h.jobs_fit q j f in
        record {
          sound = fits.sound;
          ready = λ x g. elim (update-some w.sessions w.next j.session (some s) g) [
            | inl (same, new) ↦ absurd (omega (arith, fits.old))
            | inr before ↦ fits.ready x before
          ];
          old = omega (arith, fits.old);
          real = fits.real;
        });
  started = omega arith;
  below = λ q x g. elim (update-some w.sessions w.next q (some s) g) [
    | inl (same, new) ↦ omega arith
    | inr before ↦ omega (arith, h.below q x before)
  ];
  jobs_below = λ q j e. omega (arith, h.jobs_below q j e);
}
