-- ===== src/Device/World/Lasting.antt =====
-- What lasts in the reference device over any sequence of calls: the results of a job that runs.
use mathlib.Core.Path.{subst}
use mathlib.Core.Option.{some-injective}
use qdmi.Base.{
  length, ℕ, ◌≡◌, ◌≢◌, refl, sym, ◌∙◌, Option, none, some, List, [], ◌∷◌, ◌⊎◌, inl, inr,
}
use qdmi.Constants.{Code, JobStatus, created, running, done}
use qdmi.Device.State.{Job}
use qdmi.Device.World.{World, Platform, start, Call, free_job, call, calls}
use qdmi.Device.World.Invariant.{IsSafe}
use qdmi.Device.World.Reach.{IsSafeAfter, call-IsSafe, reached-IsSafe}
use qdmi.Device.World.Kept.{Kept, same-Kept}
use qdmi.Device.World.Submitted.{Remains, call-Remains}

-- A sequence of calls contains the release of a job.
abbrev pub IsReleased : ℕ → List Call → Type 0
IsReleased p [] = ⊥
IsReleased p (c ∷ cs) = (c ≡ free_job p) ⊎ IsReleased p cs

Kept-Kept :
    (j : Job) (s : JobStatus) (v : Option Job)
    → Kept (record j { status = s }) v
    → (j.status ≡ done → s ≡ done)
    → Kept j v
Kept-Kept j s v (t, e, n, d) k = (t, e, n, λ x. d (k x))

later-Remains :
    (pl : Platform) (cs : List Call) (w' : World) (p : ℕ) (j : Job) (c : Call)
    (r : Option (Code × World))
    → ((w : World) (i : Job)
        → IsSafe w
        → w.jobs p ≡ some i
        → i.status ≢ created
        → calls pl cs w ≡ some w'
        → Kept i (w'.jobs p) ⊎ IsReleased p cs)
    → Remains p j c r
    → IsSafeAfter r
    → (elim r [ none ↦ none | some (_, v) ↦ calls pl cs v ]) ≡ some w'
    → Kept j (w'.jobs p) ⊎ IsReleased p (c ∷ cs)
later-Remains pl cs w' p j c none ih k safe e = cc
later-Remains pl cs w' p j c (some (_, v)) ih (inr (gone, _)) safe e = inr (inl gone)
later-Remains pl cs w' p j c (some (_, v)) ih (inl (s, there, m, d)) safe e =
    elim (ih v (record j { status = s }) safe there m e) [
      | inl kept ↦ inl (Kept-Kept j s _ kept d)
      | inr released ↦ inr (inr released)
    ]

-- The same for any sequence of calls: the job is kept, or they contain its release.
calls-Remains :
    (pl : Platform) (cs : List Call) (w w' : World) (p : ℕ) (j : Job)
    → IsSafe w
    → w.jobs p ≡ some j
    → j.status ≢ created
    → calls pl cs w ≡ some w'
    → Kept j (w'.jobs p) ⊎ IsReleased p cs
unfolding calls
calls-Remains pl [] w w' p j h live n e =
    let same : w ≡ w' = some-injective _ _ e in
    inl (subst (λ (v : World). Kept j (v.jobs p)) same (rw live (same-Kept j n)))
calls-Remains pl (c ∷ cs) w w' p j h live n e =
    later-Remains pl cs w' p j c (call pl c w)
      (λ v i safe there m f. calls-Remains pl cs v w' p i safe there m f)
      (call-Remains w p j live n pl c h) (call-IsSafe pl c w h) e

-- The job has the results of an earlier state, one for each of its programs.
abbrev pub HasResults : Job → Option Job → Type 0
HasResults j v =
    (i : Job) × (v ≡ some i) × (i.results ≡ j.results) × (length i.results ≡ length i.programs)

-- A state in which every job is sound, and from which on a job that runs has the same results, one
-- for each program, until it is released.
pub record IsLawful (pl : Platform) (w : World) : Type 0 where
  pub safe : IsSafe w
  pub lasting :
      (later : List Call) (w' : World) (p : ℕ) (j : Job)
      → w.jobs p ≡ some j
      → j.status ≡ running
      → calls pl later w ≡ some w'
      → HasResults j (w'.jobs p) ⊎ IsReleased p later

Kept-HasResults :
    (j : Job) (v : Option Job) → length j.results ≡ length j.programs → Kept j v → HasResults j v
Kept-HasResults j v all (s, e, _, _) = (record j { status = s }, e, refl, all)

-- Whatever sequence of calls is made after the start of the process, as long as none of them is
-- undefined: every live job is sound (a supported format, valid programs, no results before its
-- submission, and one for each program while it runs), its session was a real one and is
-- initialized as long as it lives, and every object is at an address below the next new one. And
-- whatever defined calls follow, a job that runs here keeps its results, one for each program,
-- unless it is released.
pub reached-IsLawful :
    (pl : Platform) (cs : List Call) (seed : ℕ) (w : World)
    → calls pl cs (start seed) ≡ some w
    → IsLawful pl w
reached-IsLawful pl cs seed w e =
    let h = reached-IsSafe pl cs seed w e in
    record {
      safe = h;
      lasting = λ later w' p j live run f.
          (let there = (h.jobs_fit p j live).sound.all_there run in
            elim (calls-Remains pl later w w' p j h live
              (λ x. (let no : running ≡ created = sym run ∙ x in cc)) f) [
                | inl kept ↦ inl (Kept-HasResults j (w'.jobs p) there kept)
                | inr released ↦ inr released
              ]);
    }
