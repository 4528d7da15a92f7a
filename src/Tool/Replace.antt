-- ===== src/Tool/Replace.antt =====
-- Tool::replace_all_occurrences of examples/tool/example_tool.cpp against one pass over the text.
use mathlib.Core.List.{append_assoc}
use mathlib.Core.Option.{some-injective}
use qdmi.Base.{
  ℕ, zero, suc, ◌+◌, ◌-◌, ◌≤◌, ◌<◌, ◌≡◌, ◌≢◌, refl, ap, ◌∙◌, inl, inr, true, false, none, some, [],
  ◌∷◌, ◌++◌, if◌then◌else◌, arith, length, take, drop, length-append, length-take, length-drop,
  drop-append, ltb_of_le, Bool-cases, Option-cases,
}
use qdmi.Base.Bytes.{Bytes}
use qdmi.Tool.{starts_with, search, find, replace, replace_from, replace_all_occurrences}

-- One pass from left to right: where the text begins with `from`, `to` is written and as many
-- characters are left out as `from` has; `skip` counts those that are still to be left out.
unfoldable pub substitute : Bytes → Bytes → ℕ → Bytes → Bytes
substitute from to skip [] = []
substitute from to (suc skip) (b ∷ s) = substitute from to skip s
substitute from to zero (b ∷ s) =
    let replaced = to ++ substitute from to (length from - 1) s in
    let kept = b ∷ substitute from to zero s in if starts_with from (b ∷ s) then replaced else kept

pub substitute_skip :
    (from to : Bytes) (n : ℕ) (s : Bytes) → substitute from to n s ≡ substitute from to 0 (drop n s)
unfolding substitute
substitute_skip from to zero s = refl
substitute_skip from to (suc n) [] = refl
substitute_skip from to (suc n) (b ∷ s) = substitute_skip from to n s

starts_with-length : (from s : Bytes) → starts_with from s ≡ true → length from ≤ length s
unfolding starts_with
starts_with-length [] s h = omega arith
starts_with-length (a ∷ from) [] h = cc
starts_with-length (a ∷ from) (b ∷ s) h = ground (arith, starts_with-length from s)

-- Where the text does not occur, nothing is replaced.
search-none : (from to s : Bytes) → search from s ≡ none → substitute from to 0 s ≡ s
unfolding search substitute
search-none from to [] h = refl
search-none from to (b ∷ s) h = ground (arith, search-none from to s)

-- Where an occurrence is, as the pass sees it.
record Found (a : ℕ) (from to s : Bytes) (k : ℕ) : Type 0 where
  inside : k + suc (length from) ≤ length s
  passed :
      substitute (a ∷ from) to 0 s
      ≡ take k s ++ (to ++ substitute (a ∷ from) to 0 (drop (k + suc (length from)) s))

Found-here :
    (a : ℕ) (from to : Bytes) (b : ℕ) (s : Bytes)
    → starts_with (a ∷ from) (b ∷ s) ≡ true
    → Found a from to (b ∷ s) 0
unfolding substitute
Found-here a from to b s h =
    let n : suc (length from) - 1 ≡ length from = omega arith in
    let z : 0 + suc (length from) ≡ suc (length from) = omega arith in
    record {
      inside = omega (arith, starts_with-length (a ∷ from) (b ∷ s) h);
      passed = rw (h, n, z, substitute_skip (a ∷ from) to (length from) s);
    }

Found-later :
    (a : ℕ) (from to : Bytes) (b : ℕ) (s : Bytes) (k : ℕ)
    → starts_with (a ∷ from) (b ∷ s) ≡ false
    → Found a from to s k
    → Found a from to (b ∷ s) (suc k)
unfolding substitute
Found-later a from to b s k h f =
    let z : suc k + suc (length from) ≡ suc (k + suc (length from)) = omega arith in
    record {
      inside = omega (arith, f.inside);
      passed = rw (h, z) (ap (λ (t : Bytes). b ∷ t) f.passed);
    }

-- The first occurrence lies inside the text, and the pass comes to it first.
search-some :
    (a : ℕ) (from to s : Bytes) (k : ℕ) → search (a ∷ from) s ≡ some k → Found a from to s k
unfolding search
search-some a from to [] k h = cc
search-some a from to (b ∷ s) k h = elim (Bool-cases (starts_with (a ∷ from) (b ∷ s))) [
  | inl here ↦
      let z : 0 ≡ k = some-injective _ _ (rw here at h) in rw (← z) (Found-here a from to b s here)
  | inr there ↦ elim (Option-cases (search (a ∷ from) s)) [
    | inl nowhere ↦ (let no : none ≡ some k = rw (there, nowhere) at h in cc)
    | inr (i, e) ↦
        let z : suc i ≡ k = some-injective _ _ (rw (there, e) at h) in
        rw (← z) (Found-later a from to b s i there (search-some a from to s i e))
  ]
]

take-append_add :
    (before s : Bytes) (k : ℕ) → take (length before + k) (before ++ s) ≡ before ++ take k s
take-append_add [] s k = let z : 0 + k ≡ k = omega arith in rw z
take-append_add (b ∷ before) s k =
    let z : suc (length before) + k ≡ suc (length before + k) = omega arith in
    rw z (ap (λ (t : Bytes). b ∷ t) (take-append_add before s k))

drop-append_add : (before s : Bytes) (k : ℕ) → drop (length before + k) (before ++ s) ≡ drop k s
drop-append_add [] s k = let z : 0 + k ≡ k = omega arith in rw z
drop-append_add (b ∷ before) s k =
    let z : suc (length before) + k ≡ suc (length before + k) = omega arith in
    rw z (drop-append_add before s k)

-- The text after a replacement, where the loop goes on behind what it wrote.
replace-append :
    (before s to : Bytes) (k n : ℕ)
    → replace (length before + k) n to (before ++ s)
      ≡ (before ++ (take k s ++ to)) ++ drop (k + n) s
replace-append before s to k n =
    let z : length before + k + n ≡ length before + (k + n) = omega arith in
    rw (take-append_add before s k, z, drop-append_add before s (k + n)) (simp append_assoc)

find-append :
    (from before s : Bytes)
    → find from (length before) (before ++ s)
      ≡ (elim (search from s) [ none ↦ none | some i ↦ some (length before + i) ])
find-append from before s = rw (
  ltb_of_le (length (before ++ s)) (length before) (omega (arith, length-append before s)),
  drop-append before s,
)

written : Bytes → Bytes → ℕ → Bytes → Bytes
written before to k s = before ++ (take k s ++ to)

length-written :
    (before to : Bytes) (k : ℕ) (s : Bytes)
    → k ≤ length s
    → length before + k + length to ≡ length (written before to k s)
unfolding written
length-written before to k s h =
    omega
      (arith, length-append before (take k s ++ to), length-append (take k s) to, length-take k s)

replace_from-substitute :
    (fuel a : ℕ) (from to before s : Bytes)
    → length s < fuel
    → replace_from fuel (a ∷ from) to (length before) (before ++ s)
      ≡ some (before ++ substitute (a ∷ from) to 0 s)
unfolding replace_from written
replace_from-substitute zero a from to before s h = absurd (omega arith)
replace_from-substitute (suc fuel) a from to before s h =
    elim (Option-cases (search (a ∷ from) s)) [
      | inl nowhere ↦ rw (
        replace_from,
        find-append (a ∷ from) before s,
        nowhere,
        search-none (a ∷ from) to s nowhere,
      )
      | inr (k, e) ↦
          let f = search-some a from to s k e in
          let rest = drop (k + suc (length from)) s in
          let ih =
            replace_from-substitute fuel a from to (written before to k s) rest
              (omega (arith, length-drop (k + suc (length from)) s, f.inside)) in
          rw
            (
              replace_from,
              find-append (a ∷ from) before s,
              e,
              replace-append before s to k (suc (length from)),
              length-written before to k s (omega (arith, f.inside)),
            )
            (ih ∙ (rw f.passed (simp append_assoc)))
    ]

-- The loop ends for every text but the empty one, and leaves what one pass from left to right
-- gives, in which nothing that was written is read again.
pub replace_all_occurrences-substitute :
    (str from to : Bytes)
    → from ≢ []
    → replace_all_occurrences str from to ≡ some (substitute from to 0 str)
unfolding replace_all_occurrences
replace_all_occurrences-substitute str [] to h = absurd (h refl)
replace_all_occurrences-substitute str (a ∷ from) to h =
    replace_from-substitute (suc (length str)) a from to [] str (omega arith)
