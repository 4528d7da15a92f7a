-- ===== src/Output/Strings.antt =====
-- ADD_STRING_PROPERTY: `strncpy` and the terminator that it may lack.
use mathlib.Core.List.{append-nil}
use qdmi.Base.{
  ℕ, zero, suc, ◌+◌, ◌-◌, ◌≤◌, ◌≡◌, refl, Option, some, List, [], ◌∷◌, ◌++◌, ◌==◌, arith, leb,
  lookup, length, take, drop, replicate, length-append, length-take, length-replicate, Bool-cases,
  inl, inr, ap, true, drop_all,
}
use qdmi.Base.Bytes.{Bytes}
use qdmi.Output.{Request, Reply, overwrite, strncpy, terminate, fill_string, add_string_property}
use qdmi.Output.Serves.{IsContract, Holds, Answers, served, answer-Serves}

take_all : (s : Bytes) (n : ℕ) → length s ≤ n → take n s ≡ s
take_all [] zero h = refl
take_all [] (suc n) h = refl
take_all (b ∷ s) zero h = absurd (omega arith)
take_all (b ∷ s) (suc n) h = ap (λ t. b ∷ t) (take_all s n (omega arith))

length-strncpy : (s : Bytes) (n : ℕ) → length (strncpy s n) ≡ n
unfolding strncpy
length-strncpy s n = omega (
  arith,
  length-append (take n s) (replicate (n - length s) 0),
  length-take n s,
  length-replicate (n - length s) zero,
)

zeros_end : (m : ℕ) → take m (replicate (suc m) zero) ++ zero ∷ [] ≡ replicate (suc m) zero
zeros_end zero = refl
zeros_end (suc m) = ap (λ t. zero ∷ t) (zeros_end m)

-- The last byte of a text padded with NUL is NUL already.
padded_end :
    (s : Bytes) (m n : ℕ)
    → n ≡ length s + m
    → take n (s ++ replicate (suc m) zero) ++ zero ∷ [] ≡ s ++ replicate (suc m) zero
padded_end [] m n e = let f : n ≡ m = omega arith in rw f (zeros_end m)
padded_end (b ∷ s) m zero e = absurd (omega arith)
padded_end (b ∷ s) m (suc n) e = ap (λ t. b ∷ t) (padded_end s m n (omega arith))

-- The terminator changes nothing where the text and its NUL fit.
terminate-strncpy :
    (s : Bytes) (m n : ℕ)
    → n ≡ length s + suc m
    → terminate n (strncpy s n) ≡ s ++ replicate (suc m) zero
unfolding terminate strncpy
terminate-strncpy s m n e =
    let rest : n - length s ≡ suc m = omega arith in
    let last : n - 1 ≡ length s + m = omega arith in
    let all : length (s ++ replicate (suc m) zero) ≤ n =
      omega (arith, length-append s (replicate (suc m) zero), length-replicate (suc m) zero) in
    rw (take_all s n (omega arith), rest, drop_all (s ++ replicate (suc m) zero) n all)
      (padded_end s m (n - 1) last)

string_start :
    (s : Bytes) (m : ℕ)
    → take (length (s ++ zero ∷ [])) (s ++ replicate (suc m) zero) ≡ s ++ zero ∷ []
string_start [] m = refl
string_start (b ∷ s) m = ap (λ t. b ∷ t) (string_start s m)

fill_string-Holds :
    (s buf : Bytes) (size : ℕ)
    → length buf ≡ size
    → length s + 1 ≤ size
    → (buf' : Bytes) × (fill_string s size buf ≡ some buf') × Holds (s ++ zero ∷ []) size buf'
unfolding fill_string overwrite
fill_string-Holds s buf size e h =
    let m : ℕ = size - length s - 1 in
    let n : size ≡ length s + suc m = omega arith in
    let fits : leb (length (strncpy s size)) (length buf) ≡ true =
      ground (arith, length-strncpy s size) in
    let rest : drop (length (strncpy s size)) buf ≡ [] =
      drop_all buf (length (strncpy s size)) (omega (arith, length-strncpy s size)) in
    (
      s ++ replicate (suc m) zero,
      rw (fits, rest, append-nil) (ap some (terminate-strncpy s m size n)),
      record {
        same_length =
            omega (arith, length-append s (replicate (suc m) zero), length-replicate (suc m) zero);
        starts = string_start s m;
      },
    )

module _ (name prop : ℕ) (r : Request) (rest : Option Reply) (table : List (ℕ × Bytes)) where
  -- A string property serves the text with its terminator.
  pub string-Answers :
      (s : Bytes)
      → IsContract r
      → Answers (lookup prop table) r rest
      → Answers
          (lookup prop ((name, (s ++ zero ∷ [])) ∷ table))
          r
          (add_string_property name s prop r rest)
  unfolding add_string_property lookup
  string-Answers s h k =
      let e : length s + 1 ≡ length (s ++ zero ∷ []) = omega (arith, length-append s (zero ∷ [])) in
      elim (Bool-cases (prop == name)) [
        | inl same ↦ rw same (
            served (s ++ zero ∷ []) refl (
              answer-Serves (s ++ zero ∷ []) (length s + 1) (fill_string s r.size) r e h
                (λ buf f le. fill_string-Holds s buf r.size f le)))
        | inr other ↦ rw other k
      ]
