-- ===== src/Device/Results/Indices.antt =====
-- The keys that get_results of examples/device/src/cxx_device.cpp writes for the amplitudes that are
-- not zero, read as binary numbers.
use native.Mathlib.Nat.{
  add-mul-mod_self_left, div-add-mod', mod-eq_of_lt, mod-lt, one-le-pow, pow-suc,
}
use qdmi.Base.{
  All, ◌⊎◌, ◌-◌, ◌^◌, ◌/◌, ◌%◌, ◌≤◌, Bool, false, map, get_elem?, if◌then◌else◌, ℕ, zero, suc, ◌+◌,
  ◌*◌, ◌<◌, ◌≡◌, refl, ap, sym, ◌∙◌, inl, inr, true, ◌==◌, none, some, List, [], ◌∷◌, arith, length,
  Bool-cases,
}
use qdmi.Base.Bytes.{Bytes}
use qdmi.Device.State.{Amplitude}
use qdmi.Device.Results.{nonzero, is_nonzero, bits, sparse_keys}
use qdmi.Device.Results.Laws.{HaveLength}

bits-length : (qubits i : ℕ) → length (bits qubits i) ≡ qubits
unfolding bits
bits-length zero i = refl
bits-length (suc j) i = omega (arith, bits-length j i)

pub sparse_keys-HaveLength :
    (qubits i : ℕ) (cs : List Amplitude) → HaveLength qubits (sparse_keys qubits i cs)
unfolding sparse_keys
sparse_keys-HaveLength qubits i [] = tt
sparse_keys-HaveLength qubits i (c ∷ cs) = elim (Bool-cases (is_nonzero c)) [
  | inl there ↦ rw there (bits-length qubits i, sparse_keys-HaveLength qubits (suc i) cs)
  | inr zero_there ↦ rw zero_there (sparse_keys-HaveLength qubits (suc i) cs)
]

pub length-sparse_keys :
    (qubits i : ℕ) (cs : List Amplitude) → length (sparse_keys qubits i cs) ≡ length (nonzero cs)
unfolding sparse_keys nonzero
length-sparse_keys qubits i [] = refl
length-sparse_keys qubits i (c ∷ cs) = elim (Bool-cases (is_nonzero c)) [
  | inl there ↦ rw there (omega (arith, length-sparse_keys qubits (suc i) cs))
  | inr zero_there ↦ rw zero_there (length-sparse_keys qubits (suc i) cs)
]

-- A text of binary digits read as a number.
abbrev pub binary : Bytes → ℕ
binary [] = 0
binary (d ∷ ds) = (d - 48) * 2 ^ length ds + binary ds

abbrev IsBit : ℕ → Type 0
IsBit d = (d ≡ b'0') ⊎ (d ≡ b'1')

-- The keys consist of the digits 0 and 1.
abbrev pub AreBinary : List Bytes → Type 0
AreBinary = All (All IsBit)

is_bit : (t : Bool) → IsBit (if t then b'1' else b'0')
is_bit true = inr refl
is_bit false = inl refl

bits-binary : (qubits i : ℕ) → All IsBit (bits qubits i)
unfolding bits
bits-binary zero i = tt
bits-binary (suc j) i = (is_bit _, bits-binary j i)

pub sparse_keys-AreBinary :
    (qubits i : ℕ) (cs : List Amplitude) → AreBinary (sparse_keys qubits i cs)
unfolding sparse_keys
sparse_keys-AreBinary qubits i [] = tt
sparse_keys-AreBinary qubits i (c ∷ cs) = elim (Bool-cases (is_nonzero c)) [
  | inl there ↦ rw there (bits-binary qubits i, sparse_keys-AreBinary qubits (suc i) cs)
  | inr zero_there ↦ rw zero_there (sparse_keys-AreBinary qubits (suc i) cs)
]

-- The numbers from i on, n of them, that a test accepts.
abbrev pub accepted_from : (ℕ → Bool) → ℕ → ℕ → List ℕ
accepted_from p i zero = []
accepted_from p i (suc n) =
    let later = accepted_from p (suc i) n in if p i then i ∷ later else later

abbrev pub is_nonzero_at : List Amplitude → ℕ → Bool
is_nonzero_at cs i = elim (get_elem? cs i) [ none ↦ false | some c ↦ is_nonzero c ]

-- The indices of the amplitudes that are not zero, in order.
abbrev pub nonzero_indices : List Amplitude → List ℕ
nonzero_indices cs = accepted_from (is_nonzero_at cs) 0 (length cs)

halved : (m h b r : ℕ) → (h * 2 + b) * m + r ≡ b * m + r + m * 2 * h
halved m h b r = omega arith

low_part : (m b r : ℕ) → b < 2 → r < m → b * m + r < m * 2
low_part m zero r two small = omega arith
low_part m (suc zero) r two small = omega arith
low_part m (suc (suc b)) r two small = absurd (omega arith)

-- The lower bits of a number with one more of its bits.
low_bits : (m i : ℕ) → 0 < m → (i / m) % 2 * m + i % m ≡ i % (m * 2)
low_bits m i pos =
    let q = i / m in
    let whole : i ≡ (q % 2) * m + i % m + m * 2 * (q / 2) =
      sym (div-add-mod' i m)
      ∙ ap (λ x. x * m + i % m) (sym (div-add-mod' q 2))
      ∙ halved m (q / 2) (q % 2) (i % m) in
    sym (
      ap (λ x. x % (m * 2)) whole
      ∙ add-mul-mod_self_left ((q % 2) * m + i % m) (m * 2) (q / 2)
      ∙ mod-eq_of_lt (low_part m (q % 2) (i % m) (mod-lt q (omega arith)) (mod-lt i pos)))

digit-value : (b : ℕ) → b < 2 → (if b == 1 then b'1' else b'0') - 48 ≡ b
digit-value zero h = refl
digit-value (suc zero) h = refl
digit-value (suc (suc b)) h = absurd (omega arith)

-- The key of an index reads as the index, below the 32 bits of the mask.

binary-bits : (qubits i : ℕ) → qubits ≤ 31 → binary (bits qubits i) ≡ i % 2 ^ qubits
unfolding bits
binary-bits zero i h = omega arith
binary-bits (suc j) i h =
    let below : (j == 31) ≡ false = ground arith in
    let digit = digit-value ((i / 2 ^ j) % 2) (mod-lt (i / 2 ^ j) (omega arith)) in
    rw (below, digit, pow-suc 2 j, bits-length j i, binary-bits j i (omega arith))
      (low_bits (2 ^ j) i (one-le-pow j 2 (omega arith)))

pub sparse_keys-indices :
    (qubits i : ℕ) (cs : List Amplitude) (p : ℕ → Bool)
    → qubits ≤ 31
    → i + length cs ≤ 2 ^ qubits
    → ((k : ℕ) → k < length cs → p (i + k) ≡ is_nonzero_at cs k)
    → map binary (sparse_keys qubits i cs) ≡ accepted_from p i (length cs)
unfolding sparse_keys
sparse_keys-indices qubits i [] p few fits h = refl
sparse_keys-indices qubits i (c ∷ cs) p few fits h =
    let here : p i ≡ is_nonzero c = ap p (omega arith) ∙ h 0 (omega arith) in
    let value : binary (bits qubits i) ≡ i =
      binary-bits qubits i few ∙ mod-eq_of_lt (omega (arith, fits)) in
    let ih : map binary (sparse_keys qubits (suc i) cs) ≡ accepted_from p (suc i) (length cs) =
      sparse_keys-indices qubits (suc i) cs p few (omega arith)
        (λ k l. ap p (omega arith) ∙ h (suc k) (omega (arith, l))) in
    elim (Bool-cases (is_nonzero c)) [
      | inl there ↦ rw (here, there, value, ih)
      | inr zero_there ↦ rw (here, zero_there) ih
    ]
