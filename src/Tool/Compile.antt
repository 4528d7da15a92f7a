-- ===== src/Tool/Compile.antt =====
-- What Tool::compile of examples/tool/example_tool.cpp does with a circuit.
use mathlib.Core.Path.{subst}
use qdmi.Base.{
  ℕ, zero, suc, ◌+◌, ◌-◌, ◌/◌, ◌%◌, ◌≤◌, ◌≡◌, ◌≢◌, refl, ap, sym, ◌∙◌, inl, inr, true, false, List,
  [], ◌∷◌, ◌==◌, arith, All, Bool-cases, ltb_of_le,
}
use qdmi.Base.Bytes.{Bytes, text}
use qdmi.Device.Jobs.{digits, to_string}
use qdmi.Device.Jobs.Laws.{decimal, decimal-to_string}
use qdmi.Fomac.{ok, Queries}
use qdmi.Fomac.Getters.{get_qubits_num, get_coupling_map, get_site_id}
use qdmi.Tool.{replace_all_occurrences, replaced, declaration, qubit, place, compile}
use qdmi.Tool.Replace.{substitute, replace_all_occurrences-substitute}
use qdmi.Tool.Passes.{Item, render, IsCircuit, IsName, same_name}
use qdmi.Tool.Circuit.{rename_first, rename_second, resize}

-- The digits of a number are a name of their own.
abbrev IsDecimal : Bytes → Type 0
IsDecimal = All (λ (c : ℕ). (48 ≤ c) × (c ≤ 57))

digits-IsDecimal : (fuel n : ℕ) (later : Bytes) → IsDecimal later → IsDecimal (digits fuel n later)
unfolding digits
digits-IsDecimal zero n later h = h
digits-IsDecimal (suc fuel) n later h = elim (Bool-cases (n / 10 == 0)) [
  | inl last ↦ rw last ((omega arith, omega arith), h)
  | inr more ↦
      rw more
        (digits-IsDecimal fuel (n / 10) ((n % 10 + 48) ∷ later) ((omega arith, omega arith), h))
]

to_string-IsDecimal : (n : ℕ) → IsDecimal (to_string n)
unfolding to_string
to_string-IsDecimal n = digits-IsDecimal (suc n) n [] tt

IsDecimal-IsName : (x : Bytes) → IsDecimal x → IsName x
IsDecimal-IsName [] h = tt
IsDecimal-IsName (c ∷ x) h = ((omega arith, omega arith), IsDecimal-IsName x h.1)

to_string-IsName : (n : ℕ) → IsName (to_string n)
to_string-IsName n = IsDecimal-IsName (to_string n) (to_string-IsDecimal n)

same_name-eq : (x y : Bytes) → same_name x y ≡ true → x ≡ y
same_name-eq [] [] h = refl
same_name-eq [] (b ∷ y) h = cc
same_name-eq (a ∷ x) [] h = cc
same_name-eq (a ∷ x) (b ∷ y) h = ground (arith, same_name-eq x y)

-- A number that is not m has another text than m.
other_number : (x : Bytes) (m n : ℕ) → decimal x 0 ≡ m → n ≢ m → same_name x (to_string n) ≡ false
other_number x m n d h = elim (Bool-cases (same_name x (to_string n))) [
  | inr differ ↦ differ
  | inl yes_same ↦
      let e = same_name-eq x (to_string n) yes_same in
      absurd (h (sym (decimal-to_string n) ∙ ap (λ t. decimal t 0) (sym e) ∙ d))
]

other_aux : (n : ℕ) → same_name (text "aux") (to_string n) ≡ false
other_aux n = elim (Bool-cases (same_name (text "aux") (to_string n))) [
  | inr differ ↦ differ
  | inl same ↦
      let e = same_name-eq (text "aux") (to_string n) same in
      let h : IsDecimal (text "aux") = subst IsDecimal (sym e) (to_string-IsDecimal n) in
      absurd (omega (arith, h.0.1))
]

pass_ok :
    (s : Bytes) (c : ℕ) (from to t : Bytes)
    → substitute (c ∷ from) to 0 s ≡ t
    → replaced (replace_all_occurrences s (c ∷ from) to) ≡ ok t
pass_ok s c from to t e =
    rw (replace_all_occurrences-substitute s (c ∷ from) to (λ n. cc)) (ap ok e)

-- The four replacements, for a device of at least two qubits.
place-render :
    (n d i j : ℕ) (items : List Item)
    → 2 ≤ d
    → IsCircuit items
    → place n d i j (render (to_string n) (text "0") (text "1") items)
      ≡ ok (render (to_string d) (to_string i) (to_string j) items)
unfolding place
place-render n d i j items large h =
    let zero_name : IsName (text "0") = ((omega arith, omega arith), tt) in
    let one_name : IsName (text "1") = ((omega arith, omega arith), tt) in
    let aux_name : IsName (text "aux") = omega arith in
    let d_name = to_string-IsName d in
    rw (
      pass_ok _ b'q' _ (declaration d) _ (
          resize (to_string n) (text "0") (text "1") (to_string-IsName n) zero_name one_name
            (to_string d) items h),
      pass_ok _ b'q' _ (qubit (text "aux")) _ (
          rename_first (to_string d) (text "0") (text "1") d_name zero_name one_name (text "aux")
            items (other_number (text "0") 0 d refl (omega arith)) refl h),
      pass_ok _ b'q' _ (qubit (to_string j)) _ (
          rename_second (to_string d) (text "aux") (text "1") d_name aux_name one_name (to_string j)
            items (other_number (text "1") 1 d refl (omega arith)) refl h),
      pass_ok _ b'q' _ (qubit (to_string i)) _ (
          rename_first (to_string d) (text "aux") (to_string j) d_name aux_name (to_string-IsName j)
            (to_string i) items (other_aux d) (other_aux j) h),
    )

-- If the expression matches one declaration, of n qubits, and the device has d of them, where n is
-- at most 2 and at most d, and d at least 2, then a circuit over `q[0]` and `q[1]` is compiled to
-- the same circuit over a register of d qubits, with the indices i and j of the two sites of the
-- device's first coupling in their place. A circuit may have any other text, also with the
-- letter q, but none that reads `q[` or `qr` outside its qubits and declarations.
pub compile-render :
    (matches : Bytes → List ℕ) (q : Queries) (items : List Item)
    → (n d : ℕ) (first_site second_site : ℕ) (edges : List (ℕ × ℕ)) (i j : ℕ)
    → matches (render (to_string n) (text "0") (text "1") items) ≡ (n + 48) ∷ []
    → n ≤ 2
    → n ≤ d
    → 2 ≤ d
    → get_qubits_num q ≡ ok d
    → get_coupling_map q ≡ ok ((first_site, second_site) ∷ edges)
    → get_site_id q first_site ≡ ok i
    → get_site_id q second_site ≡ ok j
    → IsCircuit items
    → compile matches q (render (to_string n) (text "0") (text "1") items)
      ≡ ok (render (to_string d) (to_string i) (to_string j) items)
unfolding compile
compile-render matches q items n d p1 p2 edges i j one two enough large qubits coupled id1 id2 h =
    let digit : n + 48 - 48 ≡ n = omega arith in
    rw (one, digit, ltb_of_le 2 n two, qubits, ltb_of_le d n enough, coupled, id1, id2)
      (place-render n d i j items large h)
