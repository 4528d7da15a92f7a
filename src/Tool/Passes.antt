-- ===== src/Tool/Passes.antt =====
-- The texts of circuits, and how the replacements of examples/tool/example_tool.cpp pass over them.
use mathlib.Core.List.{append_assoc}
use qdmi.Base.{
  ℕ, suc, ◌-◌, ◌≡◌, ◌≢◌, refl, ap, sym, inl, inr, Bool, true, false, ◌&&◌, List, [], ◌∷◌, ◌++◌,
  ◌==◌, arith, length, drop_first, All, Bool-cases,
}
use qdmi.Base.Bytes.{Bytes, text}
use qdmi.Tool.{starts_with, qubit}
use qdmi.Tool.Replace.{substitute, substitute_skip}

-- A circuit as text: single characters, the two qubits of the register `q`, and the declaration of
-- that register.
pub data Item : Type 0 where
  plain : ℕ → Item
  first second register : Item

-- The text, for the size of the register and the names of the two qubits.
abbrev pub render : Bytes → Bytes → Bytes → List Item → Bytes
render size x y [] = []
render size x y (plain c ∷ items) = c ∷ render size x y items
render size x y (first ∷ items) = qubit x ++ render size x y items
render size x y (second ∷ items) = qubit y ++ render size x y items
render size x y (register ∷ items) =
    (text "qreg q[" ++ (size ++ text "];")) ++ render size x y items

-- A character `q` that is not one of the qubits is not followed by a character `[` or `r`, so that
-- the text of a qubit or of a declaration stands only where the circuit has one.
abbrev pub Follows : ℕ → List Item → Type 0
Follows c (plain d ∷ items) = c ≡ b'q' → (d ≢ b'[') × (d ≢ b'r')
Follows c _ = Unit

abbrev pub IsCircuit : List Item → Type 0
IsCircuit [] = Unit
IsCircuit (plain c ∷ items) = Follows c items × IsCircuit items
IsCircuit (_ ∷ items) = IsCircuit items

-- A name between brackets: no `q` and no closing bracket.
abbrev pub IsName : Bytes → Type 0
IsName = All (λ (c : ℕ). (c ≢ b'q') × (c ≢ b']'))

starts_with-append : (x s : Bytes) → starts_with x (x ++ s) ≡ true
unfolding starts_with
starts_with-append [] s = refl
starts_with-append (c ∷ x) s = ground (arith, starts_with-append x s)

-- A text that stands at the start is replaced.
pub substitute-append :
    (a : ℕ) (from to s : Bytes)
    → substitute (a ∷ from) to 0 ((a ∷ from) ++ s) ≡ to ++ substitute (a ∷ from) to 0 s
unfolding substitute
substitute-append a from to s =
    let n : suc (length from) - 1 ≡ length from = omega arith in
    rw (
      starts_with-append (a ∷ from) s,
      n,
      substitute_skip (a ∷ from) to (length from) (from ++ s),
      drop_first (length from) from s refl,
    )

-- Of two names, one begins a text where the other stands only if they are the same.
abbrev pub same_name : Bytes → Bytes → Bool
same_name [] [] = true
same_name (a ∷ x) (b ∷ y) = (a == b) && same_name x y
same_name _ _ = false

starts_with-name :
    (x y t s : Bytes)
    → IsName x
    → IsName y
    → starts_with (x ++ b']' ∷ t) (y ++ b']' ∷ s) ≡ same_name x y && starts_with t s
unfolding starts_with
starts_with-name [] [] t s h k = ground arith
starts_with-name [] (b ∷ y) t s h k = ground arith
starts_with-name (a ∷ x) [] t s h k = ground arith
starts_with-name (a ∷ x) (b ∷ y) t s h k = ground (arith, starts_with-name x y t s h.1 k.1)

module _ (next : ℕ) (from to : Bytes) where
  abbrev pass : Bytes → Bytes
  pass = substitute (b'q' ∷ next ∷ from) to 0

  -- A character that begins no occurrence stays.
  pub pass-char : (c : ℕ) (s : Bytes) → c ≢ b'q' → pass (c ∷ s) ≡ c ∷ pass s
  unfolding substitute starts_with
  pass-char c s h = ground arith

  pub pass-q : (d : ℕ) (s : Bytes) → d ≢ next → pass (b'q' ∷ d ∷ s) ≡ b'q' ∷ pass (d ∷ s)
  unfolding substitute starts_with
  pass-q d s h = ground arith

  pub pass-name : (x s : Bytes) → IsName x → pass (x ++ s) ≡ x ++ pass s
  pass-name [] s h = refl
  pass-name (c ∷ x) s h = rw (pass-char c (x ++ s) h.0.0) (ap (λ t. c ∷ t) (pass-name x s h.1))

  pass-last : pass (b'q' ∷ []) ≡ b'q' ∷ pass []
  unfolding substitute starts_with
  pass-last = refl

  module _ (size x y : Bytes) where
    -- A plain character stays, if a `q` is not followed by what follows it in `from`.
    pass_q_before :
        (items : List Item)
        → next ≢ b'q'
        → ((d : ℕ) → (d ≢ b'[') × (d ≢ b'r') → d ≢ next)
        → Follows b'q' items
        → pass (b'q' ∷ render size x y items) ≡ b'q' ∷ pass (render size x y items)
    pass_q_before [] n k f = pass-last
    pass_q_before (plain d ∷ items) n k f = pass-q d (render size x y items) (k d (f refl))
    pass_q_before (first ∷ items) n k f = pass-q b'q' _ (λ e. n (sym e))
    pass_q_before (second ∷ items) n k f = pass-q b'q' _ (λ e. n (sym e))
    pass_q_before (register ∷ items) n k f = pass-q b'q' _ (λ e. n (sym e))

    pub pass-plain :
        (c : ℕ) (items : List Item)
        → next ≢ b'q'
        → ((d : ℕ) → (d ≢ b'[') × (d ≢ b'r') → d ≢ next)
        → Follows c items
        → pass (c ∷ render size x y items) ≡ c ∷ pass (render size x y items)
    pass-plain c items n k f = elim (Bool-cases (c == b'q')) [
      | inr other ↦ pass-char c (render size x y items) (ground arith)
      | inl same ↦ let e : c ≡ b'q' = ground arith in rw e (pass_q_before items n k (rw e at f))
    ]

-- The pass for one qubit over the text of a qubit: over the same one, and over another.
pub pass_same_qubit :
    (x to s : Bytes) → substitute (qubit x) to 0 (qubit x ++ s) ≡ to ++ substitute (qubit x) to 0 s
pass_same_qubit x to s = substitute-append b'q' _ to s

-- A text behind `q[`, where the name does not fit.
pass_other_name :
    (x y to s : Bytes)
    → IsName x
    → IsName y
    → same_name x y ≡ false
    → substitute (qubit x) to 0 (b'q' ∷ b'[' ∷ (y ++ b']' ∷ s))
      ≡ b'q' ∷ b'[' ∷ (y ++ b']' ∷ substitute (qubit x) to 0 s)
unfolding substitute starts_with
pass_other_name x y to s h k n =
    let no : starts_with (x ++ b']' ∷ []) (y ++ b']' ∷ s) ≡ false =
      rw (starts_with-name x y [] s h k, n) in
    rw (no, pass-name b'[' (x ++ b']' ∷ []) to y (b']' ∷ s) k) refl

pub pass_other_qubit :
    (x y to s : Bytes)
    → IsName x
    → IsName y
    → same_name x y ≡ false
    → substitute (qubit x) to 0 (qubit y ++ s) ≡ qubit y ++ substitute (qubit x) to 0 s
pass_other_qubit x y to s h k n =
    rw (append_assoc y (b']' ∷ []) s, append_assoc y (b']' ∷ []) (substitute (qubit x) to 0 s))
      (pass_other_name x y to s h k n)

abbrev pub sized : Bytes → Bytes
sized size = text "qreg q[" ++ (size ++ text "];")

-- The declaration of the register stays, if the name is not its size.
pub pass_register :
    (x size to s : Bytes)
    → IsName x
    → IsName size
    → same_name x size ≡ false
    → substitute (qubit x) to 0 (sized size ++ s) ≡ sized size ++ substitute (qubit x) to 0 s
pass_register x size to s h k n =
    let rest = x ++ b']' ∷ [] in
    let semicolon = pass-char b'[' rest to b';' s (omega arith) in
    rw
      (
        append_assoc size (b']' ∷ b';' ∷ []) s,
        append_assoc size (b']' ∷ b';' ∷ []) (substitute (qubit x) to 0 s),
        pass-q b'[' rest to b'r' _ (omega arith),
        pass-char b'[' rest to b'r' _ (omega arith),
        pass-char b'[' rest to b'e' _ (omega arith),
        pass-char b'[' rest to b'g' _ (omega arith),
        pass-char b'[' rest to b' ' _ (omega arith),
        pass_other_name x size to (b';' ∷ s) h k n,
        semicolon,
      )
      refl
