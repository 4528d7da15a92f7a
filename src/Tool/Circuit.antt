-- ===== src/Tool/Circuit.antt =====
-- The replacements of Tool::compile of examples/tool/example_tool.cpp over a whole circuit.
use mathlib.Core.List.{append_assoc}
use qdmi.Base.{◌≡◌, refl, false, List, [], ◌∷◌, ◌++◌, arith}
use qdmi.Base.Bytes.{Bytes, text}
use qdmi.Tool.{qubit}
use qdmi.Tool.Replace.{substitute}
use qdmi.Tool.Passes.{
  Item, plain, first, second, register, render, IsCircuit, IsName, substitute-append, same_name,
  pass-char, pass-q, pass-name, pass-plain, pass_same_qubit, pass_other_qubit, sized, pass_register,
}

-- The passes over a circuit: the register gets another size, and each qubit another name.
module _ (size x y : Bytes) (size_name : IsName size) (x_name : IsName x) (y_name : IsName y) where
  pub rename_first :
      (z : Bytes) (items : List Item)
      → same_name x size ≡ false
      → same_name x y ≡ false
      → IsCircuit items
      → substitute (qubit x) (qubit z) 0 (render size x y items) ≡ render size z y items
  rename_first z [] n m h = unfold substitute in refl
  rename_first z (plain c ∷ items) n m h = rw (
    pass-plain b'[' (x ++ b']' ∷ []) (qubit z) size x y c items (omega arith) (λ d k. k.0) h.0,
    rename_first z items n m h.1,
  )
  rename_first z (first ∷ items) n m h =
      rw (pass_same_qubit x (qubit z) (render size x y items), rename_first z items n m h)
  rename_first z (second ∷ items) n m h = rw (
    pass_other_qubit x y (qubit z) (render size x y items) x_name y_name m,
    rename_first z items n m h,
  )
  rename_first z (register ∷ items) n m h = rw (
    pass_register x size (qubit z) (render size x y items) x_name size_name n,
    rename_first z items n m h,
  )

  pub rename_second :
      (z : Bytes) (items : List Item)
      → same_name y size ≡ false
      → same_name y x ≡ false
      → IsCircuit items
      → substitute (qubit y) (qubit z) 0 (render size x y items) ≡ render size x z items
  rename_second z [] n m h = unfold substitute in refl
  rename_second z (plain c ∷ items) n m h = rw (
    pass-plain b'[' (y ++ b']' ∷ []) (qubit z) size x y c items (omega arith) (λ d k. k.0) h.0,
    rename_second z items n m h.1,
  )
  rename_second z (first ∷ items) n m h = rw (
    pass_other_qubit y x (qubit z) (render size x y items) y_name x_name m,
    rename_second z items n m h,
  )
  rename_second z (second ∷ items) n m h =
      rw (pass_same_qubit y (qubit z) (render size x y items), rename_second z items n m h)
  rename_second z (register ∷ items) n m h = rw (
    pass_register y size (qubit z) (render size x y items) y_name size_name n,
    rename_second z items n m h,
  )

  -- The declaration's pattern passes over a qubit, whose second character is a bracket.
  pass_qubit :
      (to z s : Bytes)
      → IsName z
      → substitute (sized size) to 0 (qubit z ++ s) ≡ qubit z ++ substitute (sized size) to 0 s
  pass_qubit to z s k =
      let rest = text "eg q[" ++ (size ++ text "];") in
      rw
        (
          append_assoc z (b']' ∷ []) s,
          append_assoc z (b']' ∷ []) (substitute (sized size) to 0 s),
          pass-q b'r' rest to b'[' (z ++ b']' ∷ s) (omega arith),
          pass-char b'r' rest to b'[' (z ++ b']' ∷ s) (omega arith),
          pass-name b'r' rest to z (b']' ∷ s) k,
          pass-char b'r' rest to b']' s (omega arith),
        )
        refl

  pub resize :
      (m : Bytes) (items : List Item)
      → IsCircuit items
      → substitute (sized size) (sized m) 0 (render size x y items) ≡ render m x y items
  resize m [] h = unfold substitute in refl
  resize m (plain c ∷ items) h = rw (
    pass-plain b'r' (text "eg q[" ++ (size ++ text "];")) (sized m) size x y c items (omega arith)
        (λ d k. k.1) h.0,
    resize m items h.1,
  )
  resize m (first ∷ items) h =
      rw (pass_qubit (sized m) x (render size x y items) x_name, resize m items h)
  resize m (second ∷ items) h =
      rw (pass_qubit (sized m) y (render size x y items) y_name, resize m items h)
  resize m (register ∷ items) h = rw (
    substitute-append b'q' (text "reg q[" ++ (size ++ text "];")) (sized m) (render size x y items),
    resize m items h,
  )
