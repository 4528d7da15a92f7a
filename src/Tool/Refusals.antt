-- ===== src/Tool/Refusals.antt =====
-- The circuits that Tool::compile of examples/tool/example_tool.cpp refuses.
use qdmi.Base.{ℕ, ◌+◌, ◌-◌, ◌≤◌, ◌<◌, ◌≡◌, refl, List, [], ◌∷◌, arith, lt→ltb, ltb_of_le}
use qdmi.Base.Bytes.{Bytes}
use qdmi.Fomac.{ok, threw, invalid_argument, Queries}
use qdmi.Fomac.Getters.{get_qubits_num}
use qdmi.Tool.{compile, compile_with}

-- What the tool refuses, for the digits that the declaration's expression captures and the number
-- of the device's qubits.
pub data Unplaceable (d : ℕ) : List ℕ → Type 0 where
  undeclared : Unplaceable d []
  several : (a b : ℕ) (digits : List ℕ) → Unplaceable d (a ∷ b ∷ digits)
  too_many : (n : ℕ) → 2 < n → Unplaceable d ((n + 48) ∷ [])
  too_large : (n : ℕ) → n ≤ 2 → d < n → Unplaceable d ((n + 48) ∷ [])

compile_with_refuses :
    (q : Queries) (str : Bytes) (d : ℕ) (digits : List ℕ)
    → get_qubits_num q ≡ ok d
    → Unplaceable d digits
    → (c : ℕ) × (message : Bytes) × (compile_with q digits str
        ≡ threw (invalid_argument (c ∷ message)))
compile_with_refuses q str d _ qubits undeclared = (_, _, refl)
compile_with_refuses q str d _ qubits (several a b digits) = (_, _, refl)
compile_with_refuses q str d _ qubits (too_many n large) =
    let digit : n + 48 - 48 ≡ n = omega arith in rw (digit, lt→ltb 2 n large) (_, _, refl)
compile_with_refuses q str d _ qubits (too_large n small more) =
    let digit : n + 48 - 48 ≡ n = omega arith in
    rw (digit, ltb_of_le 2 n small, qubits, lt→ltb d n more) (_, _, refl)

-- The tool throws an invalid argument with a message that is not empty if the expression matches
-- no declaration or more than one, or if the declared number of qubits exceeds two or the number
-- of qubits that the device reports.
pub compile_refuses :
    (matches : Bytes → List ℕ) (q : Queries) (str : Bytes) (d : ℕ)
    → get_qubits_num q ≡ ok d
    → Unplaceable d (matches str)
    → (c : ℕ) × (message : Bytes) × (compile matches q str ≡ threw (invalid_argument (c ∷ message)))
unfolding compile
compile_refuses matches q str d qubits u = compile_with_refuses q str d (matches str) qubits u
