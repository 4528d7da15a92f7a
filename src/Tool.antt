-- ===== src/Tool.antt =====
-- examples/tool/example_tool.cpp, the example tool: it places a circuit of at most two qubits in
-- OpenQASM 2 on the first pair of the device's coupling map, by replacing text. `std::regex` is
-- not modelled: the matches of the declaration's expression are a parameter, each given by the
-- digit that it captures.
pub mod Replace
pub mod Passes
pub mod Circuit
pub mod Compile
pub mod Refusals
pub mod Stack
mod Tests
use qdmi.Base.{
  ℕ, zero, suc, ◌+◌, ◌-◌, Bool, true, false, not, ◌&&◌, Option, none, some, List, [], ◌∷◌, ◌++◌,
  ◌==◌, ltb, if◌then◌else◌, is_empty, length, take, drop,
}
use qdmi.Base.Bytes.{Bytes, text}
use qdmi.Device.Jobs.{to_string}
use qdmi.Fomac.{Result, ok, threw, undefined, invalid_argument, ◌>>=◌, ◌>>◌, Queries}
use qdmi.Fomac.Getters.{get_qubits_num, get_coupling_map, get_site_id}

-- Whether a text begins with another.
unfoldable pub starts_with : Bytes → Bytes → Bool
starts_with [] s = true
starts_with (a ∷ from) [] = false
starts_with (a ∷ from) (b ∷ s) = (a == b) && starts_with from s

-- The first place where a text occurs.
unfoldable pub search : Bytes → Bytes → Option ℕ
search from [] = if is_empty from then some 0 else none
search from (b ∷ s) =
    let later = search from s in
    if starts_with from (b ∷ s) then some 0 else elim later [ none ↦ none | some i ↦ some (suc i) ]

-- `str.find(from, pos)`.
abbrev pub find : Bytes → ℕ → Bytes → Option ℕ
find from pos str =
    if ltb (length str) pos
    then none
    else elim (search from (drop pos str)) [ none ↦ none | some i ↦ some (pos + i) ]

-- `str.replace(pos, n, to)`.
abbrev pub replace : ℕ → ℕ → Bytes → Bytes → Bytes
replace pos n to str = take pos str ++ (to ++ drop (pos + n) str)

-- The loop of Tool::replace_all_occurrences from a position on; `none` means that the fuel ran out.
unfoldable pub replace_from : ℕ → Bytes → Bytes → ℕ → Bytes → Option Bytes
replace_from zero from to pos str = none
replace_from (suc fuel) from to pos str = elim (find from pos str) [
  | none ↦ some str
  | some p ↦ replace_from fuel from to (p + length to) (replace p (length from) to str)
]

-- Tool::replace_all_occurrences, with fuel for every text that is replaced but the empty one.
unfoldable pub replace_all_occurrences : Bytes → Bytes → Bytes → Option Bytes
replace_all_occurrences str from to = replace_from (suc (length str)) from to 0 str

-- The calls of it in Tool::compile; a loop that does not end is undefined.
abbrev pub replaced : Option Bytes → Result Bytes
replaced none = undefined
replaced (some s) = ok s

-- A register of a size, and a qubit of an index.
abbrev pub declaration : ℕ → Bytes
declaration n = text "qreg q[" ++ (to_string n ++ text "];")

abbrev pub qubit : Bytes → Bytes
qubit name = text "q[" ++ (name ++ text "]")

-- The end of Tool::compile, for the sizes of the registers and the indices of the two sites.
unfoldable pub place : ℕ → ℕ → ℕ → ℕ → Bytes → Result Bytes
place num_qubits device_qubits id0 id1 str = do
  let declared =
      (← replaced
        (replace_all_occurrences str (declaration num_qubits) (declaration device_qubits)))
  let marked =
      (← replaced (replace_all_occurrences declared (qubit (text "0")) (qubit (text "aux"))))
  let second =
      (← replaced (replace_all_occurrences marked (qubit (text "1")) (qubit (to_string id1))))
  replaced (replace_all_occurrences second (qubit (text "aux")) (qubit (to_string id0)))

-- `front()` of the coupling map; of an empty vector it is undefined.
abbrev pub front : List (ℕ × ℕ) → Result (ℕ × ℕ)
front [] = undefined
front (edge ∷ edges) = ok edge

abbrev pub place_on : Queries → ℕ → Bytes → Result Bytes
place_on q num_qubits str = do
  let edge = (← (get_coupling_map q >>= front))
  let id0 = (← get_site_id q edge.0)
  let id1 = (← get_site_id q edge.1)
  let device_qubits = (← get_qubits_num q)
  place num_qubits device_qubits id0 id1 str

-- The tests of the number of qubits that the circuit declares.
abbrev pub compile_with : Queries → List ℕ → Bytes → Result Bytes
compile_with q [] str = threw (invalid_argument (text "The circuit does not declare any qubits."))
compile_with q (digit ∷ []) str =
    let num_qubits = digit - 48 in
    if ltb 2 num_qubits
    then threw (
        invalid_argument (
          text
            "The circuit uses more than two qubits but this tool only supports up to two qubits."))
    else get_qubits_num q >>= λ n.
        if ltb n num_qubits
        then threw
            (invalid_argument (text "The device does not provide enough qubits for the circuit."))
        else place_on q num_qubits str
compile_with q _ str =
    threw (invalid_argument (text "The circuit declares more than one qubit register."))

-- Tool::compile; `matches` gives the captures of the declaration's expression.
unfoldable pub compile : (Bytes → List ℕ) → Queries → Bytes → Result Bytes
compile matches q str = compile_with q (matches str) str
