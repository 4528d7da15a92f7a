-- ===== src/Tool/Tests.antt =====
-- The theorems on examples/tool/example_tool.cpp at concrete inputs: a circuit of two qubits that
-- prepares a Bell state, placed on the reference device.
use qdmi.Base.{none, true, ℕ, ◌≡◌, refl, List, [], ◌∷◌, some, arith}
use qdmi.Base.Bytes.{Bytes, text, encode, encode_all, decode}
use qdmi.Device.Sample.{platform, build, build-IsLinked, dev, session}
use qdmi.Fomac.{
  ok, threw, invalid_argument, Queries, read_number, read_size, read_value, throw_if_error,
  decode_all,
}
use qdmi.Fomac.Sample.{build-IsPlaced}
use qdmi.Fomac.Reference.{reference, getters-Reads}
use qdmi.Fomac.Getters.{get_qubits_num, get_coupling_map, get_site_id, pairs}
use qdmi.Constants.{error_not_supported}
use qdmi.Constants.DeviceProperty
use qdmi.Constants.SiteProperty
use qdmi.Output.{fail, add_single_value_property, add_list_property}
use qdmi.Device.Jobs.{to_string, digits}
use qdmi.Tool.{replace_all_occurrences, compile}
use qdmi.Tool.Replace.{substitute, replace_all_occurrences-substitute}
use qdmi.Tool.Passes.{Item, plain, first, second, register}
use qdmi.Tool.Compile.{compile-render}
use qdmi.Device.World.{World, update}
use qdmi.Driver.{ClientDevice}
use qdmi.Tool.Stack.{client_queries, compile-client}
use qdmi.Tool.Refusals.{too_many, compile_refuses}

replace_all_occurrences-substitute_example :
    replace_all_occurrences (text "h q[0];") (text "q[0]") (text "q[aux]")
    ≡ some (substitute (text "q[0]") (text "q[aux]") 0 (text "h q[0];"))
replace_all_occurrences-substitute_example =
    replace_all_occurrences-substitute (text "h q[0];") (text "q[0]") (text "q[aux]") (λ e. cc)

-- qreg q[2];h q[1];cx q[1],q[0];
abbrev bell : List Item
bell =
    register
    ∷ plain b'h'
    ∷ plain b' '
    ∷ second
    ∷ plain b';'
    ∷ plain b'c'
    ∷ plain b'x'
    ∷ plain b' '
    ∷ second
    ∷ plain b','
    ∷ first
    ∷ plain b';'
    ∷ []

abbrev declares_two : Bytes → List ℕ
declares_two s = 50 ∷ []

-- A device of 20 qubits, whose one coupling joins the sites 7 and 12.
abbrev large : Queries
large = record {
  device = λ prop r. add_single_value_property DeviceProperty.qubitsnum (encode 8 20) prop r (
      add_list_property DeviceProperty.couplingmap 8 (7 ∷ 12 ∷ []) prop r
        (some (fail r error_not_supported)));
  site = λ site prop r.
      add_single_value_property SiteProperty.index (encode 8 site) prop r
        (some (fail r error_not_supported));
  operation = λ op operands prop r. some (fail r error_not_supported);
}

compile-render_example :
    compile declares_two large (text "qreg q[2];h q[1];cx q[1],q[0];")
    ≡ ok (text "qreg q[20];h q[12];cx q[12],q[7];")
unfolding to_string digits get_qubits_num get_coupling_map get_site_id pairs read_number read_size
    read_value throw_if_error add_single_value_property add_list_property encode encode_all decode
    decode_all
compile-render_example =
    compile-render declares_two large bell 2 20 7 12 [] 7 12 refl (omega arith) (omega arith)
      (omega arith) refl refl refl refl (omega arith)

compile_refuses_example :
    (c : ℕ) × (message : Bytes) × (compile
        (λ s. 51 ∷ [])
        (reference build dev session)
        (text "qreg q[3];")
      ≡ threw (invalid_argument (c ∷ message)))
compile_refuses_example =
    compile_refuses (λ s. 51 ∷ []) (reference build dev session) (text "qreg q[3];") 5
      (getters-Reads build dev session refl build-IsLinked build-IsPlaced).qubits
      (too_many 3 (omega arith))

-- The state of the reference device with one session, at the address 1.
abbrev world : World
world = record {
  dev = dev;
  sessions = update (λ _. none) 1 (some session);
  jobs = λ _. none;
  next = 2;
}

abbrev device : ClientDevice
device = record { library = 0; session = 4; device_session = 1; id = text "d" }

compile-client_example :
    compile declares_two
      (client_queries platform (λ _. true) world device)
      (text "qreg q[2];h q[1];cx q[1],q[0];")
    ≡ ok (text "qreg q[5];h q[1];cx q[1],q[0];")
unfolding to_string digits
compile-client_example =
    compile-client platform (λ _. true) world device session declares_two bell 2 (omega arith) refl
      refl build-IsLinked build-IsPlaced refl (omega arith) (omega arith)
