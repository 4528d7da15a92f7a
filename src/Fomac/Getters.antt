-- ===== src/Fomac/Getters.antt =====
-- The getters of the class FoMaC in examples/fomac/example_fomac.cpp. `double` values are the
-- numbers of their bits, and the floating-point operations are parameters.
use Prim.Native.Nat.{Ordering}
use qdmi.Base.{
  ℕ, ◌*◌, ◌/◌, ◌%◌, Bool, true, false, not, Option, none, List, [], ◌∷◌, ◌++◌, ◌==◌, if◌then◌else◌,
}
use qdmi.Base.Bytes.{Bytes, text}
use qdmi.Constants.DeviceProperty
use qdmi.Constants.SiteProperty
use qdmi.Constants.OperationProperty
use qdmi.Output.{Request, Reply}
use qdmi.Device.Query.{Operands}
use qdmi.Device.Results.Histogram.{compare_text}
use qdmi.Fomac.{
  runtime_error, Result, ok, threw, ◌>>=◌, Queries, read_size, read_vector, read_list, read_string,
  read_number,
}

-- The operations on `double` that the class uses: the conversion of a uint64_t, `*` and `/`.
pub record Double : Type 0 where
  pub of_uint : ℕ → ℕ
  pub multiply : ℕ → ℕ → ℕ
  pub divide : ℕ → ℕ → ℕ

-- The bits of 1000.0, to which the integer 1000 is converted.
abbrev thousand : ℕ
thousand = 0x408f400000000000

-- The arguments of a query of an operation alone.
abbrev pub no_operands : Operands
no_operands = record { num_sites = 0; sites = none; num_params = 0; params = false }

-- `std::map<std::string, QDMI_Operation>::emplace`, with the entries in the order of the keys: an
-- entry that is there stays.
unfoldable pub emplace : Bytes → ℕ → List (Bytes × ℕ) → List (Bytes × ℕ)
emplace name op [] = (name, op) ∷ []
emplace name op ((key, value) ∷ m) =
    let later = emplace name op m in
    elim (compare_text name key) [
      | Ordering.lt ↦ (name, op) ∷ (key, value) ∷ m
      | Ordering.eq ↦ (key, value) ∷ m
      | Ordering.gt ↦ (key, value) ∷ later
    ]

-- The pairs of a vector with an even number of elements.
unfoldable pub pairs : List ℕ → List (ℕ × ℕ)
pairs (a ∷ b ∷ xs) = (a, b) ∷ pairs xs
pairs _ = []

-- A text compared with `==`.
abbrev pub is_text : Bytes → Bytes → Bool
is_text x y = elim (compare_text x y) [ Ordering.eq ↦ true | _ ↦ false ]

-- The pairs in a vector that is filled by one query: a pair has two pointers of eight bytes. An
-- empty vector has a null pointer.
abbrev pub read_pairs : (Request → Option Reply) → ℕ → Bytes → Result (List (ℕ × ℕ))
read_pairs query size message =
    read_vector query 8 size (size / 8 / 2 * 2) message >>= λ sites. ok (pairs sites)

module _ (q : Queries) where
  -- FoMaC::get_qubits_num.
  unfoldable pub get_qubits_num : Result ℕ
  get_qubits_num =
      read_number (q.device DeviceProperty.qubitsnum) (text "Failed to query the number of qubits.")

  -- The name of an operation, in the loop of FoMaC::get_operation_map.
  abbrev pub get_name : ℕ → Result Bytes
  get_name op =
      read_string (q.operation op no_operands OperationProperty.name)
        (text "Failed to retrieve operation name length.")
        (text "Failed to retrieve operation name.")

  -- The loop over the operations.
  unfoldable pub add_names : List ℕ → List (Bytes × ℕ) → Result (List (Bytes × ℕ))
  add_names [] m = ok m
  add_names (op ∷ ops) m = get_name op >>= λ name. add_names ops (emplace name op m)

  -- FoMaC::get_operation_map.
  unfoldable pub get_operation_map : Result (List (Bytes × ℕ))
  get_operation_map =
      read_list (q.device DeviceProperty.operations) 8
        (text "Failed to get the operations list size.") (text "Failed to retrieve operations.")
      >>= λ ops. add_names ops []

  -- The rest of FoMaC::get_coupling_map for a size that was reported: the number of sites is
  -- tested, and then the pairs are read, in a vector of whole pairs.
  abbrev pub get_pairs : ℕ → Result (List (ℕ × ℕ))
  get_pairs size =
      if not ((size / 8) % 2 == 0)
      then threw (runtime_error (text "The coupling map needs to have an even number of elements."))
      else read_pairs (q.device DeviceProperty.couplingmap) size
          (text "Failed to query the coupling map.")

  -- FoMaC::get_coupling_map.
  unfoldable pub get_coupling_map : Result (List (ℕ × ℕ))
  get_coupling_map =
      read_size (q.device DeviceProperty.couplingmap)
        (text "Failed to query the coupling map size.")
      >>= get_pairs

  -- FoMaC::get_sites.
  unfoldable pub get_sites : Result (List ℕ)
  get_sites =
      read_list (q.device DeviceProperty.sites) 8 (text "Failed to get the sites list size.")
        (text "Failed to get the sites.")

  -- FoMaC::get_site_id.
  unfoldable pub get_site_id : ℕ → Result ℕ
  get_site_id site =
      read_number (q.site site SiteProperty.index) (text "Failed to query the site ID")

  -- FoMaC::get_operands_num.
  unfoldable pub get_operands_num : ℕ → Result ℕ
  get_operands_num op =
      read_number (q.operation op no_operands OperationProperty.qubitsnum)
        (text "Failed to query the operand number")

  -- FoMaC::get_parameters_num.
  unfoldable pub get_parameters_num : ℕ → Result ℕ
  get_parameters_num op =
      read_number (q.operation op no_operands OperationProperty.parametersnum)
        (text "Failed to query the parameter number")

  -- FoMaC::get_supported_program_formats; a format has four bytes.
  unfoldable pub get_supported_program_formats : Result (List ℕ)
  get_supported_program_formats =
      read_list (q.device DeviceProperty.supportedprogramformats) 4
        (text "Failed to query the supported program formats size.")
        (text "Failed to query the supported program formats.")

  module _ (d : Double) where
    -- The factor for a unit; the text of the exception ends with the unit.
    abbrev pub scale : Bytes → ℕ → Result ℕ
    scale unit factor =
        if is_text unit (text "ms")
        then ok (d.divide factor thousand)
        else if is_text unit (text "ns")
        then ok (d.multiply factor thousand)
        else if not (is_text unit (text "us"))
        then threw (runtime_error (text "Unrecognized unit: " ++ unit))
        else ok factor

    -- FoMaC::get_us_scale_factor.
    unfoldable pub get_us_scale_factor : Result ℕ
    get_us_scale_factor = do
      let unit =
          (← read_string (q.device DeviceProperty.durationunit)
            (text "Failed to retrieve the device's duration unit size.")
            (text "Failed to retrieve the device's duration unit."))
      let factor =
          (← read_number (q.device DeviceProperty.durationscalefactor)
            (text "Failed to query the duration scale factor"))
      scale unit factor

    abbrev get_time : ℕ → ℕ → Bytes → Result ℕ
    get_time prop site message = do
      let t = (← read_number (q.site site prop) message)
      let factor = (← get_us_scale_factor)
      ok (d.multiply (d.of_uint t) factor)

    -- FoMaC::get_site_t1.
    unfoldable pub get_site_t1 : ℕ → Result ℕ
    get_site_t1 site = get_time SiteProperty.t1 site (text "Failed to query the T1 time")

    -- FoMaC::get_site_t2.
    unfoldable pub get_site_t2 : ℕ → Result ℕ
    get_site_t2 site = get_time SiteProperty.t2 site (text "Failed to query the T2 time")
