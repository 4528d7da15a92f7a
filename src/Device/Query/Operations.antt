-- ===== src/Device/Query/Operations.antt =====
-- The operations' properties as tables of payloads, and the query of an operation in
-- examples/device/src/cxx_device.cpp as a look-up.
use qdmi.Base.{
  ℕ, zero, ◌<◌, ◌≡◌, ◌≢◌, refl, inl, inr, List, [], ◌∷◌, ◌++◌, none, some, Bool, true, false, not,
  ◌&&◌, ◌||◌, ◌==◌, arith, length, lookup, lookup-nil, All, All-lookup, length-append, Bool-cases,
}
use qdmi.Base.Bytes.{Bytes, text, encode, encode_all}
use qdmi.Constants.{is_invalid_enum_value}
use qdmi.Constants.OperationProperty
use qdmi.Output.{Request, is_empty_buffer, add_string_property, add_single_value_property}
use qdmi.Output.Serves.{
  IsContract, Answers-some, empty_buffer-Serves, Serves, Answers, refused, single-Answers,
  list-Answers,
}
use qdmi.Output.Strings.{string-Answers}
use qdmi.Device.State.{Session, Build}
use qdmi.Device.Tables.{device_sites, device_coupling_map, site_pointers, operation_properties}
use qdmi.Device.Query.{
  Operands, is_given, rotation_properties, cx_properties, cx_site_properties,
  operation_duration_property, operation_properties_of, operation_name_property,
  query_operation_property,
}

-- What the device says of a rotation with a name. The duration is the double 0.01, though
-- include/qdmi/constants.h documents a uint64_t.
abbrev pub rotation_table : Build → Bytes → List (ℕ × Bytes)
rotation_table b name =
    (OperationProperty.name, name ++ zero ∷ [])
    ∷ (OperationProperty.iszoned, encode 1 0)
    ∷ (OperationProperty.duration, encode 8 0x3f847ae147ae147b)
    ∷ (OperationProperty.qubitsnum, encode 8 1)
    ∷ (OperationProperty.parametersnum, encode 8 1)
    ∷ (OperationProperty.fidelity, encode 8 0x3feff7ced916872b)
    ∷ (OperationProperty.sites, encode_all 8 (site_pointers b device_sites))
    ∷ []

-- What it says of CX where no sites are given.
abbrev pub cx_table : Build → List (ℕ × Bytes)
cx_table b =
    (OperationProperty.name, text "cx" ++ zero ∷ [])
    ∷ (OperationProperty.iszoned, encode 1 0)
    ∷ (OperationProperty.parametersnum, encode 8 0)
    ∷ (OperationProperty.duration, encode 8 100)
    ∷ (OperationProperty.sites, encode_all 8 (site_pointers b device_coupling_map))
    ∷ (OperationProperty.qubitsnum, encode 8 2)
    ∷ []

-- The sites and the parameters that are given are as many as the operation has.
abbrev pub FitsOperands : ℕ → ℕ → Operands → Type 0
FitsOperands sites params a =
    ((is_given a.sites && not (a.num_sites == sites)) ≡ false)
    × ((a.params && not (a.num_params == params)) ≡ false)

-- The constant objects have addresses of their own.
pub record IsLinked (b : Build) : Type 0 where
  pub rx_real : b.rx ≢ 0
  pub ry_real : b.ry ≢ 0
  pub rz_real : b.rz ≢ 0
  pub cx_real : b.cx ≢ 0
  pub rx_ry : b.rx ≢ b.ry
  pub rx_rz : b.rx ≢ b.rz
  pub rx_cx : b.rx ≢ b.cx
  pub ry_rz : b.ry ≢ b.rz
  pub ry_cx : b.ry ≢ b.cx
  pub rz_cx : b.rz ≢ b.cx

rotation_properties-Answers :
    (b : Build) (a : Operands) (name : Bytes) (prop : ℕ) (r : Request)
    → FitsOperands 1 1 a
    → IsContract r
    → Answers (lookup prop (rotation_table b name)) r (
        add_string_property OperationProperty.name name prop r (
          add_single_value_property OperationProperty.iszoned
            (encode 1 0)
            prop
            r
            (rotation_properties b a prop r)))
unfolding rotation_properties
rotation_properties-Answers b a name prop r (s, p) h =
    rw (s, p)
      (string-Answers _ _ r _ _ _ h (
        single-Answers _ _ r _ _ _ h (
          single-Answers _ _ r _ _ _ h (
            single-Answers _ _ r _ _ _ h (
              single-Answers _ _ r _ _ _ h (
                single-Answers _ _ r _ _ _ h
                  (list-Answers _ _ r _ _ _ _ h (refused (lookup-nil {A = Bytes} prop) refl))))))))

-- The three rotations and their names.
pub data IsRotation (b : Build) : ℕ → Bytes → Type 0 where
  is_rx : IsRotation b b.rx (text "rx")
  is_ry : IsRotation b b.ry (text "ry")
  is_rz : IsRotation b b.rz (text "rz")

rotation_table-IsFull :
    (b : Build) (name : Bytes) → All (λ (e : ℕ × Bytes). 0 < length e.1) (rotation_table b name)
unfolding encode encode_all
rotation_table-IsFull b name = omega (arith, length-append name (zero ∷ []))

cx_table-IsFull : (b : Build) → All (λ (e : ℕ × Bytes). 0 < length e.1) (cx_table b)
unfolding encode encode_all
cx_table-IsFull b = omega arith

refused_buffer : (x y z w : Bool) → (x || y || z || true || w) ≡ true
refused_buffer x y z w = ground arith

-- A buffer of size 0 is refused before all else.
query_empty-Serves :
    (b : Build) (s : Session) (op : ℕ) (a : Operands) (prop : ℕ) (r : Request) (payload : Bytes)
    → 0 < length payload
    → is_empty_buffer r ≡ true
    → Serves payload r (query_operation_property b (some s) op a prop r)
unfolding query_operation_property
query_empty-Serves b s op a prop r payload p e =
    rw
      (
        e,
        refused_buffer (op == 0) (is_given a.sites && a.num_sites == 0)
            (a.params && a.num_params == 0)
            (is_invalid_enum_value prop OperationProperty.max_value),
      )
      (empty_buffer-Serves payload r p e)

cx_properties-Answers :
    (b : Build) (a : Operands) (prop : ℕ) (r : Request)
    → a.sites ≡ none
    → lookup b.cx (operation_properties b) ≡ some (text "cx", 100)
    → IsContract r
    → Answers (lookup prop (cx_table b)) r (
        add_string_property OperationProperty.name (text "cx") prop r (
          add_single_value_property OperationProperty.iszoned
            (encode 1 0)
            prop
            r
            (cx_properties b a prop r)))
unfolding cx_properties cx_site_properties operation_duration_property
cx_properties-Answers b a prop r n e h =
    rw (n, operation_duration_property, e, cx_site_properties, n)
      (string-Answers _ _ r _ _ _ h (
        single-Answers _ _ r _ _ _ h (
          single-Answers _ _ r _ _ _ h (
            single-Answers _ _ r _ _ _ h (
              list-Answers _ _ r _ _ _ _ h
                (single-Answers _ _ r _ _ _ h (refused (lookup-nil {A = Bytes} prop) refl)))))))

module _ (b : Build) (linked : IsLinked b) where
  rotation-real : (op : ℕ) (name : Bytes) → IsRotation b op name → op ≢ 0
  rotation-real op name is_rx = linked.rx_real
  rotation-real op name is_ry = linked.ry_real
  rotation-real op name is_rz = linked.rz_real

  rotation_name :
      (op : ℕ) (name : Bytes)
      → IsRotation b op name
      → lookup op (operation_properties b) ≡ some (name, 10)
  unfolding lookup
  rotation_name op name is_rx = ground arith
  rotation_name op name is_ry = ground (arith, linked.rx_ry)
  rotation_name op name is_rz = ground (arith, linked.rx_rz, linked.ry_rz)

  rotation_branch :
      (op : ℕ) (name : Bytes) (a : Operands) (prop : ℕ) (r : Request)
      → IsRotation b op name
      → operation_properties_of b op a prop r ≡ rotation_properties b a prop r
  unfolding operation_properties_of
  rotation_branch op name a prop r is_rx = ground (arith, linked.rx_cx)
  rotation_branch op name a prop r is_ry = ground (arith, linked.ry_cx)
  rotation_branch op name a prop r is_rz = ground (arith, linked.rz_cx)

  cx_name : lookup b.cx (operation_properties b) ≡ some (text "cx", 100)
  unfolding lookup
  cx_name = ground (arith, linked.rx_cx, linked.ry_cx, linked.rz_cx)

  operand_guard :
      (op n m : ℕ) (a : Operands) (prop : ℕ) (r : Request)
      → op ≢ 0
      → 0 < n
      → 0 < m
      → FitsOperands n m a
      → is_empty_buffer r ≡ false
      → is_invalid_enum_value prop OperationProperty.max_value ≡ false
      → (op == 0
          || (is_given a.sites && a.num_sites == 0)
          || (a.params && a.num_params == 0)
          || is_empty_buffer r
          || is_invalid_enum_value prop OperationProperty.max_value)
        ≡ false
  operand_guard op n m a prop r real p q (s, t) usable valid = ground arith

  query_rotation-Answers :
      (s : Session) (op : ℕ) (name : Bytes) (a : Operands) (prop : ℕ) (r : Request)
      → IsRotation b op name
      → FitsOperands 1 1 a
      → is_empty_buffer r ≡ false
      → is_invalid_enum_value prop OperationProperty.max_value ≡ false
      → IsContract r
      → Answers
          (lookup prop (rotation_table b name))
          r
          (query_operation_property b (some s) op a prop r)
  unfolding query_operation_property operation_name_property
  query_rotation-Answers s op name a prop r i f usable valid h =
      rw
        (
          operand_guard op 1 1 a prop r (rotation-real op name i) (omega arith) (omega arith) f
              usable valid,
          operation_name_property,
          rotation_name op name i,
          rotation_branch op name a prop r i,
        )
        (rotation_properties-Answers b a name prop r f h)

  cx_branch :
      (a : Operands) (prop : ℕ) (r : Request)
      → operation_properties_of b b.cx a prop r ≡ cx_properties b a prop r
  unfolding operation_properties_of
  cx_branch a prop r = ground arith

  query_cx-Answers :
      (s : Session) (a : Operands) (prop : ℕ) (r : Request)
      → a.sites ≡ none
      → (a.params && a.num_params == 0) ≡ false
      → is_empty_buffer r ≡ false
      → is_invalid_enum_value prop OperationProperty.max_value ≡ false
      → IsContract r
      → Answers (lookup prop (cx_table b)) r (query_operation_property b (some s) b.cx a prop r)
  unfolding query_operation_property operation_name_property
  query_cx-Answers s a prop r n p usable valid h =
      let real : (b.cx == 0) ≡ false = ground (arith, linked.cx_real) in
      rw (n, p, usable, valid, real, operation_name_property, cx_name, cx_branch a prop r)
        (cx_properties-Answers b a prop r n cx_name h)

  -- A rotation serves every property of its table, with no operands or with one site and one
  -- parameter, in any session that is not null, if the constant objects have addresses of their
  -- own.
  pub query_rotation_property-Serves :
      (s : Session) (op : ℕ) (name : Bytes) (a : Operands) (prop : ℕ) (r : Request)
      (payload : Bytes)
      → IsRotation b op name
      → FitsOperands 1 1 a
      → is_invalid_enum_value prop OperationProperty.max_value ≡ false
      → lookup prop (rotation_table b name) ≡ some payload
      → IsContract r
      → Serves payload r (query_operation_property b (some s) op a prop r)
  query_rotation_property-Serves s op name a prop r payload i f valid e h =
      elim (Bool-cases (is_empty_buffer r)) [
        | inl empty ↦
            query_empty-Serves b s op a prop r payload
              (All-lookup (λ (bs : Bytes). 0 < length bs) prop (rotation_table b name)
                (rotation_table-IsFull b name) e)
              empty
        | inr usable ↦ Answers-some (query_rotation-Answers s op name a prop r i f usable valid h) e
      ]

  -- CX serves every property of its table where no sites are given, in any session that is not
  -- null, if the constant objects have addresses of their own.
  pub query_cx_property-Serves :
      (s : Session) (a : Operands) (prop : ℕ) (r : Request) (payload : Bytes)
      → a.sites ≡ none
      → (a.params && a.num_params == 0) ≡ false
      → is_invalid_enum_value prop OperationProperty.max_value ≡ false
      → lookup prop (cx_table b) ≡ some payload
      → IsContract r
      → Serves payload r (query_operation_property b (some s) b.cx a prop r)
  query_cx_property-Serves s a prop r payload n p valid e h =
      elim (Bool-cases (is_empty_buffer r)) [
        | inl empty ↦
            query_empty-Serves b s b.cx a prop r payload
              (All-lookup (λ (bs : Bytes). 0 < length bs) prop (cx_table b) (cx_table-IsFull b) e)
              empty
        | inr usable ↦ Answers-some (query_cx-Answers s a prop r n p usable valid h) e
      ]

-- The operations with the operands that they have a table for: a rotation with no operands or with
-- one site and one parameter, and CX where no sites are given.
pub data IsTable (b : Build) (a : Operands) : ℕ → List (ℕ × Bytes) → Type 0 where
  of_rotation :
      (op : ℕ) (name : Bytes)
      → IsRotation b op name
      → FitsOperands 1 1 a
      → IsTable b a op (rotation_table b name)
  of_cx : a.sites ≡ none → (a.params && a.num_params == 0) ≡ false → IsTable b a b.cx (cx_table b)

-- An operation serves every property of its table, in any session that is not null, if the constant
-- objects have addresses of their own: a rotation with no operands or with one site and one
-- parameter, and CX where no sites are given. The DURATION of a rotation is in its table as the bits
-- of the double 0.01, where the documentation of the property says a raw uint64_t; that of CX is a
-- uint64_t.
pub query_operation_property-Serves :
    (b : Build) (s : Session) (op : ℕ) (a : Operands) (table : List (ℕ × Bytes)) (prop : ℕ)
    (r : Request) (payload : Bytes)
    → IsLinked b
    → IsTable b a op table
    → is_invalid_enum_value prop OperationProperty.max_value ≡ false
    → lookup prop table ≡ some payload
    → IsContract r
    → Serves payload r (query_operation_property b (some s) op a prop r)
query_operation_property-Serves b s _ a _ prop r payload linked (of_rotation op name i f) valid e
      h =
    query_rotation_property-Serves b linked s op name a prop r payload i f valid e h
query_operation_property-Serves b s _ a _ prop r payload linked (of_cx n p) valid e h =
    query_cx_property-Serves b linked s a prop r payload n p valid e h
