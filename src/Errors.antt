-- ===== src/Errors.antt =====
-- error.rs: the errors of the library, and the fields of an error or notice message.
pub mod Fields
use pgwire.Base.{
  ℕ, zero, suc, ◌+◌, ◌/◌, ◌%◌, true, false, Option, none, some, List, [], ◌∷◌, ◌++◌, Bytes, ltb,
}

-- `to_string` of a `usize`. A `usize` has at most twenty decimal digits.
unfoldable pub digits : ℕ → ℕ → Bytes
digits zero n = []
digits (suc fuel) n = elim (ltb n 10) [
  | true ↦ (n + b'0') ∷ []
  | false ↦ digits fuel (n / 10) ++ (n % 10 + b'0') ∷ []
]

unfoldable pub usize_to_string : ℕ → Bytes
unfolding digits
usize_to_string n = digits 20 n

pub record ErrorInfo : Type 0 where
  pub severity : Bytes
  pub code : Bytes
  pub message : Bytes
  pub detail : Option Bytes
  pub hint : Option Bytes
  pub position : Option Bytes
  pub internal_position : Option Bytes
  pub internal_query : Option Bytes
  pub where_context : Option Bytes
  pub file_name : Option Bytes
  pub line : Option ℕ
  pub routine : Option Bytes

-- `ErrorInfo::new`: the fields marked `#[new(default)]` are `None`.
unfoldable pub new_error_info : Bytes → Bytes → Bytes → ErrorInfo
new_error_info severity code message = record {
  severity = severity;
  code = code;
  message = message;
  detail = none;
  hint = none;
  position = none;
  internal_position = none;
  internal_query = none;
  where_context = none;
  file_name = none;
  line = none;
  routine = none;
}

-- `if let Some(value) = field { fields.push((code, value)); }`
unfoldable pub push_some : ℕ → Option Bytes → List (ℕ × Bytes) → List (ℕ × Bytes)
push_some code none fields = fields
push_some code (some value) fields = fields ++ (code, value) ∷ []

unfoldable pub line_text : Option ℕ → Option Bytes
line_text none = none
line_text (some n) = some (usize_to_string n)

unfoldable pub into_fields : ErrorInfo → List (ℕ × Bytes)
unfolding push_some line_text
into_fields e =
    let f = (b'S', e.severity) ∷ (b'C', e.code) ∷ (b'M', e.message) ∷ [] in
    let f = push_some b'D' e.detail f in
    let f = push_some b'H' e.hint f in
    let f = push_some b'P' e.position f in
    let f = push_some b'p' e.internal_position f in
    let f = push_some b'q' e.internal_query f in
    let f = push_some b'W' e.where_context f in
    let f = push_some b'F' e.file_name f in
    let f = push_some b'L' (line_text e.line) f in push_some b'R' e.routine f

-- An error that the library wraps (`std::io::Error`, `Box<dyn Error>`) is the text it displays.
pub data PgWireError : Type 0 where
  invalid_protocol_version : ℕ → PgWireError
  invalid_message_type : ℕ → PgWireError
  invalid_target_type : ℕ → PgWireError
  io_error : Bytes → PgWireError
  portal_not_found : Bytes → PgWireError
  statement_not_found : Bytes → PgWireError
  unknown_type_id : ℕ → PgWireError
  parameter_index_out_of_bound : ℕ → PgWireError
  parameter_type_index_out_of_bound : ℕ → PgWireError
  invalid_rust_type_for_parameter : Bytes → PgWireError
  failed_to_parse_parameter : Bytes → PgWireError
  invalid_scram_message : Bytes → PgWireError
  unsupported_certificate_signature_algorithm : PgWireError
  user_name_required : PgWireError
  api_error : Bytes → PgWireError
  user_error : ErrorInfo → PgWireError
