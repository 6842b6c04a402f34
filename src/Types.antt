-- ===== src/Types.antt =====
-- types/mod.rs: `ToSqlText`, the text format of values.
pub mod Integers
pub mod Dates
use pgwire.Base.{
  ℕ, zero, suc, ◌-◌, ◌^◌, ◌≡◌, Bool, true, false, Option, none, some, List, [], ◌∷◌, ◌++◌, Bytes,
  leb, if◌then◌else◌,
}
use pgwire.Buffers.{BytesCrate}
use pgwire.Errors.{digits}
use pgwire.Text.{encode_char}
use pgwire.Api.Statements.{PostgresTypes}

-- `postgres_types::IsNull`
pub data IsNull : Type 0 where
  null_yes : IsNull
  null_no : IsNull

-- `Result<IsNull, Box<dyn Error + Sync + Send>>`, with the buffer that is left. An error is the
-- text that it displays.
pub data Written : Type 0 where
  written : IsNull → Bytes → Written
  refused : Bytes → Bytes → Written

-- The integer types of the macro's calls; a value is its bit pattern.
pub data IntType : Type 0 where
  i8 : IntType
  i16 : IntType
  i32 : IntType
  i64 : IntType
  i128 : IntType
  u8 : IntType
  u16 : IntType
  u32 : IntType
  u64 : IntType
  u128 : IntType

abbrev pub bits : IntType → ℕ
bits i8 = 8
bits i16 = 16
bits i32 = 32
bits i64 = 64
bits i128 = 128
bits u8 = 8
bits u16 = 16
bits u32 = 32
bits u64 = 64
bits u128 = 128

abbrev pub is_signed : IntType → Bool
is_signed i8 = true
is_signed i16 = true
is_signed i32 = true
is_signed i64 = true
is_signed i128 = true
is_signed u8 = false
is_signed u16 = false
is_signed u32 = false
is_signed u64 = false
is_signed u128 = false

-- `to_string` of a number of at most 128 bits, which has at most 39 decimal digits.
unfoldable pub decimal : ℕ → Bytes
unfolding digits
decimal n = digits 39 n

unfoldable pub signed_to_string : ℕ → ℕ → Bytes
signed_to_string w n = if leb (2 ^ (w - 1)) n then b'-' ∷ decimal (2 ^ w - n) else decimal n

unfoldable pub int_to_string : IntType → ℕ → Bytes
unfolding signed_to_string
int_to_string t n = if is_signed t then signed_to_string (bits t) n else decimal n

unfoldable pub bool_to_string : Bool → Bytes
bool_to_string true = b't' ∷ b'r' ∷ b'u' ∷ b'e' ∷ []
bool_to_string false = b'f' ∷ b'a' ∷ b'l' ∷ b's' ∷ b'e' ∷ []

module _ ⦃p : PostgresTypes⦄ where
  -- The trait `ToSqlText`.
  pub record ToSqlText (T : Type 0) : Type 0 where
    pub to_sql_text : T → p.PgType → Bytes → Written

  -- The implementation for `&T`.
  unfoldable pub reference_text : {T : Type 0} → ToSqlText T → ToSqlText T
  reference_text t = record { to_sql_text = λ value ty out. t.to_sql_text value ty out }

  unfoldable pub option_to_sql_text :
      {T : Type 0} → ToSqlText T → Option T → p.PgType → Bytes → Written
  option_to_sql_text t (some val) ty out = t.to_sql_text val ty out
  option_to_sql_text t none ty out = written null_yes out

  unfoldable pub option_text : {T : Type 0} → ToSqlText T → ToSqlText (Option T)
  unfolding option_to_sql_text
  option_text t = record { to_sql_text = option_to_sql_text t }

  module _ ⦃c : BytesCrate⦄ where
    -- `String` and `&str`
    unfoldable pub str_text : ToSqlText Bytes
    str_text = record { to_sql_text = λ value ty w. written null_no (c.put_slice w value) }

    -- The macro: a type is written as what its `to_string` gives. That of `f32` and `f64` is not
    -- modelled.
    unfoldable pub impl_to_sql_text : {T : Type 0} → (T → Bytes) → ToSqlText T
    impl_to_sql_text to_string = record {
      to_sql_text = λ value ty w. written null_no (c.put_slice w (to_string value));
    }

    unfoldable pub int_text : IntType → ToSqlText ℕ
    unfolding impl_to_sql_text int_to_string
    int_text t = impl_to_sql_text (int_to_string t)

    unfoldable pub bool_text : ToSqlText Bool
    unfolding impl_to_sql_text bool_to_string
    bool_text = impl_to_sql_text bool_to_string

    unfoldable pub char_text : ToSqlText ℕ
    unfolding impl_to_sql_text
    char_text = impl_to_sql_text encode_char

    -- `Vec<u8>` and `&[u8]`, with `hex::encode` of the crate `hex`.
    unfoldable pub bytes_text : (Bytes → Bytes) → ToSqlText Bytes
    bytes_text hex_encode = record {
      to_sql_text = λ value ty out. written null_no (c.put_slice out (hex_encode value));
    }
