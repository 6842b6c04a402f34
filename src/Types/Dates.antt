-- ===== src/Types/Dates.antt =====
-- types/mod.rs: dates and times. The crate `chrono` formats them: how a type of it does so is an
-- argument, a function from a value and a format to a text.
use pgwire.Base.{Bool, Option, none, some, [], ◌∷◌, Bytes, if◌then◌else◌}
use pgwire.Buffers.{BytesCrate}
use pgwire.Api.Statements.{PostgresTypes}
use pgwire.Types.{null_no, Written, written, refused, ToSqlText}

-- "%Y-%m-%d %H:%M:%S%.6f"
abbrev pub timestamp_format : Bytes
timestamp_format =
    b'%' ∷ b'Y' ∷ b'-' ∷ b'%' ∷ b'm' ∷ b'-' ∷ b'%' ∷ b'd' ∷ b' ' ∷ b'%' ∷ b'H' ∷ b':' ∷ b'%' ∷ b'M'
    ∷ b':' ∷ b'%' ∷ b'S' ∷ b'%' ∷ b'.' ∷ b'6' ∷ b'f' ∷ []

-- "%Y-%m-%d %H:%M:%S%.6f%:::z"
abbrev pub timestamptz_format : Bytes
timestamptz_format =
    b'%' ∷ b'Y' ∷ b'-' ∷ b'%' ∷ b'm' ∷ b'-' ∷ b'%' ∷ b'd' ∷ b' ' ∷ b'%' ∷ b'H' ∷ b':' ∷ b'%' ∷ b'M'
    ∷ b':' ∷ b'%' ∷ b'S' ∷ b'%' ∷ b'.' ∷ b'6' ∷ b'f' ∷ b'%' ∷ b':' ∷ b':' ∷ b':' ∷ b'z' ∷ []

-- "%Y-%m-%d"
abbrev pub date_format : Bytes
date_format = b'%' ∷ b'Y' ∷ b'-' ∷ b'%' ∷ b'm' ∷ b'-' ∷ b'%' ∷ b'd' ∷ []

-- "%H:%M:%S%.6f"
abbrev pub time_format : Bytes
time_format = b'%' ∷ b'H' ∷ b':' ∷ b'%' ∷ b'M' ∷ b':' ∷ b'%' ∷ b'S' ∷ b'%' ∷ b'.' ∷ b'6' ∷ b'f' ∷ []

-- "%H:%M:%S%.6f%:::z"
abbrev pub timetz_format : Bytes
timetz_format =
    b'%' ∷ b'H' ∷ b':' ∷ b'%' ∷ b'M' ∷ b':' ∷ b'%' ∷ b'S' ∷ b'%' ∷ b'.' ∷ b'6' ∷ b'f' ∷ b'%' ∷ b':'
    ∷ b':' ∷ b':' ∷ b'z' ∷ []

-- The types of the crate `postgres_types` that the code names, and the test of a pattern on them.
pub record DateTypes ⦃p : PostgresTypes⦄ : Type 0 where
  pub timestamp : p.PgType
  pub timestamptz : p.PgType
  pub date : p.PgType
  pub time : p.PgType
  pub timetz : p.PgType
  pub is : p.PgType → p.PgType → Bool

module _ ⦃p : PostgresTypes⦄ ⦃d : DateTypes⦄ where
  -- The formats by type; `none` is `WrongType`.
  unfoldable pub datetime_format : p.PgType → Option Bytes
  datetime_format ty =
      if d.is ty d.timestamp
      then some timestamp_format
      else if d.is ty d.timestamptz
      then some timestamptz_format
      else if d.is ty d.date
      then some date_format
      else if d.is ty d.time
      then some time_format
      else if d.is ty d.timetz
      then some timetz_format
      else none

  unfoldable pub naive_datetime_format : p.PgType → Option Bytes
  naive_datetime_format ty =
      if d.is ty d.timestamp
      then some timestamp_format
      else if d.is ty d.date
      then some date_format
      else if d.is ty d.time
      then some time_format
      else none

  unfoldable pub naive_date_format : p.PgType → Option Bytes
  naive_date_format ty = if d.is ty d.date then some date_format else none

  unfoldable pub naive_time_format : p.PgType → Option Bytes
  naive_time_format ty = if d.is ty d.time then some time_format else none

  module _ ⦃c : BytesCrate⦄ where
    unfoldable pub write_formatted : Option Bytes → (Bytes → Bytes) → Bytes → Bytes → Written
    write_formatted none format wrong_type out = refused wrong_type out
    write_formatted (some fmt) format wrong_type out =
        written null_no (c.put_slice out (format fmt))

    -- `wrong_type` is the text of `WrongType::new::<T>(ty)`.
    module _ {T : Type 0} (format : T → Bytes → Bytes) (wrong_type : p.PgType → Bytes) where
      unfoldable pub datetime_text : ToSqlText T
      unfolding write_formatted datetime_format
      datetime_text = record {
        to_sql_text =
            λ value ty out. write_formatted (datetime_format ty) (format value) (wrong_type ty) out;
      }

      unfoldable pub naive_datetime_text : ToSqlText T
      unfolding write_formatted naive_datetime_format
      naive_datetime_text = record {
        to_sql_text = λ value ty out.
            write_formatted (naive_datetime_format ty) (format value) (wrong_type ty) out;
      }

      unfoldable pub naive_date_text : ToSqlText T
      unfolding write_formatted naive_date_format
      naive_date_text = record {
        to_sql_text = λ value ty out.
            write_formatted (naive_date_format ty) (format value) (wrong_type ty) out;
      }

      unfoldable pub naive_time_text : ToSqlText T
      unfolding write_formatted naive_time_format
      naive_time_text = record {
        to_sql_text = λ value ty out.
            write_formatted (naive_time_format ty) (format value) (wrong_type ty) out;
      }

    -- `SystemTime` is written in UTC, whatever the type; `to_utc` is `DateTime::<Utc>::from`.
    unfoldable pub system_time_text : {S T : Type 0} → (S → T) → (T → Bytes → Bytes) → ToSqlText S
    system_time_text to_utc format = record {
      to_sql_text = λ value ty out.
          written null_no (c.put_slice out (format (to_utc value) timestamp_format));
    }
