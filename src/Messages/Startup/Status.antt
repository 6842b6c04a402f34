-- ===== src/Messages/Startup/Status.antt =====
-- `ParameterStatus` and `BackendKeyData`.
pub mod RoundTrip
use pgwire.Base.{ℕ, ◌+◌, some, Bytes, length}
use pgwire.Buffers.{BytesCrate, ◌>>=◌, ◌>>◌, pure, put_i32, get_i32}
use pgwire.Messages.Codec.{Message, get_cstring, put_cstring, or_empty}

pub record ParameterStatus : Type 0 where
  pub name : Bytes
  pub value : Bytes

pub record BackendKeyData : Type 0 where
  pub pid : ℕ
  pub secret_key : ℕ

module _ ⦃c : BytesCrate⦄ where
  unfoldable pub parameter_status_message : Message ParameterStatus
  parameter_status_message = record {
    message_type = some b'S';
    message_length = λ m. 4 + 2 + length m.name + length m.value;
    encode_body = λ m. (do put_cstring m.name; put_cstring m.value);
    decode_body = λ _. do
      name ← get_cstring
      value ← get_cstring
      pure (record { name = or_empty name; value = or_empty value });
  }

  unfoldable pub backend_key_data_message : Message BackendKeyData
  backend_key_data_message = record {
    message_type = some b'K';
    message_length = λ _. 12;
    encode_body = λ m. (do put_i32 m.pid; put_i32 m.secret_key);
    decode_body = λ _. do
      pid ← get_i32
      secret_key ← get_i32
      pure (record { pid = pid; secret_key = secret_key });
  }
