-- ===== src/Messages/Startup/Passwords.antt =====
-- The messages of type `p`: `Password`, `SASLInitialResponse`, `SASLResponse`, and the family that
-- stands for all of them until the authentication says which it is.
pub mod RoundTrip
use pgwire.Base.{
  ℕ, ◌+◌, ◌%◌, ◌^◌, Option, none, some, List, [], ◌∷◌, Bytes, length, ◌==◌, if◌then◌else◌,
  minus_one32, i32_as_usize,
}
use pgwire.Buffers.{
  BytesCrate, Reply, panic, Action, ◌>>=◌, ◌>>◌, pure, put_i32, put_slice, get_i32, split_to,
}
use pgwire.Messages.Codec.{Message, get_cstring, put_cstring, or_empty, usize_sub}

pub record Password : Type 0 where
  pub password : Bytes

pub record SaslInitialResponse : Type 0 where
  pub auth_method : Bytes
  pub payload : Option Bytes

pub record SaslResponse : Type 0 where
  pub payload : Bytes

pub data PasswordMessageFamily : Type 0 where
  raw : Bytes → PasswordMessageFamily
  password : Password → PasswordMessageFamily
  sasl_initial_response : SaslInitialResponse → PasswordMessageFamily
  sasl_response : SaslResponse → PasswordMessageFamily

unfoldable pub payload_length : Option Bytes → ℕ
payload_length none = 0
payload_length (some d) = length d

module _ ⦃c : BytesCrate⦄ where
  unfoldable pub password_message : Message Password
  password_message = record {
    message_type = some b'p';
    message_length = λ m. 5 + length m.password;
    encode_body = λ m. put_cstring m.password;
    decode_body = λ _. (do pass ← get_cstring; pure (record { password = or_empty pass }));
  }

  unfoldable pub put_payload : Option Bytes → Action (Unit {0})
  put_payload (some d) = do put_i32 (length d % 2 ^ 32); put_slice d
  put_payload none = put_i32 minus_one32

  unfoldable pub get_payload : Action (Option Bytes)
  get_payload = do
    data_len ← get_i32
    if data_len == minus_one32
        then pure none
        else (do d ← split_to (i32_as_usize data_len); pure (some d))

  unfoldable pub sasl_initial_response_message : Message SaslInitialResponse
  unfolding payload_length
  sasl_initial_response_message = record {
    message_type = some b'p';
    message_length = λ m. 4 + length m.auth_method + 1 + 4 + payload_length m.payload;
    encode_body = λ m. (do put_cstring m.auth_method; put_payload m.payload);
    decode_body = λ _. do
      auth_method ← get_cstring
      payload ← get_payload
      pure (record { auth_method = or_empty auth_method; payload = payload });
  }

  unfoldable pub sasl_response_message : Message SaslResponse
  sasl_response_message = record {
    message_type = some b'p';
    message_length = λ m. 4 + length m.payload;
    encode_body = λ m. put_slice m.payload;
    decode_body = λ full_len. do
      d ← split_to (usize_sub full_len 4)
      pure (record { payload = d });
  }

  unfoldable pub family_length : PasswordMessageFamily → ℕ
  unfolding password_message sasl_initial_response_message sasl_response_message
  family_length (raw body) = length body + 4
  family_length (password inner) = (password_message).message_length inner
  family_length (sasl_initial_response inner) = (sasl_initial_response_message).message_length inner
  family_length (sasl_response inner) = (sasl_response_message).message_length inner

  unfoldable pub encode_family : PasswordMessageFamily → Action (Unit {0})
  unfolding password_message sasl_initial_response_message sasl_response_message
  encode_family (raw body) = put_slice body
  encode_family (password inner) = (password_message).encode_body inner
  encode_family (sasl_initial_response inner) = (sasl_initial_response_message).encode_body inner
  encode_family (sasl_response inner) = (sasl_response_message).encode_body inner

  unfoldable pub family_message : Message PasswordMessageFamily
  family_message = record {
    message_type = some b'p';
    message_length = family_length;
    encode_body = encode_family;
    decode_body = λ full_len. (do body ← split_to (usize_sub full_len 4); pure (raw body));
  }

  -- `into_password` and its kin decode the body that was kept; they panic on a family message that
  -- has a concrete type.
  unfoldable pub coerce_raw : {A : Type 0} → Message A → PasswordMessageFamily → Reply A
  coerce_raw m (raw body) = m.decode_body (length body + 4) body
  coerce_raw m (password _) = panic
  coerce_raw m (sasl_initial_response _) = panic
  coerce_raw m (sasl_response _) = panic

  unfoldable pub into_password : PasswordMessageFamily → Reply Password
  unfolding coerce_raw password_message
  into_password = coerce_raw password_message

  unfoldable pub into_sasl_initial_response : PasswordMessageFamily → Reply SaslInitialResponse
  unfolding coerce_raw sasl_initial_response_message
  into_sasl_initial_response = coerce_raw sasl_initial_response_message

  unfoldable pub into_sasl_response : PasswordMessageFamily → Reply SaslResponse
  unfolding coerce_raw sasl_response_message
  into_sasl_response = coerce_raw sasl_response_message
