-- ===== src/Messages/Startup/Authentication.antt =====
-- `Authentication`, the backend's side of the login.
pub mod RoundTrip
pub mod Sasl
use pgwire.Base.{
  ℕ, zero, suc, ◌+◌, Option, none, some, List, [], ◌∷◌, ◌++◌, Bytes, length, sum_map, ◌==◌,
  if◌then◌else◌,
}
use pgwire.Buffers.{
  BytesCrate, no_fuel, Action, ◌>>=◌, ◌>>◌, pure, unreachable, put_u8, put_i32, put_slice, get_i32,
  split_to, copy_to_slice,
}
use pgwire.Messages.Codec.{Message, get_cstring, put_cstring, usize_sub}
use pgwire.Messages.Vectors.{for_each}

pub data Authentication : Type 0 where
  auth_ok cleartext_password kerberos_v5 : Authentication
  md5_password : Bytes → Authentication
  sasl : List Bytes → Authentication
  sasl_continue : Bytes → Authentication
  sasl_final : Bytes → Authentication

unfoldable pub authentication_length : Authentication → ℕ
authentication_length auth_ok = 8
authentication_length cleartext_password = 8
authentication_length kerberos_v5 = 8
authentication_length (md5_password _) = 12
authentication_length (sasl methods) = 8 + sum_map (λ (v : Bytes). length v + 1) methods + 1
authentication_length (sasl_continue d) = 8 + length d
authentication_length (sasl_final d) = 8 + length d

module _ ⦃c : BytesCrate⦄ where
  unfoldable pub encode_authentication : Authentication → Action (Unit {0})
  encode_authentication auth_ok = put_i32 0
  encode_authentication cleartext_password = put_i32 3
  encode_authentication kerberos_v5 = put_i32 2
  encode_authentication (md5_password salt) = do put_i32 5; put_slice salt
  encode_authentication (sasl methods) = do put_i32 10; for_each put_cstring methods; put_u8 0
  encode_authentication (sasl_continue d) = do put_i32 11; put_slice d
  encode_authentication (sasl_final d) = do put_i32 12; put_slice d

  -- `while let Some(method) = get_cstring(buf) { methods.push(method); }`
  unfoldable pub decode_methods : ℕ → List Bytes → Action (List Bytes)
  decode_methods zero methods = λ b. no_fuel
  decode_methods (suc fuel) methods = do
    method ← get_cstring
    elim method [ none ↦ pure methods | some m ↦ decode_methods fuel (methods ++ m ∷ []) ]

  -- A round takes at least one byte, so the bytes left are fuel enough.
  unfoldable pub decode_all_methods : Action (List Bytes)
  unfolding decode_methods
  decode_all_methods b = decode_methods (suc (c.remaining b)) [] b

  unfoldable pub decode_authentication : ℕ → Action Authentication
  decode_authentication msg_len = do
    code ← get_i32
    if code == 0
        then pure auth_ok
        else if code == 2
        then pure kerberos_v5
        else if code == 3
        then pure cleartext_password
        else if code == 5
        then (do salt ← copy_to_slice 4; pure (md5_password salt))
        else if code == 10
        then (do methods ← decode_all_methods; pure (sasl methods))
        else if code == 11
        then (do d ← split_to (usize_sub msg_len 4); pure (sasl_continue d))
        else if code == 12
        then (do d ← split_to (usize_sub msg_len 4); pure (sasl_final d))
        else unreachable

  unfoldable pub authentication_message : Message Authentication
  authentication_message = record {
    message_type = some b'R';
    message_length = authentication_length;
    encode_body = encode_authentication;
    decode_body = decode_authentication;
  }
