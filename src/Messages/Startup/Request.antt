-- ===== src/Messages/Startup/Request.antt =====
-- `Startup` and `SslRequest`, the two messages without a type byte.
pub mod RoundTrip
pub mod Ssl
pub mod Partial
use pgwire.Base.{
  ℕ, zero, suc, ◌+◌, ◌*◌, Bool, true, false, Option, none, some, List, [], ◌∷◌, Bytes, length,
  sum_map, leb, ◌==◌, if◌then◌else◌,
}
use pgwire.Errors.{invalid_protocol_version}
use pgwire.Buffers.{
  BytesCrate, Reply, no_fuel, panic, Action, ◌>>=◌, ◌>>◌, pure, raise, unreachable, put_u16,
  put_i32, get_u16, advance, reading, writing,
}
use pgwire.Messages.Codec.{Message, get_cstring, put_cstring, peek_i32, decode_packet, or_empty}
use pgwire.Messages.Vectors.{for_each}
use pgwire.Messages.Startup.Params.{Params, insert}

pub record Startup : Type 0 where
  pub protocol_number_major : ℕ
  pub protocol_number_minor : ℕ
  pub parameters : Params

-- `Startup::new`
abbrev pub new_startup : Startup
new_startup = record { protocol_number_major = 3; protocol_number_minor = 0; parameters = [] }

unfoldable pub is_protocol_version_supported : ℕ → Bool
is_protocol_version_supported version = version == 196608

module _ ⦃c : BytesCrate⦄ where
  unfoldable pub put_param : Bytes × Bytes → Action (Unit {0})
  put_param (k, v) = do put_cstring k; put_cstring v

  -- `while let Some(key) = get_cstring(buf)`
  unfoldable pub decode_params : ℕ → Params → Action Params
  decode_params zero m = λ b. no_fuel
  decode_params (suc fuel) m = do
    key ← get_cstring
    elim key [
      | none ↦ pure m
      | some k ↦ (do value ← get_cstring; decode_params fuel (insert k (or_empty value) m))
    ]

  -- A round takes at least one byte, so the bytes left are fuel enough.
  unfoldable pub decode_all_params : Action Params
  unfolding decode_params
  decode_all_params b = decode_params (suc (c.remaining b)) [] b

  unfoldable pub startup_message : Message Startup
  startup_message = record {
    message_type = none;
    message_length =
        λ s. 9 + sum_map (λ (e : Bytes × Bytes). length e.0 + length e.1 + 2) s.parameters;
    encode_body = λ s. do
      put_u16 s.protocol_number_major
      put_u16 s.protocol_number_minor
      for_each put_param s.parameters
      put_cstring [];
    decode_body = λ _. do
      major ← get_u16
      minor ← get_u16
      parameters ← decode_all_params
      pure (record {
        protocol_number_major = major;
        protocol_number_minor = minor;
        parameters = parameters;
      });
  }

  -- `Startup::decode`, which replaces the provided method: the version is checked before the packet
  -- is complete.
  unfoldable pub check_version : Action (Unit {0})
  check_version b =
      if leb 8 (c.remaining b)
      then (do
        version ← peek_i32 4
        if is_protocol_version_supported version
            then pure tt
            else raise (invalid_protocol_version version))
          b
      else pure tt b

  unfoldable pub decode_startup : Action (Option Startup)
  unfolding startup_message
  decode_startup = do check_version; decode_packet 0 (startup_message).decode_body

pub data SslRequest : Type 0 where
  ssl_request : SslRequest

abbrev pub body_magic_number : ℕ
body_magic_number = 80877103

abbrev pub body_size : ℕ
body_size = 8

module _ ⦃c : BytesCrate⦄ where
  unfoldable pub ssl_request_message : Message SslRequest
  ssl_request_message = record {
    message_type = none;
    message_length = λ _. body_size;
    encode_body = λ _. put_i32 body_magic_number;
    decode_body = λ _. unreachable;
  }

  unfoldable pub decode_ssl_request : Action (Option SslRequest)
  decode_ssl_request b =
      if leb 8 (c.remaining b)
      then (do
        magic ← peek_i32 4
        if magic == body_magic_number then (do advance 8; pure (some ssl_request)) else pure none)
          b
      else pure none b
