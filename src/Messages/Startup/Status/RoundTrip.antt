-- ===== src/Messages/Startup/Status/RoundTrip.antt =====
-- `ParameterStatus` and `BackendKeyData` are read back.
use pgwire.Base.{◌+◌, ◌^◌, ◌<◌, ◌≡◌, ◌++◌, Bytes, be32, length, length-append, arith}
use pgwire.Buffers.{BytesCrate, get_i32}
use pgwire.Buffers.Rules.{
  Reads-bind, Reads-last, Reads-last_eq, Reads-get_i32, Writes-then, Writes-put_i32,
}
use pgwire.Text.{IsCstring}
use pgwire.Messages.Codec.{get_cstring}
use pgwire.Messages.Codec.Strings.{
  cstring, non_empty, or_empty-non_empty, Reads-get_cstring, Writes-put_cstring, length-cstring,
}
use pgwire.Messages.Codec.Framing.{RoundTrips, round_trips}
use pgwire.Messages.Startup.Status.{
  ParameterStatus, BackendKeyData, parameter_status_message, backend_key_data_message,
}

abbrev pub parameter_status_body : ParameterStatus → Bytes
parameter_status_body m = cstring m.name ++ cstring m.value

abbrev pub backend_key_data_body : BackendKeyData → Bytes
backend_key_data_body m = be32 m.pid ++ be32 m.secret_key

module _ ⦃c : BytesCrate⦄ where
  pub parameter_status-length :
      (m : ParameterStatus)
      → parameter_status_message.message_length m ≡ 4 + length (parameter_status_body m)
  unfolding parameter_status_message
  parameter_status-length m = omega (
    arith,
    length-append (cstring m.name) (cstring m.value),
    length-cstring m.name,
    length-cstring m.value,
  )

  pub parameter_status-RoundTrips :
      (m : ParameterStatus)
      → IsCstring m.name
      → IsCstring m.value
      → parameter_status_message.message_length m < 2 ^ 31
      → RoundTrips parameter_status_message m (parameter_status_body m) 0
  unfolding parameter_status_message
  parameter_status-RoundTrips m h1 h2 fits =
      round_trips _ m _ (Writes-then _ _ (Writes-put_cstring m.name) (Writes-put_cstring m.value))
        (Reads-bind get_cstring _ (non_empty m.name) m (Reads-get_cstring m.name h1) (
          rw (or_empty-non_empty m.name) (
            Reads-last_eq get_cstring _ (non_empty m.value) m (rw (or_empty-non_empty m.value))
              (Reads-get_cstring m.value h2))))
        (parameter_status-length m) fits

  pub backend_key_data-RoundTrips :
      (m : BackendKeyData)
      → m.pid < 2 ^ 32
      → m.secret_key < 2 ^ 32
      → RoundTrips backend_key_data_message m (backend_key_data_body m) 0
  unfolding backend_key_data_message
  backend_key_data-RoundTrips m h1 h2 =
      round_trips _ m _ (Writes-then _ _ (Writes-put_i32 m.pid) (Writes-put_i32 m.secret_key))
        (Reads-bind get_i32 _ m.pid m (Reads-get_i32 m.pid h1)
          (Reads-last get_i32 _ m.secret_key (Reads-get_i32 m.secret_key h2)))
        (omega arith) (omega arith)
