-- ===== src/Tests/Wire/Startup.antt =====
-- Requests, passwords and authentication messages.
use pgwire.Base.{◌≡◌, ◌≢◌, refl, some, [], ◌∷◌, ◌++◌, arith}
use pgwire.Buffers.{ok, no_fuel}
use pgwire.Buffers.Standard.{standard}
use pgwire.Text.Ascii.{is_ascii, is_ascii-IsCstring}
use pgwire.Messages.Codec.{get_length}
use pgwire.Messages.Codec
use pgwire.Messages.Codec.Framing.{frame}
use pgwire.Messages.Startup.Params.{Params, compare_bytes}
use pgwire.Messages.Startup.Request.{startup_message, decode_startup}
use pgwire.Messages.Startup.Request.RoundTrip.{with_params, startup_body, decode-encode_startup}
use pgwire.Messages.Startup.Authentication.{sasl_continue, sasl_final, authentication_message}
use pgwire.Messages.Startup.Authentication.Sasl
use pgwire.Messages.Startup.Authentication.Sasl.{decode-sasl_eats, decode-sasl_panics}
use pgwire.Messages.Frontend
use pgwire.Messages.Frontend.{PgWireFrontendMessage}
use pgwire.Messages.Backend
use pgwire.Messages.Backend.{PgWireBackendMessage}
use pgwire.Messages.Ends.Total.{decode-ends}

-- A buffer of one byte.
decode-ends_example :
    (Frontend.decode (b'Q' ∷ []) ≢ no_fuel)
    × (Backend.decode (b'Q' ∷ []) ≢ no_fuel)
    × (decode_startup (b'Q' ∷ []) ≢ no_fuel)
decode-ends_example = decode-ends (b'Q' ∷ [])

abbrev login : Params
login = (b'd' ∷ [], b'x' ∷ []) ∷ (b'u' ∷ [], []) ∷ []

decode-encode_startup_example :
    (Codec.encode startup_message (with_params login) []
      ≡ ok tt ([] ++ frame startup_message (with_params login) (startup_body (with_params login))))
    × (decode_startup
          (frame startup_message (with_params login) (startup_body (with_params login)) ++ [])
        ≡ ok (some (with_params login)) [])
decode-encode_startup_example =
    decode-encode_startup login [] []
      (
        (
          is_ascii-IsCstring (b'd' ∷ []) (unfold is_ascii in refl),
          (λ e. ground arith),
          is_ascii-IsCstring (b'x' ∷ []) (unfold is_ascii in refl),
        ),
        (
          (
            is_ascii-IsCstring (b'u' ∷ []) (unfold is_ascii in refl),
            (λ e. ground arith),
            is_ascii-IsCstring [] (unfold is_ascii in refl),
          ),
          tt,
        ),
      )
      (unfold compare_bytes in ((refl, tt), (tt, tt))) (unfold startup_message in omega arith)

-- The next message's header becomes part of the data.
decode-sasl_eats_example :
    (Codec.decode authentication_message
        (Sasl.wire (sasl_continue (b'r' ∷ [])) ++ (b'R' ∷ 0 ∷ 0 ∷ 0 ∷ [] ++ 8 ∷ []))
      ≡ ok (some (sasl_continue (b'r' ∷ [] ++ b'R' ∷ 0 ∷ 0 ∷ 0 ∷ []))) (8 ∷ []))
    × (Codec.decode authentication_message
          (Sasl.wire (sasl_final (b'r' ∷ [])) ++ (b'R' ∷ 0 ∷ 0 ∷ 0 ∷ [] ++ 8 ∷ []))
        ≡ ok (some (sasl_final (b'r' ∷ [] ++ b'R' ∷ 0 ∷ 0 ∷ 0 ∷ []))) (8 ∷ []))
decode-sasl_eats_example =
    decode-sasl_eats (b'r' ∷ []) (b'R' ∷ 0 ∷ 0 ∷ 0 ∷ []) (8 ∷ []) refl (omega arith)
