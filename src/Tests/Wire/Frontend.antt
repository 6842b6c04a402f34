-- ===== src/Tests/Wire/Frontend.antt =====
-- Frontend messages that are written and read.
use pgwire.Base.{ℕ, ◌+◌, ◌≡◌, refl, none, some, [], ◌∷◌, ◌++◌, map, Bytes, be32, arith, length}
use pgwire.Buffers.{ok, panic}
use pgwire.Buffers.Standard.{standard}
use pgwire.Text.Ascii.{is_ascii, is_ascii-IsCstring}
use pgwire.Messages.Codec.{get_length}
use pgwire.Messages.Codec
use pgwire.Messages.Vectors.{for_each}
use pgwire.Messages.Vectors.Rules.{flat}
use pgwire.Messages.Units.{flush_message}
use pgwire.Messages.Units
use pgwire.Messages.Response
use pgwire.Messages.Response.{ErrorResponse, error_response_message}
use pgwire.Messages.ExtendedQuery
use pgwire.Messages.ExtendedQuery.RoundTrip.{IsParse}
use pgwire.Messages.Frontend
use pgwire.Messages.Frontend.{PgWireFrontendMessage}
use pgwire.Messages.Frontend.RoundTrip.{
  received, missing, decode-encode_frontend, decode-prefix_frontend, get_length-wire_frontend,
}
use pgwire.Messages.Frontend.Stream.{decode_available, available-encode}
use pgwire.Messages.Frontend.Partial.{decode-query_panic, decode-announced}

abbrev select : Bytes
select = b'S' ∷ b'E' ∷ b'L' ∷ b'E' ∷ b'C' ∷ b'T' ∷ b' ' ∷ b'1' ∷ []

abbrev s1 : Bytes
s1 = b's' ∷ b'1' ∷ []

abbrev parse_select : ExtendedQuery.Parse
parse_select = record { name = some s1; query = select; type_oids = 23 ∷ 25 ∷ [] }

parse_select-IsParse : IsParse parse_select
parse_select-IsParse = record {
  name = (is_ascii-IsCstring s1 (unfold is_ascii in refl), λ e. ground arith);
  query = is_ascii-IsCstring select (unfold is_ascii in refl);
  few = omega arith;
  oids = (omega arith, (omega arith, tt));
}

abbrev parsed : PgWireFrontendMessage
parsed = Frontend.parse parse_select

abbrev asked : PgWireFrontendMessage
asked = Frontend.query (record { query = select })

abbrev synced : PgWireFrontendMessage
synced = Frontend.sync (record {})

-- A statement is sent and received.
decode-encode_frontend_example :
    (Frontend.encode parsed [] ≡ ok tt ([] ++ Frontend.RoundTrip.wire parsed))
    × (Frontend.decode (Frontend.RoundTrip.wire parsed ++ b'S' ∷ []) ≡ ok (some parsed) (b'S' ∷ []))
decode-encode_frontend_example = decode-encode_frontend parsed [] (b'S' ∷ []) (
  parse_select-IsParse,
  unfold ExtendedQuery.parse_message Codec.option_string_len in omega arith,
)

-- The first six bytes of a query.
decode-prefix_frontend_example :
    Frontend.decode (b'Q' ∷ be32 13 ++ b'S' ∷ []) ≡ ok none (b'Q' ∷ be32 13 ++ b'S' ∷ [])
decode-prefix_frontend_example =
    decode-prefix_frontend asked (b'Q' ∷ be32 13 ++ b'S' ∷ [])
      (b'E' ∷ b'L' ∷ b'E' ∷ b'C' ∷ b'T' ∷ b' ' ∷ b'1' ∷ 0 ∷ [])
      (
        is_ascii-IsCstring select (unfold is_ascii in refl),
        unfold Response.query_message in omega arith,
      )
      refl (unfold Response.query_message in refl) (omega arith)

get_length-wire_frontend_example :
    (n : ℕ) × (get_length 1 (Frontend.RoundTrip.wire parsed ++ [])
      ≡ ok (some n) (Frontend.RoundTrip.wire parsed ++ []))
    × (1 + n + missing parsed ≡ length (Frontend.RoundTrip.wire parsed))
get_length-wire_frontend_example = get_length-wire_frontend parsed [] (
  parse_select-IsParse,
  unfold ExtendedQuery.parse_message Codec.option_string_len in omega arith,
)

-- Two messages and the first two bytes of a third.
available-encode_example :
    (for_each Frontend.encode (parsed ∷ synced ∷ []) []
      ≡ ok tt ([] ++ flat Frontend.RoundTrip.wire (parsed ∷ synced ∷ [])))
    × (decode_available 3 (flat Frontend.RoundTrip.wire (parsed ∷ synced ∷ []) ++ b'S' ∷ 0 ∷ [])
        ≡ ok (map received (parsed ∷ synced ∷ [])) (b'S' ∷ 0 ∷ []))
available-encode_example =
    available-encode 3 (parsed ∷ synced ∷ []) synced [] (b'S' ∷ 0 ∷ []) (0 ∷ 0 ∷ 4 ∷ [])
      (omega arith)
      (
        (
          parse_select-IsParse,
          unfold ExtendedQuery.parse_message Codec.option_string_len in omega arith,
        ),
        (tt, tt),
      )
      tt refl (unfold Units.sync_message in refl) (omega arith)

-- A query whose one byte is not a terminator.
decode-query_panic_example : Frontend.decode (b'Q' ∷ (be32 5 ++ b'x' ∷ [])) ≡ panic
decode-query_panic_example =
    decode-query_panic 5 (b'x' ∷ []) (omega arith) (omega arith) ((λ e. omega arith), tt)

-- The announced byte `x` stays.
decode-announced_example :
    (Frontend.decode (b'S' ∷ (be32 5 ++ b'x' ∷ [])) ≡ ok (some synced) (b'x' ∷ []))
    × (Frontend.decode (b'X' ∷ (be32 5 ++ b'x' ∷ []))
        ≡ ok (some (Frontend.terminate (record {}))) (b'x' ∷ []))
decode-announced_example = decode-announced 5 (b'x' ∷ []) (omega arith) (omega arith)
