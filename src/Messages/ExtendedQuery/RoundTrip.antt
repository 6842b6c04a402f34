-- ===== src/Messages/ExtendedQuery/RoundTrip.antt =====
-- The messages of messages/extendedquery.rs are read back. `Parse` is too, though its length field
-- is two less than the frame.
use pgwire.Base.{
  ℕ, ◌+◌, ◌*◌, ◌^◌, ◌<◌, ◌≡◌, Option, none, some, List, [], ◌∷◌, ◌++◌, Bytes, All, be16, be32,
  length, length-append, arith,
}
use pgwire.Buffers.{BytesCrate, put_i16, put_u32, get_u8, get_i16, get_u32, get_i32}
use pgwire.Buffers.Rules.{
  Reads, Reads-bind, Reads-last, Reads-get_u8, Reads-get_i16, Reads-get_u32, Reads-get_i32,
  Writes-then, Writes-put_u8, Writes-put_i16, Writes-put_u32, Writes-put_i32,
}
use pgwire.Text.{IsCstring}
use pgwire.Messages.Codec.{get_cstring}
use pgwire.Messages.Codec.Strings.{
  cstring, option_cstring, IsName, non_empty, or_empty-non_empty, Reads-get_cstring, Reads-name,
  Writes-put_cstring, Writes-put_option_cstring, length-cstring, length-option_cstring,
}
use pgwire.Messages.Codec.Framing.{RoundTrips, round_trips}
use pgwire.Messages.Vectors.{put_value, get_value, read_vec}
use pgwire.Messages.Vectors.Rules.{
  vec_bytes, length-vec_bytes, sum_map-eq, sum_map-const, value_bytes, IsValue, Writes-write_vec,
  Reads-read_vec, Writes-put_value, Reads-get_value, All-map,
}
use pgwire.Messages.ExtendedQuery.{
  Parse, Close, Bind, Describe, Execute, parameter_length, parse_message, close_message,
  bind_message, describe_message, execute_message,
}

abbrev pub parse_body : Parse → Bytes
parse_body m = option_cstring m.name ++ (cstring m.query ++ vec_bytes be32 m.type_oids)

abbrev pub target_body : ℕ → Option Bytes → Bytes
target_body t name = (t ∷ []) ++ option_cstring name

abbrev pub bind_body : Bind → Bytes
bind_body m =
    option_cstring m.portal_name
    ++ (option_cstring m.statement_name
        ++ (vec_bytes be16 m.parameter_format_codes
            ++ (vec_bytes value_bytes m.parameters ++ vec_bytes be16 m.result_column_format_codes)))

abbrev pub execute_body : Execute → Bytes
execute_body m = option_cstring m.name ++ be32 m.max_rows

abbrev IsVec : (ℕ → Type 0) → List ℕ → Type 0
IsVec P xs = (length xs < 2 ^ 15) × All P xs

pub record IsParse (m : Parse) : Type 0 where
  pub name : IsName m.name
  pub query : IsCstring m.query
  pub few : length m.type_oids < 2 ^ 15
  pub oids : All (λ n. n < 2 ^ 32) m.type_oids

pub record IsBind (m : Bind) : Type 0 where
  pub portal : IsName m.portal_name
  pub statement : IsName m.statement_name
  pub few_formats : length m.parameter_format_codes < 2 ^ 15
  pub formats : All (λ n. n < 2 ^ 16) m.parameter_format_codes
  pub few_parameters : length m.parameters < 2 ^ 15
  pub parameters : All IsValue m.parameters
  pub few_results : length m.result_column_format_codes < 2 ^ 15
  pub results : All (λ n. n < 2 ^ 16) m.result_column_format_codes

length-parameter : (o : Option Bytes) → length (value_bytes o) ≡ parameter_length o
unfolding parameter_length
length-parameter none = omega arith
length-parameter (some v) = omega arith

length-words16 : (xs : List ℕ) → length (vec_bytes be16 xs) ≡ 2 + 2 * length xs
length-words16 xs =
    omega (
      arith,
      length-vec_bytes be16 xs,
      sum_map-const (λ t. length (be16 t)) 2 xs (λ t. omega arith),
    )

length-words32 : (xs : List ℕ) → length (vec_bytes be32 xs) ≡ 2 + 4 * length xs
length-words32 xs =
    omega (
      arith,
      length-vec_bytes be32 xs,
      sum_map-const (λ t. length (be32 t)) 4 xs (λ t. omega arith),
    )

module _ ⦃c : BytesCrate⦄ where
  -- The length of `Parse` and of its body.
  pub parse-length : (m : Parse) → parse_message.message_length m + 2 ≡ 4 + length (parse_body m)
  unfolding parse_message
  parse-length m = omega (
    arith,
    length-append (option_cstring m.name) (cstring m.query ++ vec_bytes be32 m.type_oids),
    length-append (cstring m.query) (vec_bytes be32 m.type_oids),
    length-option_cstring m.name,
    length-cstring m.query,
    length-words32 m.type_oids,
  )

  pub parse-RoundTrips :
      (m : Parse)
      → IsParse m
      → parse_message.message_length m < 2 ^ 31
      → RoundTrips parse_message m (parse_body m) 2
  unfolding parse_message
  parse-RoundTrips m h fits = record {
    writes = Writes-then _ _ (Writes-put_option_cstring m.name) (
        Writes-then _ _ (Writes-put_cstring m.query)
          (Writes-write_vec put_u32 be32 m.type_oids Writes-put_u32));
    reads = Reads-bind get_cstring _ m.name m (Reads-name m.name h.name) (
        Reads-bind get_cstring _ (non_empty m.query) m (Reads-get_cstring m.query h.query) (
          rw (or_empty-non_empty m.query) (
            Reads-last _ _ m.type_oids (
              Reads-read_vec get_u32 be32 m.type_oids h.few
                (All-map m.type_oids Reads-get_u32 h.oids)))));
    announced = omega (arith, parse-length m);
    fits = fits;
  }

  pub close-RoundTrips :
      (m : Close)
      → IsName m.name
      → close_message.message_length m < 2 ^ 31
      → RoundTrips close_message m (target_body m.target_type m.name) 0
  unfolding close_message
  close-RoundTrips m h fits =
      round_trips _ m _ (Writes-then _ _ (Writes-put_u8 _) (Writes-put_option_cstring m.name))
        (Reads-bind get_u8 _ m.target_type m (Reads-get_u8 _)
          (Reads-last get_cstring _ m.name (Reads-name m.name h)))
        (omega (arith, length-option_cstring m.name)) fits

  pub describe-RoundTrips :
      (m : Describe)
      → IsName m.name
      → describe_message.message_length m < 2 ^ 31
      → RoundTrips describe_message m (target_body m.target_type m.name) 0
  unfolding describe_message
  describe-RoundTrips m h fits =
      round_trips _ m _ (Writes-then _ _ (Writes-put_u8 _) (Writes-put_option_cstring m.name))
        (Reads-bind get_u8 _ m.target_type m (Reads-get_u8 _)
          (Reads-last get_cstring _ m.name (Reads-name m.name h)))
        (omega (arith, length-option_cstring m.name)) fits

  pub execute-RoundTrips :
      (m : Execute)
      → IsName m.name
      → m.max_rows < 2 ^ 32
      → execute_message.message_length m < 2 ^ 31
      → RoundTrips execute_message m (execute_body m) 0
  unfolding execute_message
  execute-RoundTrips m h rows fits =
      round_trips _ m _ (Writes-then _ _ (Writes-put_option_cstring m.name) (Writes-put_i32 _))
        (Reads-bind get_cstring _ m.name m (Reads-name m.name h)
          (Reads-last get_i32 _ m.max_rows (Reads-get_i32 _ rows)))
        (omega (
          arith,
          length-append (option_cstring m.name) (be32 m.max_rows),
          length-option_cstring m.name,
        ))
        fits

  pub bind-length : (m : Bind) → bind_message.message_length m ≡ 4 + length (bind_body m)
  unfolding bind_message
  bind-length m = omega (
    arith,
    length-append (option_cstring m.portal_name) (
        option_cstring m.statement_name
        ++ (vec_bytes be16 m.parameter_format_codes
            ++ (vec_bytes value_bytes m.parameters
                ++ vec_bytes be16 m.result_column_format_codes))),
    length-append (option_cstring m.statement_name) (
        vec_bytes be16 m.parameter_format_codes
        ++ (vec_bytes value_bytes m.parameters ++ vec_bytes be16 m.result_column_format_codes)),
    length-append (vec_bytes be16 m.parameter_format_codes)
        (vec_bytes value_bytes m.parameters ++ vec_bytes be16 m.result_column_format_codes),
    length-append (vec_bytes value_bytes m.parameters)
        (vec_bytes be16 m.result_column_format_codes),
    length-option_cstring m.portal_name,
    length-option_cstring m.statement_name,
    length-words16 m.parameter_format_codes,
    length-words16 m.result_column_format_codes,
    length-vec_bytes value_bytes m.parameters,
    sum_map-eq _ _ m.parameters length-parameter,
  )

  Reads-words16 :
      (xs : List ℕ)
      → length xs < 2 ^ 15
      → All (λ n. n < 2 ^ 16) xs
      → Reads (read_vec get_i16) (vec_bytes be16 xs) xs
  Reads-words16 xs few h = Reads-read_vec get_i16 be16 xs few (All-map xs Reads-get_i16 h)

  pub bind-RoundTrips :
      (m : Bind)
      → IsBind m
      → bind_message.message_length m < 2 ^ 31
      → RoundTrips bind_message m (bind_body m) 0
  unfolding bind_message
  bind-RoundTrips m h fits =
      round_trips _ m _
        (Writes-then _ _ (Writes-put_option_cstring m.portal_name) (
          Writes-then _ _ (Writes-put_option_cstring m.statement_name) (
            Writes-then _ _ (Writes-write_vec put_i16 be16 m.parameter_format_codes Writes-put_i16)
              (Writes-then _ _
                (Writes-write_vec put_value value_bytes m.parameters Writes-put_value)
                (Writes-write_vec put_i16 be16 m.result_column_format_codes Writes-put_i16)))))
        (Reads-bind get_cstring _ m.portal_name m (Reads-name m.portal_name h.portal) (
          Reads-bind get_cstring _ m.statement_name m (Reads-name m.statement_name h.statement) (
            Reads-bind (read_vec get_i16) _ m.parameter_format_codes m
              (Reads-words16 m.parameter_format_codes h.few_formats h.formats)
              (Reads-bind (read_vec get_value) _ m.parameters m
                (Reads-read_vec get_value value_bytes m.parameters h.few_parameters
                  (All-map m.parameters Reads-get_value h.parameters))
                (Reads-last (read_vec get_i16) _ m.result_column_format_codes
                  (Reads-words16 m.result_column_format_codes h.few_results h.results))))))
        (bind-length m) fits
