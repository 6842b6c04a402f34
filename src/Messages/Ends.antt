-- ===== src/Messages/Ends.antt =====
-- The decoders return or panic on every buffer: no loop runs out of its fuel.
pub mod Total
use pgwire.Base.{
  ℕ, zero, suc, ◌+◌, ◌≤◌, ◌<◌, ◌≡◌, refl, ap, ◌∙◌, ◌≢◌, Bool, true, false, Option, none, some, List,
  [], ◌∷◌, ◌++◌, Bytes, length, leb, ltb, ◌==◌, if◌then◌else◌, arith,
}
use pgwire.Buffers.{
  BytesCrate, Reply, ok, panic, no_fuel, Action, ◌>>=◌, ◌>>◌, pure, raise, unreachable, reading,
  get_u8, get_u16, get_i16, get_u32, get_i32, split_to, advance, copy_to_slice,
}
use pgwire.Buffers.Ends.{
  Ends, Takes, Takes→Ends, Takes-get_u8, bind-ends, Ends-pure, Ends-raise, Ends-unreachable,
  Ends-if, Ends-reading, Ends-bind, Ends-then, ends_rules,
}
use pgwire.Messages.Codec.{
  Message, get_cstring, peek_i32, get_length, decode_if_complete, decode_packet, decode, or_empty,
  type_offset,
}
use pgwire.Messages.Codec.Strings.{Takes-get_cstring}
use pgwire.Messages.Vectors.{read_times, with_capacity, read_vec, get_value}
use pgwire.Messages.Units.{unit_message}
use pgwire.Messages.Response.{Field, decode_fields, decode_all_fields}
use pgwire.Messages.Data.{get_field_description}
use pgwire.Messages.Startup.Params.{Params, insert}
use pgwire.Messages.Startup.Request.{
  decode_params, decode_all_params, check_version, decode_startup, startup_message,
}
use pgwire.Messages.Startup.Authentication.{
  decode_methods, decode_all_methods, decode_authentication,
}
use pgwire.Messages.Startup.Passwords.{get_payload}

-- The helpers of the vectors.
Ends-read_times : {A : Type 0} (n : ℕ) (m : Action A) → Ends m → Ends (read_times n m)
unfolding read_times
Ends-read_times zero m h = Ends-pure []
Ends-read_times (suc n) m h =
    Ends-bind _ _ h (λ x. Ends-bind _ _ (Ends-read_times n m h) (λ xs. Ends-pure (x ∷ xs)))

Ends-with_capacity : (n : ℕ) → Ends (with_capacity n)
unfolding with_capacity
Ends-with_capacity n = search ends_rules

-- The two matches in the loops.
option-ends :
    {X A : Type 0} (o : Option X) (m : Action A) (f : X → Action A) (b : Bytes)
    → m b ≢ no_fuel
    → ((x : X) → f x b ≢ no_fuel)
    → (elim o as (λ _. Action A) [ none ↦ m | some x ↦ f x ]) b ≢ no_fuel
option-ends none m f b hm hf = hm
option-ends (some x) m f b hm hf = hf x

bool-ends :
    {A : Type 0} (t : Bool) (m k : Action A) (b : Bytes)
    → m b ≢ no_fuel
    → k b ≢ no_fuel
    → (elim t as (λ _. Action A) [ true ↦ m | false ↦ k ]) b ≢ no_fuel
bool-ends true m k b hm hk = hm
bool-ends false m k b hm hk = hk

module _ ⦃c : BytesCrate⦄ where
  pub Ends-get_cstring : Ends get_cstring
  Ends-get_cstring = Takes→Ends get_cstring Takes-get_cstring

  pub Ends-read_vec : {A : Type 0} (m : Action A) → Ends m → Ends (read_vec m)
  unfolding read_vec
  Ends-read_vec m h =
      Ends-bind _ _ (Ends-reading _)
        (λ n. Ends-then _ _ (Ends-with_capacity n) (Ends-read_times n m h))

  pub Ends-get_value : Ends get_value
  unfolding get_value
  Ends-get_value = search ends_rules

  pub Ends-get_payload : Ends get_payload
  unfolding get_payload
  Ends-get_payload = search ends_rules

  pub Ends-get_field_description : Ends get_field_description
  unfolding get_field_description
  Ends-get_field_description = search (ends_rules, Ends-get_cstring) depth 20

  -- The three loops on fuel: each round takes a byte.
  decode_params-ends :
      (fuel : ℕ) (m : Params) (b : Bytes) → length b < fuel → decode_params fuel m b ≢ no_fuel
  unfolding decode_params
  decode_params-ends zero m b h = absurd (omega arith)
  decode_params-ends (suc fuel) m b h =
      bind-ends get_cstring _ b (Takes-get_cstring.ends b) (λ key b1 e.
        option-ends key (pure m) _ b1 ((Ends-pure m).at b1) (λ k.
          bind-ends get_cstring _ b1 (Takes-get_cstring.ends b1) (λ value b2 e2.
            decode_params-ends fuel (insert k (or_empty value) m) b2 (
              omega (
                arith,
                Takes-get_cstring.less b key b1 e,
                Takes-get_cstring.less b1 value b2 e2,
              )))))

  decode_methods-ends :
      (fuel : ℕ) (m : List Bytes) (b : Bytes) → length b < fuel → decode_methods fuel m b ≢ no_fuel
  unfolding decode_methods
  decode_methods-ends zero m b h = absurd (omega arith)
  decode_methods-ends (suc fuel) m b h =
      bind-ends get_cstring _ b (Takes-get_cstring.ends b) (λ o b' e.
        option-ends o (pure m) _ b' ((Ends-pure m).at b') (λ x.
          decode_methods-ends fuel (m ++ x ∷ []) b'
            (omega (arith, Takes-get_cstring.less b o b' e))))

  decode_fields-ends :
      (fuel : ℕ) (fields : List Field) (b : Bytes)
      → length b < fuel
      → decode_fields fuel fields b ≢ no_fuel
  unfolding decode_fields
  decode_fields-ends zero fields b h = absurd (omega arith)
  decode_fields-ends (suc fuel) fields b h =
      bind-ends get_u8 _ b (Takes-get_u8.ends b) (λ code b1 e.
        bool-ends (code == 0) (pure fields) _ b1 ((Ends-pure fields).at b1) (
          bind-ends get_cstring _ b1 (Takes-get_cstring.ends b1) (λ value b2 e2.
            decode_fields-ends fuel (fields ++ (code, or_empty value) ∷ []) b2 (
              omega
                (arith, Takes-get_u8.less b code b1 e, Takes-get_cstring.less b1 value b2 e2)))))

  Ends-decode_all_params : Ends decode_all_params
  unfolding decode_all_params
  Ends-decode_all_params = record {
    at = λ b. decode_params-ends (suc (c.remaining b)) [] b (omega (arith, c.remaining_eq b));
  }

  Ends-decode_all_methods : Ends decode_all_methods
  unfolding decode_all_methods
  Ends-decode_all_methods = record {
    at = λ b. decode_methods-ends (suc (c.remaining b)) [] b (omega (arith, c.remaining_eq b));
  }

  pub Ends-decode_all_fields : Ends decode_all_fields
  unfolding decode_all_fields
  Ends-decode_all_fields = record {
    at = λ b. decode_fields-ends (suc (c.remaining b)) [] b (omega (arith, c.remaining_eq b));
  }

  pub Ends-decode_authentication : (n : ℕ) → Ends (decode_authentication n)
  unfolding decode_authentication
  Ends-decode_authentication n = search (ends_rules, Ends-decode_all_methods) depth 20

  pub Ends-decode_body_startup : (n : ℕ) → Ends (startup_message.decode_body n)
  unfolding startup_message
  Ends-decode_body_startup n = search (ends_rules, Ends-decode_all_params) depth 20
