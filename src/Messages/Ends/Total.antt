-- ===== src/Messages/Ends/Total.antt =====
-- `decode` of the frontend, the backend and the startup messages ends on every buffer.
use pgwire.Base.{
  ℕ, ◌+◌, ◌≢◌, Bool, true, false, Option, none, some, [], ◌∷◌, Bytes, take, drop, leb, ltb,
  if◌then◌else◌, i32_as_usize,
}
use pgwire.Buffers.{BytesCrate, Reply, ok, panic, no_fuel, Action}
use pgwire.Buffers.Ends.{
  Ends, Ends-pure, Ends-raise, Ends-if, Ends-reading, Ends-bind, Ends-then, ends_rules,
}
use pgwire.Messages.Codec.{
  Message, peek_i32, get_length, decode_if_complete, decode_packet, decode, type_offset, usize_add,
}
use pgwire.Messages.Ends.{
  Ends-get_cstring, Ends-read_vec, Ends-get_value, Ends-get_field_description,
  Ends-decode_all_fields, Ends-decode_authentication, Ends-decode_body_startup,
}
use pgwire.Messages.Dispatch.{decode_as, decode_by_first_byte}
use pgwire.Messages.Units
use pgwire.Messages.Units.{unit_message}
use pgwire.Messages.Response
use pgwire.Messages.Data
use pgwire.Messages.ExtendedQuery
use pgwire.Messages.Startup.Request.{check_version, decode_startup}
use pgwire.Messages.Startup.Authentication.{authentication_message}
use pgwire.Messages.Startup.Passwords.{family_message}
use pgwire.Messages.Startup.Status.{parameter_status_message, backend_key_data_message}
use pgwire.Messages.Frontend
use pgwire.Messages.Backend

if-ends :
    {A : Type 0} (t : Bool) (x y : Reply A)
    → x ≢ no_fuel
    → y ≢ no_fuel
    → (if t then x else y) ≢ no_fuel
if-ends true x y hx hy = hx
if-ends false x y hx hy = hy

ok-ends : {A : Type 0} (a : A) (b : Bytes) → ok a b ≢ no_fuel
ok-ends a b e = cc

module _ ⦃c : BytesCrate⦄ where
  word-ends :
      (b : Bytes) (o : Option (ℕ × Bytes))
      → (elim o as (λ _. Reply ℕ) [ none ↦ panic | some (n, _) ↦ ok n b ]) ≢ no_fuel
  word-ends b none e = cc
  word-ends b (some r) e = cc

  Ends-peek_i32 : (offset : ℕ) → Ends (peek_i32 offset)
  unfolding peek_i32
  Ends-peek_i32 offset = record { at = λ b. word-ends b (c.get_i32 (take 4 (drop offset b))) }

  Ends-get_length : (offset : ℕ) → Ends (get_length offset)
  unfolding get_length
  Ends-get_length offset = record {
    at = λ b.
        if-ends (leb (4 + offset) (c.remaining b)) _ _
          ((Ends-bind _ _ (Ends-peek_i32 offset) (λ n. Ends-pure (some (i32_as_usize n)))).at b)
          (ok-ends none b);
  }

  module _ {A : Type 0} where
    Ends-decode_if_complete :
        (offset : ℕ) (f : ℕ → Action A) (n : ℕ) → Ends (f n) → Ends (decode_if_complete offset f n)
    unfolding decode_if_complete
    Ends-decode_if_complete offset f n h = record {
      at = λ b.
          if-ends (leb (usize_add n offset) (c.remaining b)) _ _
            ((Ends-then _ _ (Ends-reading _) (Ends-bind _ _ h (λ r. Ends-pure (some r)))).at b)
            (ok-ends none b);
    }

    Ends-decode_packet :
        (offset : ℕ) (f : ℕ → Action A) → ((n : ℕ) → Ends (f n)) → Ends (decode_packet offset f)
    unfolding decode_packet
    Ends-decode_packet offset f h =
        Ends-bind _ _ (Ends-get_length offset)
          (elim [ none ↦ Ends-pure none | some n ↦ Ends-decode_if_complete offset f n (h n) ])

    Ends-decode : (m : Message A) → ((n : ℕ) → Ends (m.decode_body n)) → Ends (decode m)
    unfolding decode
    Ends-decode m h = Ends-decode_packet (type_offset m.message_type) m.decode_body h

  Ends-decode_as :
      {A B : Type 0} (m : Message A) (wrap : A → B)
      → ((n : ℕ) → Ends (m.decode_body n))
      → Ends (decode_as m wrap)
  unfolding decode_as
  Ends-decode_as m wrap h = Ends-bind _ _ (Ends-decode m h) (λ v. Ends-pure _)

  first-Ends :
      {B : Type 0} (select : ℕ → Action (Option B))
      → ((t : ℕ) → Ends (select t))
      → (b : Bytes)
      → (elim b as (λ _. Reply (Option B)) [
        | [] ↦ panic
        | first ∷ rest ↦ select first (first ∷ rest)
      ])
        ≢ no_fuel
  first-Ends select h [] e = cc
  first-Ends select h (x ∷ b) e = (h x).at (x ∷ b) e

  Ends-by_first_byte :
      {B : Type 0} (select : ℕ → Action (Option B))
      → ((t : ℕ) → Ends (select t))
      → Ends (decode_by_first_byte select)
  unfolding decode_by_first_byte
  Ends-by_first_byte select h = record {
    at = λ b. if-ends (ltb 1 (c.remaining b)) _ _ (first-Ends select h b) (ok-ends none b);
  }

  Ends-frontend : (t : ℕ) → Ends (Frontend.decode_selected t)
  unfolding Frontend.decode_selected family_message Response.query_message
      ExtendedQuery.parse_message ExtendedQuery.bind_message ExtendedQuery.close_message
      ExtendedQuery.describe_message ExtendedQuery.execute_message Units.sync_message
      Units.terminate_message
  Ends-frontend t =
      search (ends_rules, Ends-decode_as, Ends-get_cstring, Ends-read_vec, Ends-get_value) depth 30

  Ends-backend : (t : ℕ) → Ends (Backend.decode_selected t)
  unfolding Backend.decode_selected authentication_message parameter_status_message
      backend_key_data_message Units.parse_complete_message Units.close_complete_message
      Units.bind_complete_message Units.portal_suspended_message Units.empty_query_response_message
      Response.command_complete_message Response.ready_for_query_message
      Response.error_response_message Response.notice_response_message
      Data.parameter_description_message Data.row_description_message Data.data_row_message
  Ends-backend t =
      search
        (
          ends_rules, Ends-decode_as, Ends-get_cstring, Ends-read_vec, Ends-get_value,
          Ends-get_field_description, Ends-decode_all_fields, Ends-decode_authentication,
        )
        depth 40

  Ends-check_version : Ends check_version
  unfolding check_version
  Ends-check_version = record {
    at = λ b.
        if-ends (leb 8 (c.remaining b)) _ _
          ((Ends-bind _ _ (Ends-peek_i32 4) (λ v. Ends-if _ _ _ (Ends-pure tt) (Ends-raise _))).at
            b)
          ((Ends-pure tt).at b);
  }

  Ends-decode_startup : Ends decode_startup
  unfolding decode_startup
  Ends-decode_startup =
      Ends-then _ _ Ends-check_version (Ends-decode_packet 0 _ Ends-decode_body_startup)

  -- On every buffer the frontend, the backend and the startup decoder end, with a message, with
  -- None, with an error or with a panic: the fuel of the loops that read until an empty string or
  -- a zero code is always enough.
  pub decode-ends :
      (b : Bytes)
      → (Frontend.decode b ≢ no_fuel) × (Backend.decode b ≢ no_fuel) × (decode_startup b ≢ no_fuel)
  unfolding Frontend.decode Backend.decode
  decode-ends b = (
    (Ends-by_first_byte Frontend.decode_selected Ends-frontend).at b,
    (Ends-by_first_byte Backend.decode_selected Ends-backend).at b,
    Ends-decode_startup.at b,
  )
