-- ===== src/Messages/Units.antt =====
-- The messages without a body, of messages/terminate.rs, messages/response.rs and
-- messages/extendedquery.rs. Their implementations of `Message` differ in the type byte alone.
pub mod RoundTrip
use pgwire.Base.{ℕ, some}
use pgwire.Buffers.{pure}
use pgwire.Messages.Codec.{Message}

unfoldable pub unit_message : {A : Type 0} → ℕ → A → Message A
unit_message t a = record {
  message_type = some t;
  message_length = λ _. 4;
  encode_body = λ _. pure tt;
  decode_body = λ _. pure a;
}

pub record Terminate : Type 0 where

unfoldable pub terminate_message : Message Terminate
unfolding unit_message
terminate_message = unit_message b'X' (record {})

pub record EmptyQueryResponse : Type 0 where

unfoldable pub empty_query_response_message : Message EmptyQueryResponse
unfolding unit_message
empty_query_response_message = unit_message b'I' (record {})

pub record ParseComplete : Type 0 where

unfoldable pub parse_complete_message : Message ParseComplete
unfolding unit_message
parse_complete_message = unit_message b'1' (record {})

pub record CloseComplete : Type 0 where

unfoldable pub close_complete_message : Message CloseComplete
unfolding unit_message
close_complete_message = unit_message b'3' (record {})

pub record BindComplete : Type 0 where

unfoldable pub bind_complete_message : Message BindComplete
unfolding unit_message
bind_complete_message = unit_message b'2' (record {})

pub record Flush : Type 0 where

unfoldable pub flush_message : Message Flush
unfolding unit_message
flush_message = unit_message b'H' (record {})

pub record Sync : Type 0 where

unfoldable pub sync_message : Message Sync
unfolding unit_message
sync_message = unit_message b'S' (record {})

pub record PortalSuspended : Type 0 where

unfoldable pub portal_suspended_message : Message PortalSuspended
unfolding unit_message
portal_suspended_message = unit_message b's' (record {})
