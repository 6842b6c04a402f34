-- ===== src/Server/Guarded/ScramSteps.antt =====
-- Steps of the handler of SCRAM that do not make its client ready, and what their success says.
use pgwire.Base.{◌≡◌, refl, inl, inr, Bool-cases, Option, none, some, Bytes}
use pgwire.Buffers
use pgwire.Buffers.{BytesCrate, Reply}
use pgwire.Api.Step.{Outcome, done, failed, panicked, Step, pure, raise}
use pgwire.Api.Client.{Client, PgWireConnectionState}
use pgwire.Api.Statements.{PgWireResult, ok, err}
use pgwire.Api.Query.{lift}
use pgwire.Api.Store.Laws.{same_name, same_name-true}
use pgwire.Api.Auth.{coerced}
use pgwire.Api.Auth.Scram.{ClientFinal, validate_channel_binding}
use pgwire.Api.Auth.Scram.Handler.{
  ScramState, ScramSession, on_scram_client, set_scram_state, scram_salt,
}
use pgwire.Api.Preserved.{Preserves, OfClient, Ends}
use pgwire.Server.Guarded.{Unready}

abbrev pub scram_state_of : ScramSession → PgWireConnectionState
scram_state_of w = w.client.state

abbrev pub Waiting : ScramSession → Type 0
Waiting w = Unready w.client.state

on_outcome :
    {A : Type 0} (m : Step Client A) (w : ScramSession) (o : Outcome Client A)
    → m w.client ≡ o
    → Ends (OfClient Unready) o
    → Ends Waiting (on_scram_client m w)
unfolding on_scram_client
on_outcome m w (done a c) e h = rw (e, on_scram_client) h
on_outcome m w (failed x c) e h = rw (e, on_scram_client) h
on_outcome m w panicked e h = rw (e, on_scram_client) tt

pub Preserves-client :
    {A : Type 0} (m : Step Client A)
    → Preserves (OfClient Unready) m
    → Preserves Waiting (on_scram_client m)
Preserves-client m h = record { at = λ w u. on_outcome m w (m w.client) refl (h.at w.client u) }

pub Preserves-salt : (salt : Option Bytes) → Preserves Waiting (scram_salt salt)
unfolding scram_salt pure
Preserves-salt none = record { at = λ w u. tt }
Preserves-salt (some salt) = record { at = λ w u. u }

pub Preserves-set : (st : ScramState) → Preserves Waiting (set_scram_state st)
unfolding set_scram_state
Preserves-set st = record { at = λ w u. u }

-- A coercion, a lifted result and a test of the channel binding that succeed.
pub coerced-inv :
    {A : Type 0} (reply : Reply A) (w : ScramSession) (a : A) (w' : ScramSession)
    → on_scram_client (coerced reply) w ≡ done a w'
    → (left : Bytes) × (reply ≡ Buffers.ok a left)
unfolding on_scram_client coerced pure
coerced-inv (Buffers.ok x left) w a w' e = (left, cc e)
coerced-inv (Buffers.err x left) w a w' e = cc e
coerced-inv Buffers.panic w a w' e = cc e
coerced-inv Buffers.no_fuel w a w' e = cc e

pub lift-inv :
    {A : Type 0} (result : PgWireResult A) (w : ScramSession) (a : A) (w' : ScramSession)
    → lift result w ≡ done a w'
    → result ≡ ok a
unfolding lift pure raise
lift-inv (ok x) w a w' e = cc e
lift-inv (err x) w a w' e = cc e

pub bound-inv :
    (m : ClientFinal) (binding : Bytes)
    → validate_channel_binding m binding ≡ ok tt
    → m.channel_binding ≡ binding
unfolding validate_channel_binding
bound-inv m binding e = elim (Bool-cases (same_name m.channel_binding binding)) [
  | inl same ↦ same_name-true m.channel_binding binding same
  | inr other ↦ cc (rw (other, validate_channel_binding) at e)
]
