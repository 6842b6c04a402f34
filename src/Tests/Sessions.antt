-- ===== src/Tests/Sessions.antt =====
-- Start-ups and connections, on a client whose sink accepts everything.
use pgwire.Tests.Standins.{open_sink}
use pgwire.Base.{◌≡◌, refl, false, none, some, [], ◌∷◌, if◌then◌else◌, arith}
use pgwire.Errors.{user_error, new_error_info, ErrorInfo}
use pgwire.Buffers.{ok}
use pgwire.Buffers.Standard.{standard}
use pgwire.Text.Ascii.{is_ascii, is_ascii-IsCstring}
use pgwire.Messages.Startup.Passwords
use pgwire.Messages.Startup.Passwords.{raw, into_password, password_message}
use pgwire.Messages.Startup.Passwords.RoundTrip.{into_password-raw}
use pgwire.Messages.Startup.Params.{compare_bytes}
use pgwire.Messages.Startup.Request.{Startup}
use pgwire.Messages.Startup.Request.RoundTrip.{with_params}
use pgwire.Messages.Startup.Authentication.{md5_password}
use pgwire.Messages.Frontend.{startup, password_message_family}
use pgwire.Messages.Backend.{authentication}
use pgwire.Api.Step.{done, ◌>>◌}
use pgwire.Api.Client.{Client, awaiting_startup, authentication_in_progress, ready_for_query}
use pgwire.Api.Statements
use pgwire.Api.Query.Emits.{after, sent}
use pgwire.Api.Store.Laws.{same_name}
use pgwire.Api.Auth.{Runtime, ServerParameterProvider, Password}
use pgwire.Api.Auth.Finish.{finish_events, refusal_events}
use pgwire.Api.Auth.Cleartext
use pgwire.Api.Auth.Cleartext.{CleartextPasswordAuthStartupHandler}
use pgwire.Api.Auth.Cleartext.Guard.{Proof, on_startup-password}
use pgwire.Api.Auth.Md5
use pgwire.Api.Auth.Md5.{Md5PasswordAuthStartupHandler, Md5Session, make}
use pgwire.Api.Auth.Md5.Cached.{asked, password-startup}
use pgwire.Server.{Handlers, process_message, process_in, serve, serve_all}
use pgwire.Server.Guarded.{Proved}
use pgwire.Server.Guarded.Beside.{Session, with_startups}
use pgwire.Server.Guarded.Cleartext.{cleartext_startups, ready-cleartext}
use pgwire.Api.Client.{PgWireConnectionState}
use pgwire.Api.Step.{pure, ◌>>=◌}
use pgwire.Base.{inr}
use pgwire.Server.Errors.{with_md5, report_events, serve-empty_password}

abbrev pub runtime : Runtime
runtime = record { process_id = 1; random_i32 = 2 }

abbrev no_parameters : ServerParameterProvider
no_parameters = record { server_parameters = λ _. none }

abbrev pub new_comer : Client
new_comer = record {
  socket_addr = [];
  is_secure = false;
  state = awaiting_startup;
  metadata = [];
  events = [];
}

abbrev waiting : Client
waiting = record new_comer { state = authentication_in_progress }

-- The password `p`, with a salt.
abbrev pub stored : Password
stored = record { salt = some (1 ∷ 2 ∷ 3 ∷ 4 ∷ []); password = b'p' ∷ [] }

abbrev pub with_cleartext : CleartextPasswordAuthStartupHandler
with_cleartext = record {
  auth_source = record { get_password = λ _. Statements.ok stored };
  parameter_provider = no_parameters;
}

abbrev pub typed : Passwords.Password
typed = record { password = b'p' ∷ [] }

pub typed-read : into_password (raw (b'p' ∷ 0 ∷ [])) ≡ ok typed []
typed-read =
    into_password-raw typed (is_ascii-IsCstring (b'p' ∷ []) (unfold is_ascii in refl))
      (unfold password_message in omega arith)

on_startup-password_example :
    Cleartext.on_startup runtime with_cleartext
      (password_message_family (raw (b'p' ∷ 0 ∷ [])))
      waiting
    ≡ (if same_name stored.password typed.password
        then done tt
            (record (after waiting (finish_events runtime none)) { state = ready_for_query })
        else done tt (after waiting refusal_events))
on_startup-password_example =
    on_startup-password (λ _ _. refl) runtime with_cleartext (raw (b'p' ∷ 0 ∷ [])) waiting typed []
      stored typed-read refl

accepted :
    Cleartext.on_startup runtime with_cleartext
      (password_message_family (raw (b'p' ∷ 0 ∷ [])))
      waiting
    ≡ done tt (record (after waiting (finish_events runtime none)) { state = ready_for_query })
accepted =
    unfold compare_bytes in
    (on_startup-password (λ _ _. refl) runtime with_cleartext (raw (b'p' ∷ 0 ∷ [])) waiting typed []
      stored typed-read refl)

-- Query handlers that do nothing.
abbrev pub no_queries : {A : Type 0} → (A → PgWireConnectionState) → Handlers (Session A (Unit {0}))
no_queries state_of = record {
  state = λ w. state_of w.auth;
  on_startup = λ _ w. done tt w;
  on_query = λ _ w. done tt w;
  on_parse = λ _ w. done tt w;
  on_bind = λ _ w. done tt w;
  on_execute = λ _ w. done tt w;
  on_describe = λ _ w. done tt w;
  on_sync = λ _ w. done tt w;
  on_close = λ _ w. done tt w;
  on_client = λ _ w. done tt w;
}

abbrev ready_client : Client
ready_client = record (after waiting (finish_events runtime none)) { state = ready_for_query }

abbrev beside : Client → Session Client (Unit {0})
beside c = record { auth = c; queries = tt }

accepted_connection :
    serve_all
      (with_startups
        (cleartext_startups runtime with_cleartext)
        (no_queries (λ (c : Client). c.state)))
      (λ _. [])
      (password_message_family (raw (b'p' ∷ 0 ∷ [])) ∷ [])
      (beside waiting)
    ≡ done tt (beside ready_client)
unfolding serve_all serve process_message process_in pure ◌>>◌ ◌>>=◌
accepted_connection = rw (accepted, ◌>>=◌) refl

ready-cleartext_example :
    Proved
      (λ m (v : Session Client (Unit {0})). Proof runtime with_cleartext m v.auth)
      (password_message_family (raw (b'p' ∷ 0 ∷ [])) ∷ [])
ready-cleartext_example =
    ready-cleartext runtime with_cleartext (no_queries (λ (c : Client). c.state)) (λ _. [])
      (password_message_family (raw (b'p' ∷ 0 ∷ [])) ∷ []) (beside waiting) (beside ready_client)
      accepted_connection (inr refl) refl

abbrev pub with_salt : Md5PasswordAuthStartupHandler
with_salt = record {
  auth_source = record { get_password = λ _. Statements.ok stored };
  parameter_provider = no_parameters;
}

abbrev pub hello : Startup
hello = with_params []

password-startup_example :
    (do
      Md5.on_startup runtime with_salt (startup hello)
      Md5.on_startup runtime with_salt (password_message_family (raw (b'p' ∷ 0 ∷ []))))
      (make new_comer)
    ≡ (let challenged =
          after
            (asked new_comer hello)
            (sent (authentication (md5_password (1 ∷ 2 ∷ 3 ∷ 4 ∷ [])))) in
        if same_name typed.password (b'p' ∷ [])
        then done tt (record {
          client = record (after challenged (finish_events runtime none)) {
            state = ready_for_query;
          };
          cached_password = b'p' ∷ [];
        })
        else done tt
            (record { client = after challenged refusal_events; cached_password = b'p' ∷ [] }))
password-startup_example =
    password-startup (λ _ _. refl) runtime with_salt hello new_comer (1 ∷ 2 ∷ 3 ∷ 4 ∷ [])
      (b'p' ∷ []) (raw (b'p' ∷ 0 ∷ [])) typed [] refl typed-read

abbrev unknown_user : ErrorInfo
unknown_user = new_error_info [] [] []

abbrev with_nobody : Md5PasswordAuthStartupHandler
with_nobody = record {
  auth_source = record { get_password = λ _. Statements.err (user_error unknown_user) };
  parameter_provider = no_parameters;
}

-- Handlers that do nothing.
abbrev idle_handlers : Handlers Md5Session
idle_handlers = record {
  state = λ w. w.client.state;
  on_startup = λ _ w. done tt w;
  on_query = λ _ w. done tt w;
  on_parse = λ _ w. done tt w;
  on_bind = λ _ w. done tt w;
  on_execute = λ _ w. done tt w;
  on_describe = λ _ w. done tt w;
  on_sync = λ _ w. done tt w;
  on_close = λ _ w. done tt w;
  on_client = λ _ w. done tt w;
}

serve-empty_password_example :
    serve_all
      (with_md5 runtime with_nobody idle_handlers)
      (λ _. [])
      (startup hello ∷ password_message_family (raw (0 ∷ [])) ∷ [])
      (make new_comer)
    ≡ (let informed = after (asked new_comer hello) (report_events unknown_user) in
        done tt (record {
          client = record (after informed (finish_events runtime none)) { state = ready_for_query };
          cached_password = [];
        }))
serve-empty_password_example =
    serve-empty_password (λ _ _. refl) runtime with_nobody idle_handlers (λ _. []) hello new_comer
      unknown_user refl refl
