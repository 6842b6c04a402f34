-- ===== src/Tests/Md5.antt =====
-- A whole connection with an MD5 password.
use pgwire.Base.{◌≡◌, refl, inl, none, [], ◌∷◌}
use pgwire.Buffers.Standard.{standard}
use pgwire.Messages.Startup.Authentication.{md5_password}
use pgwire.Messages.Startup.Params.{compare_bytes}
use pgwire.Messages.Startup.Passwords.{raw}
use pgwire.Messages.Frontend.{startup, password_message_family}
use pgwire.Messages.Backend.{authentication}
use pgwire.Api.Step.{done, pure, ◌>>=◌, ◌>>◌}
use pgwire.Api.Client.{ready_for_query}
use pgwire.Api.Query.Emits.{after, sent}
use pgwire.Api.Auth.Finish.{finish_events}
use pgwire.Api.Auth.Md5.{Md5Session, on_startup}
use pgwire.Api.Auth.Md5.Cached.{asked, started, checked}
use pgwire.Server.{process_message, process_in, serve, serve_all}
use pgwire.Server.Guarded.{Proved}
use pgwire.Server.Guarded.Beside.{Session, with_startups}
use pgwire.Server.Guarded.Md5.{Md5Proof, md5_startups, ready-md5}
use pgwire.Tests.Standins.{open_sink}
use pgwire.Tests.Sessions.{runtime, new_comer, typed, typed-read, with_salt, hello, no_queries}

abbrev fresh : Md5Session
fresh = record { client = new_comer; cached_password = [] }

abbrev challenged : Md5Session
challenged = record {
  client =
      after (asked new_comer hello) (sent (authentication (md5_password (1 ∷ 2 ∷ 3 ∷ 4 ∷ []))));
  cached_password = b'p' ∷ [];
}

abbrev welcome : Md5Session
welcome = record challenged {
  client = record (after challenged.client (finish_events runtime none)) {
    state = ready_for_query;
  };
}

first : on_startup runtime with_salt (startup hello) fresh ≡ done tt challenged
first = started (λ _ _. refl) runtime with_salt hello fresh (1 ∷ 2 ∷ 3 ∷ 4 ∷ []) (b'p' ∷ []) refl

second :
    on_startup runtime with_salt (password_message_family (raw (b'p' ∷ 0 ∷ []))) challenged
    ≡ done tt welcome
second =
    unfold compare_bytes in
    (checked (λ _ _. refl) runtime with_salt (raw (b'p' ∷ 0 ∷ [])) challenged typed [] typed-read)

abbrev beside : Md5Session → Session Md5Session (Unit {0})
beside w = record { auth = w; queries = tt }

runs :
    serve_all
      (with_startups
        (md5_startups runtime with_salt)
        (no_queries (λ (w : Md5Session). w.client.state)))
      (λ _. [])
      (startup hello ∷ password_message_family (raw (b'p' ∷ 0 ∷ [])) ∷ [])
      (beside fresh)
    ≡ done tt (beside welcome)
unfolding serve_all serve process_message process_in pure ◌>>◌ ◌>>=◌
runs = rw (first, ◌>>=◌) (rw (second, ◌>>=◌) refl)

ready-md5_example :
    Proved
      (λ m (v : Session Md5Session (Unit {0})). Md5Proof runtime with_salt m v.auth)
      (startup hello ∷ password_message_family (raw (b'p' ∷ 0 ∷ [])) ∷ [])
ready-md5_example =
    ready-md5 runtime with_salt (no_queries (λ (w : Md5Session). w.client.state)) (λ _. [])
      (startup hello ∷ password_message_family (raw (b'p' ∷ 0 ∷ [])) ∷ []) (beside fresh)
      (beside welcome) runs (inl refl) refl refl
