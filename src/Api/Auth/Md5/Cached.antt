-- ===== src/Api/Auth/Md5/Cached.antt =====
-- The password that the handler caches decides, and what it is before one is cached.
use pgwire.Base.{
  ◌≡◌, refl, ◌∙◌, inl, inr, Bool-cases, none, some, List, [], ◌∷◌, Bytes, if◌then◌else◌, arith,
}
use pgwire.Errors.{PgWireError}
use pgwire.Buffers
use pgwire.Buffers.{BytesCrate}
use pgwire.Text.Lossy.{IsCstring-nil}
use pgwire.Messages.Startup.Authentication.{md5_password}
use pgwire.Messages.Startup.Passwords
use pgwire.Messages.Startup.Passwords.{PasswordMessageFamily, raw, into_password, password_message}
use pgwire.Messages.Startup.Passwords.RoundTrip.{into_password-raw}
use pgwire.Messages.Startup.Request.{Startup}
use pgwire.Messages.Frontend.{startup, password_message_family}
use pgwire.Messages.Backend.{authentication}
use pgwire.Api.Step.{done, failed, Step, ◌>>◌, pure, raise, bind-done, bind-failed}
use pgwire.Api.Client.{
  Client, authentication_in_progress, ready_for_query, Event, Sink, set_state, send,
}
use pgwire.Api.Statements.{ok, err}
use pgwire.Api.Query.{lift}
use pgwire.Api.Query.Emits.{after, sent, Emits-send}
use pgwire.Api.Store.Laws.{same_name, same_name_refl}
use pgwire.Api.Auth.{
  Runtime, from_client_info, coerced, extend, finish_authentication, refuse_password,
  save_startup_parameters_to_metadata,
}
use pgwire.Api.Auth.Finish.{
  finish_events, refusal_events, finish_authentication-done, Emits-refuse_password,
}
use pgwire.Api.Auth.Md5.{
  Md5PasswordAuthStartupHandler, Md5Session, make, on_client, set_cached_password, expect_salt,
  on_startup_message, check_password, on_password, on_startup,
}

-- The client while the password is awaited.
abbrev pub asked : Client → Startup → Client
asked client m = record client {
  metadata = extend client.metadata m.parameters;
  state = authentication_in_progress;
}

module _ ⦃c : BytesCrate⦄ ⦃s : Sink⦄
    (accepts : (es : List Event) (e : Event) → s.refuses es e ≡ none) (r : Runtime)
    (h : Md5PasswordAuthStartupHandler) where
  pub on_client-done :
      {A : Type 0} (m : Step Client A) (w : Md5Session) (a : A) (d : Client)
      → m w.client ≡ done a d
      → on_client m w ≡ done a (record w { client = d })
  unfolding on_client
  on_client-done m w a d e = rw (e, on_client)

  -- The parameters are saved and the state is set.
  waiting :
      {B : Type 0} (m : Startup) (w : Md5Session) (k : Step Md5Session B)
      → (on_client (save_startup_parameters_to_metadata m)
            >> (on_client (set_state authentication_in_progress) >> k))
          w
        ≡ k (record w { client = asked w.client m })
  unfolding save_startup_parameters_to_metadata set_state ◌>>◌
  waiting m w k =
      let w0 : Md5Session = record w {
        client = record w.client { metadata = extend w.client.metadata m.parameters };
      } in
      bind-done (on_client (save_startup_parameters_to_metadata m)) _ w tt w0
        (on_client-done (save_startup_parameters_to_metadata m) w tt _ refl)
      ∙ bind-done (on_client (set_state authentication_in_progress)) _ w0 tt
          (record w { client = asked w.client m })
          (on_client-done (set_state authentication_in_progress) w0 tt _ refl)

  -- The startup is answered by a request for the salted password, which is then cached.
  pub started :
      (m : Startup) (w : Md5Session) (salt password : Bytes)
      → h.auth_source.get_password (from_client_info (asked w.client m))
        ≡ ok (record { salt = some salt; password = password })
      → on_startup r h (startup m) w
        ≡ done tt (record {
          client = after (asked w.client m) (sent (authentication (md5_password salt)));
          cached_password = password;
        })
  unfolding on_startup on_startup_message expect_salt set_cached_password pure lift ◌>>◌
  started m w salt password e =
      let w1 : Md5Session = record w { client = asked w.client m } in
      let w2 : Md5Session = record w1 { cached_password = password } in
      waiting m w _
      ∙ bind-done (on_client (λ d. lift (h.auth_source.get_password (from_client_info d)) d)) _ w1
          (record { salt = some salt; password = password }) w1
          (on_client-done _ w1 _ (asked w.client m) (rw (e, lift)))
      ∙ on_client-done (send (authentication (md5_password salt))) w2 tt _
          ((Emits-send accepts (authentication (md5_password salt))).at w2.client)

  pub checked :
      (msg : PasswordMessageFamily) (w : Md5Session) (pwd : Passwords.Password) (left : Bytes)
      → into_password msg ≡ Buffers.ok pwd left
      → on_startup r h (password_message_family msg) w ≡ (
          if same_name pwd.password w.cached_password
          then done tt (record w {
            client =
                record (after w.client
                  (finish_events r (h.parameter_provider.server_parameters w.client))) {
                    state = ready_for_query;
                  };
          })
          else done tt (record w { client = after w.client refusal_events }))
  unfolding on_startup on_password check_password
  checked msg w pwd left reads =
      bind-done (on_client (coerced (into_password msg))) _ w pwd w (
        on_client-done (coerced (into_password msg)) w pwd w.client
          (unfold coerced pure in rw (reads, coerced)))
      ∙ elim (Bool-cases (same_name pwd.password w.cached_password)) [
        | inl same ↦ rw (same) (
            on_client-done (finish_authentication r h.parameter_provider) w tt _
              (finish_authentication-done accepts r h.parameter_provider w.client))
        | inr other ↦
            rw (other)
              (on_client-done refuse_password w tt _ ((Emits-refuse_password accepts).at w.client))
      ]

  -- With MD5 passwords, after a startup for which the source gives a salted password, a readable
  -- password makes the client ready if it is the salted one, and is refused if not; the sink
  -- accepts everything.
  pub password-startup :
      (m : Startup) (client : Client) (salt password : Bytes) (msg : PasswordMessageFamily)
      (pwd : Passwords.Password) (left : Bytes)
      → h.auth_source.get_password (from_client_info (asked client m))
        ≡ ok (record { salt = some salt; password = password })
      → into_password msg ≡ Buffers.ok pwd left
      → (do on_startup r h (startup m); on_startup r h (password_message_family msg)) (make client)
        ≡ (let challenged = after (asked client m) (sent (authentication (md5_password salt))) in
            if same_name pwd.password password
            then done tt (record {
              client =
                  record (after challenged
                    (finish_events r (h.parameter_provider.server_parameters challenged))) {
                      state = ready_for_query;
                    };
              cached_password = password;
            })
            else done tt
                (record { client = after challenged refusal_events; cached_password = password }))
  unfolding make ◌>>◌
  password-startup m client salt password msg pwd left knows reads =
      let w1 : Md5Session = record {
        client = after (asked client m) (sent (authentication (md5_password salt)));
        cached_password = password;
      } in
      bind-done (on_startup r h (startup m)) _ (make client) tt w1
        (started m (make client) salt password knows)
      ∙ checked msg w1 pwd left reads

  refused :
      (m : Startup) (w : Md5Session) (e : PgWireError)
      → h.auth_source.get_password (from_client_info (asked w.client m)) ≡ err e
      → on_startup r h (startup m) w ≡ failed e (record w { client = asked w.client m })
  unfolding on_startup on_startup_message lift raise ◌>>◌
  refused m w e gone =
      let w1 : Md5Session = record w { client = asked w.client m } in
      waiting m w _
      ∙ bind-failed (on_client (λ d. lift (h.auth_source.get_password (from_client_info d)) d)) _ w1
          e w1 (unfold on_client in rw (gone, lift, on_client))

  -- While no password is cached, an empty one makes the client ready.
  pub empty-accepted :
      (d : Client)
      → on_startup r h
          (password_message_family (raw (0 ∷ [])))
          (record { client = d; cached_password = [] })
        ≡ done tt (record {
          client = record (after d (finish_events r (h.parameter_provider.server_parameters d))) {
            state = ready_for_query;
          };
          cached_password = [];
        })
  empty-accepted d =
      checked (raw (0 ∷ [])) (record { client = d; cached_password = [] })
        (record { password = [] }) []
        (into_password-raw (record { password = [] }) IsCstring-nil
          (unfold password_message in omega arith))
      ∙ rw (same_name_refl [])

  -- With MD5 passwords, a failure of the source is passed on, but the client is left waiting for a
  -- password with an empty one cached, and an empty password makes it ready; the sink accepts
  -- everything.
  pub empty-password :
      (m : Startup) (client : Client) (e : PgWireError)
      → h.auth_source.get_password (from_client_info (asked client m)) ≡ err e
      → (on_startup r h (startup m) (make client)
          ≡ failed e (record { client = asked client m; cached_password = [] }))
        × (on_startup r h
              (password_message_family (raw (0 ∷ [])))
              (record { client = asked client m; cached_password = [] })
            ≡ done tt (record {
              client =
                  record (after
                    (asked client m)
                    (finish_events r (h.parameter_provider.server_parameters (asked client m)))) {
                      state = ready_for_query;
                    };
              cached_password = [];
            }))
  unfolding make
  empty-password m client e gone = (refused m (make client) e gone, empty-accepted (asked client m))
