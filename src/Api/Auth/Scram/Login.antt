-- ===== src/Api/Auth/Scram/Login.antt =====
-- A client that follows SCRAM is authenticated.
use pgwire.Base.{◌≡◌, refl, ap, ◌∙◌, none, some, List, ◌∷◌, ◌++◌, Bytes}
use pgwire.Buffers
use pgwire.Buffers.{BytesCrate}
use pgwire.Text.{from_utf8_lossy}
use pgwire.Messages.Startup.Authentication.{sasl, sasl_continue}
use pgwire.Messages.Startup.Passwords.{
  PasswordMessageFamily, SaslInitialResponse, SaslResponse, into_sasl_initial_response,
  into_sasl_response,
}
use pgwire.Messages.Startup.Request.{Startup}
use pgwire.Messages.Frontend.{startup, password_message_family}
use pgwire.Messages.Backend.{authentication}
use pgwire.Api.Step.{done, Step, ◌>>=◌, ◌>>◌, pure, bind-done}
use pgwire.Api.Client.{Client, Event, Sink, ready_for_query, set_state, send}
use pgwire.Api.Statements.{ok}
use pgwire.Api.Store.Laws.{same_name, same_name_refl}
use pgwire.Api.Query.{lift}
use pgwire.Api.Query.Emits.{after, sent, Emits-send}
use pgwire.Api.Auth.{
  Runtime, Password, from_client_info, coerced, save_startup_parameters_to_metadata,
}
use pgwire.Api.Auth.Md5.Cached.{asked}
use pgwire.Api.Auth.Scram.{
  ClientFirst, bare, channel_binding, server_first_message, ClientFinal, parse_client_final,
}
use pgwire.Api.Auth.Scram.Handler.{
  initial, server_first_sent, Cryptography, SaslScramAuthStartupHandler, ScramSession, make_scram,
  on_scram_client, set_scram_state, scram_salt, read_client_first, mechanisms,
  compute_channel_binding, computed_client_proof, random_nonce, auth_message, on_scram_startup,
  on_client_first, on_sasl_message, on_scram_message,
}
use pgwire.Api.Auth.Finish.{finish_events}
use pgwire.Api.Auth.Scram.Proof.{on_scram_client-done, answered, on_scram_message-final}

module _ (k : Cryptography) ⦃c : BytesCrate⦄ ⦃s : Sink⦄
    (accepts : (es : List Event) (e : Event) → s.refuses es e ≡ none) (r : Runtime)
    (nonce_bytes : Bytes) (h : SaslScramAuthStartupHandler) where
  -- The client that is offered the mechanisms.
  abbrev pub offered : Client → Startup → Client
  offered d m = after (asked d m) (sent (authentication (sasl (mechanisms h.server_cert_sig))))

  -- The server's first message to a client's.
  abbrev pub server_first : ClientFirst → Bytes → Bytes
  server_first first salt = server_first_message (record {
    nonce = first.nonce ++ random_nonce k nonce_bytes;
    salt = k.base64 salt;
    iteration = h.iterations;
  })

  -- The client that is told it, and what is known of the authentication message.
  abbrev pub continued : Client → Startup → ClientFirst → Bytes → Client
  continued d m first salt =
      after (offered d m) (sent (authentication (sasl_continue (server_first first salt))))

  abbrev pub partial : ClientFirst → Bytes → Bytes
  partial first salt = bare first ++ b',' ∷ server_first first salt

  started :
      (m : Startup) (d : Client)
      → on_scram_message k r nonce_bytes h (startup m) (make_scram d)
        ≡ done tt (record { client = offered d m; state = initial })
  unfolding on_scram_message on_scram_startup make_scram save_startup_parameters_to_metadata
      set_state on_scram_client ◌>>◌ ◌>>=◌
  started m d =
      rw
        (
          (Emits-send accepts (authentication (sasl (mechanisms h.server_cert_sig)))).at
              (asked d m),
          on_scram_client,
        )
        refl

  answered_first :
      (d : Client) (pass : Password) (salt : Bytes) (msg : PasswordMessageFamily)
      (resp : SaslInitialResponse) (left : Bytes) (first : ClientFirst)
      → h.auth_db.get_password (from_client_info d) ≡ ok pass
      → pass.salt ≡ some salt
      → into_sasl_initial_response msg ≡ Buffers.ok resp left
      → read_client_first resp.payload ≡ ok first
      → on_scram_message k r nonce_bytes h
          (password_message_family msg)
          (record { client = d; state = initial })
        ≡ done tt (record {
          client = after d (sent (authentication (sasl_continue (server_first first salt))));
          state = server_first_sent pass (channel_binding first) (partial first salt);
        })
  unfolding on_scram_message on_sasl_message on_client_first set_scram_state ◌>>◌
  answered_first d pass salt msg resp left first knows salted reads parses =
      let w : ScramSession = record { client = d; state = initial } in
      let st = server_first_sent pass (channel_binding first) (partial first salt) in
      let says : Step Client (Unit {0}) =
        send (authentication (sasl_continue (server_first first salt))) in
      bind-done
        (on_scram_client (λ client. lift (h.auth_db.get_password (from_client_info client)) client))
        _ w pass w
        (on_scram_client-done k accepts r nonce_bytes h _ w pass d
          (unfold lift pure in rw (knows, lift)))
      ∙ bind-done (on_scram_client (coerced (into_sasl_initial_response msg))) _ w resp w (
          on_scram_client-done k accepts r nonce_bytes h _ w resp d
            (unfold coerced pure in rw (reads, coerced)))
      ∙ bind-done (lift (read_client_first resp.payload)) _ w first w
          (unfold lift pure in rw (parses, lift))
      ∙ bind-done (scram_salt pass.salt) _ w salt w
          (unfold scram_salt pure in rw (salted, scram_salt))
      ∙ bind-done (set_scram_state st) (λ _. on_scram_client says) w tt (record w { state = st })
          refl
      ∙ on_scram_client-done k accepts r nonce_bytes h says (record w { state = st }) tt _
          ((Emits-send accepts (authentication (sasl_continue (server_first first salt)))).at d)

  -- A client that starts with SCRAM, whose first and final messages can be read and parsed, and
  -- whose final message has the channel binding and the proof that are computed from its first
  -- message, the server's answer to it and the password, is offered the mechanisms, answered by
  -- the server's first message, told the server's signature and made ready. The source gives a
  -- salted password for the client, and the sink accepts everything.
  pub scram-login :
      (m : Startup) (d : Client) (pass : Password) (salt : Bytes)
      (msg1 msg2 : PasswordMessageFamily) (resp1 : SaslInitialResponse) (resp2 : SaslResponse)
      (left1 left2 : Bytes) (first : ClientFirst) (final : ClientFinal)
      → h.auth_db.get_password (from_client_info (offered d m)) ≡ ok pass
      → pass.salt ≡ some salt
      → into_sasl_initial_response msg1 ≡ Buffers.ok resp1 left1
      → read_client_first resp1.payload ≡ ok first
      → into_sasl_response msg2 ≡ Buffers.ok resp2 left2
      → parse_client_final (from_utf8_lossy resp2.payload) ≡ ok final
      → final.channel_binding ≡ compute_channel_binding k h (channel_binding first)
      → final.proof
        ≡ computed_client_proof k pass.password (auth_message k (partial first salt) final)
      → (do
        on_scram_message k r nonce_bytes h (startup m)
        on_scram_message k r nonce_bytes h (password_message_family msg1)
        on_scram_message k r nonce_bytes h (password_message_family msg2))
          (make_scram d)
        ≡ (let told =
              answered k accepts r nonce_bytes h
                (continued d m first salt)
                pass.password
                (auth_message k (partial first salt) final) in
            done tt (record {
              client =
                  record (after told
                    (finish_events r (h.parameter_provider.server_parameters told))) {
                      state = ready_for_query;
                    };
              state = server_first_sent pass (channel_binding first) (partial first salt);
            }))
  unfolding ◌>>◌
  scram-login m d pass salt msg1 msg2 resp1 resp2 left1 left2 first final knows salted reads1
        parses1 reads2 parses2 bound proves =
      let st = server_first_sent pass (channel_binding first) (partial first salt) in
      let d1 = offered d m in
      let d2 = continued d m first salt in
      bind-done (on_scram_message k r nonce_bytes h (startup m)) _ (make_scram d) tt
        (record { client = d1; state = initial }) (started m d)
      ∙ bind-done (on_scram_message k r nonce_bytes h (password_message_family msg1))
          (λ _. on_scram_message k r nonce_bytes h (password_message_family msg2))
          (record { client = d1; state = initial }) tt (record { client = d2; state = st })
          (answered_first d1 pass salt msg1 resp1 left1 first knows salted reads1 parses1)
      ∙ on_scram_message-final k accepts r nonce_bytes h d2 pass (channel_binding first)
          (partial first salt) msg2 resp2 left2 final reads2 parses2
      ∙ rw
          (
            ap (λ t. same_name t (compute_channel_binding k h (channel_binding first))) bound
                ∙ same_name_refl (compute_channel_binding k h (channel_binding first)),
            ap
                  (λ t.
                    same_name
                      (computed_client_proof k pass.password
                        (auth_message k (partial first salt) final))
                      t)
                  proves
                ∙ same_name_refl (
                    computed_client_proof k pass.password
                      (auth_message k (partial first salt) final)),
          )
          refl
