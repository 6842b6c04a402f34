-- ===== src/Server/Guarded/Scram.antt =====
-- SCRAM over a whole connection.
use pgwire.Base.{◌≡◌, refl, inl, inr, Bool-cases, List, Bytes}
use pgwire.Errors.{PgWireError}
use pgwire.Buffers
use pgwire.Buffers.{BytesCrate, Reply}
use pgwire.Text.{from_utf8_lossy}
use pgwire.Messages.Startup.Passwords.{
  PasswordMessageFamily, SaslResponse, into_sasl_response, into_sasl_initial_response,
}
use pgwire.Messages.Startup.Request.{Startup}
use pgwire.Messages.Frontend.{
  PgWireFrontendMessage, startup, password_message_family, query, parse, close, bind, describe,
  execute, flush, sync, terminate,
}
use pgwire.Api.Step.{done, ◌>>◌, ◌>>=◌, pure}
use pgwire.Api.Client.{ready_for_query, Sink, set_state}
use pgwire.Api.Statements.{ok}
use pgwire.Api.Query.{lift}
use pgwire.Api.Store.Laws.{same_name, same_name-true}
use pgwire.Api.Auth.{
  Runtime, Password, from_client_info, coerced, save_startup_parameters_to_metadata,
}
use pgwire.Api.Auth.Scram.{ClientFinal, parse_client_final, validate_channel_binding}
use pgwire.Api.Auth.Scram.Handler.{
  ScramState, initial, server_first_sent, Cryptography, SaslScramAuthStartupHandler, ScramSession,
  on_scram_client, read_client_first, compute_channel_binding, computed_client_proof, auth_message,
  on_scram_startup, on_client_first, check_proof, on_client_final, on_sasl_message,
  on_scram_message,
}
use pgwire.Server.{Handlers, serve_all}
use pgwire.Api.Preserved.{
  Preserves, OfClient, Preserves-bind, Preserves-then, Preserves-lift, Preserves-coerced,
  Preserves-send,
}
use pgwire.Server.Guarded.{Unready, Leaves, Leaves-granted, Leaves-bind, Leaves-kept, Proved}
use pgwire.Server.Guarded.ScramSteps.{
  scram_state_of, Waiting, Preserves-client, Preserves-salt, Preserves-set, coerced-inv, lift-inv,
  bound-inv,
}
use pgwire.Server.Guarded.Beside.{Session, Startups, with_startups, ready-Proved}

module _ (k : Cryptography) ⦃c : BytesCrate⦄ ⦃s : Sink⦄ (r : Runtime) (nonce_bytes : Bytes)
    (h : SaslScramAuthStartupHandler) where
  -- A client's final message whose channel binding and proof are the computed ones, after the
  -- server's first message to it.
  pub record ScramProof (m : PgWireFrontendMessage) (w : ScramSession) : Type 0 where
    pub msg : PasswordMessageFamily
    pub pass : Password
    pub prefix : Bytes
    pub partial : Bytes
    pub resp : SaslResponse
    pub left : Bytes
    pub final : ClientFinal
    pub is_sasl : m ≡ password_message_family msg
    pub awaited : w.state ≡ server_first_sent pass prefix partial
    pub reads : into_sasl_response msg ≡ Buffers.ok resp left
    pub parses : parse_client_final (from_utf8_lossy resp.payload) ≡ ok final
    pub bound : final.channel_binding ≡ compute_channel_binding k h prefix
    pub proves : computed_client_proof k pass.password (auth_message k partial final) ≡ final.proof

  Preserves-get_password :
      Preserves Waiting
        (on_scram_client (λ client. lift (h.auth_db.get_password (from_client_info client)) client))
  Preserves-get_password = Preserves-client _ (record {
    at = λ d u.
        (Preserves-lift (OfClient Unready) (h.auth_db.get_password (from_client_info d))).at d u;
  })

  Preserves-first :
      (msg : PasswordMessageFamily) → Preserves Waiting (on_client_first k r nonce_bytes h msg)
  unfolding on_client_first
  Preserves-first msg = Preserves-bind Waiting _ _ Preserves-get_password (λ pass.
      Preserves-bind Waiting _ _
        (Preserves-client _ (Preserves-coerced Unready (into_sasl_initial_response msg)))
        (λ resp.
          Preserves-bind Waiting _ _ (Preserves-lift Waiting (read_client_first resp.payload))
            (λ client_first. Preserves-bind Waiting _ _ (Preserves-salt pass.salt) (λ salt.
              Preserves-then Waiting _ _ (Preserves-set _)
                (Preserves-client _ (Preserves-send Unready _))))))

  check-Leaves :
      (X : Type 0) (salted_password auth_msg proof : Bytes) (w : ScramSession)
      → (computed_client_proof k salted_password auth_msg ≡ proof → X)
      → Unready w.client.state
      → Leaves Waiting X (check_proof k r nonce_bytes h salted_password auth_msg proof w)
  unfolding check_proof
  check-Leaves X salted_password auth_msg proof w proves u =
      elim (Bool-cases (same_name (computed_client_proof k salted_password auth_msg) proof)) [
        | inl equal ↦ Leaves-granted Waiting (proves (same_name-true _ proof equal)) _
        | inr other ↦
            rw (other)
              (Leaves-kept Waiting _ _ ((Preserves-client _ (Preserves-send Unready _)).at w u))
      ]

  final-Leaves :
      (pass : Password) (prefix partial : Bytes) (msg : PasswordMessageFamily) (w : ScramSession)
      → w.state ≡ server_first_sent pass prefix partial
      → Unready w.client.state
      → Leaves Waiting
          (ScramProof (password_message_family msg) w)
          (on_client_final k r nonce_bytes h pass prefix partial msg w)
  unfolding on_client_final ◌>>◌
  final-Leaves pass prefix partial msg w awaits u =
      let X = ScramProof (password_message_family msg) w in
      let binding = compute_channel_binding k h prefix in
      Leaves-bind Waiting X (on_scram_client (coerced (into_sasl_response msg))) _ w
        (Leaves-kept Waiting _ _
          ((Preserves-client _ (Preserves-coerced Unready (into_sasl_response msg))).at w u))
        (λ resp w1 first u1.
          let text = from_utf8_lossy resp.payload in
          let (left, reads) = coerced-inv (into_sasl_response msg) w resp w1 first in
          Leaves-bind Waiting X (lift (parse_client_final text)) _ w1
            (Leaves-kept Waiting _ _ ((Preserves-lift Waiting (parse_client_final text)).at w1 u1))
            (λ final w2 second u2.
              Leaves-bind Waiting X (lift (validate_channel_binding final binding)) _ w2
                (Leaves-kept Waiting _ _
                  ((Preserves-lift Waiting (validate_channel_binding final binding)).at w2 u2))
                (λ _ w3 third u3.
                  check-Leaves X pass.password (auth_message k partial final) final.proof w3
                    (λ proves. record {
                      msg = msg;
                      pass = pass;
                      prefix = prefix;
                      partial = partial;
                      resp = resp;
                      left = left;
                      final = final;
                      is_sasl = refl;
                      awaited = awaits;
                      reads = reads;
                      parses = lift-inv (parse_client_final text) w1 final w2 second;
                      bound =
                          bound-inv final binding
                            (lift-inv (validate_channel_binding final binding) w2 tt w3 third);
                      proves = proves;
                    })
                    u3)))

  sasl-Leaves :
      (st : ScramState) (msg : PasswordMessageFamily) (w : ScramSession)
      → w.state ≡ st
      → Unready w.client.state
      → Leaves Waiting
          (ScramProof (password_message_family msg) w)
          (on_sasl_message k r nonce_bytes h st msg w)
  unfolding on_sasl_message
  sasl-Leaves initial msg w awaits u = Leaves-kept Waiting _ _ ((Preserves-first msg).at w u)
  sasl-Leaves (server_first_sent pass prefix partial) msg w awaits u =
      final-Leaves pass prefix partial msg w awaits u

  Preserves-startup : (m : Startup) → Preserves Waiting (on_scram_startup k r nonce_bytes h m)
  unfolding on_scram_startup on_scram_client save_startup_parameters_to_metadata set_state ◌>>◌
      ◌>>=◌
  Preserves-startup m = record {
    at = λ w u. (Preserves-client _ (Preserves-send Unready _)).at _ (inr refl);
  }

  on_scram_message-Leaves :
      (m : PgWireFrontendMessage) (w : ScramSession)
      → Unready w.client.state
      → Leaves Waiting (ScramProof m w) (on_scram_message k r nonce_bytes h m w)
  unfolding on_scram_message pure
  on_scram_message-Leaves (startup m) w u = Leaves-kept Waiting _ _ ((Preserves-startup m).at w u)
  on_scram_message-Leaves (password_message_family msg) w u = sasl-Leaves w.state msg w refl u
  on_scram_message-Leaves (query _) d u = inl u
  on_scram_message-Leaves (parse _) d u = inl u
  on_scram_message-Leaves (close _) d u = inl u
  on_scram_message-Leaves (bind _) d u = inl u
  on_scram_message-Leaves (describe _) d u = inl u
  on_scram_message-Leaves (execute _) d u = inl u
  on_scram_message-Leaves (flush _) d u = inl u
  on_scram_message-Leaves (sync _) d u = inl u
  on_scram_message-Leaves (terminate _) d u = inl u

  abbrev pub scram_startups : Startups ScramSession
  scram_startups = record {
    client_state = scram_state_of;
    on_startup = on_scram_message k r nonce_bytes h;
    on_client = on_scram_client;
  }

  pub ready-scram :
      {Q : Type 0} (others : Handlers (Session ScramSession Q)) (display : PgWireError → Bytes)
      (ms : List PgWireFrontendMessage) (w w' : Session ScramSession Q)
      → serve_all (with_startups scram_startups others) display ms w ≡ done tt w'
      → Unready w.auth.client.state
      → w'.auth.client.state ≡ ready_for_query
      → Proved (λ m (v : Session ScramSession Q). ScramProof m v.auth) ms
  ready-scram others display ms w w' runs u ready =
      ready-Proved scram_startups others display ScramProof Waiting (λ v u. u)
        on_scram_message-Leaves (λ m holds. Preserves-client m holds) ms w w' runs u ready
