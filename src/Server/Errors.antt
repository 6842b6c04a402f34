-- ===== src/Server/Errors.antt =====
-- What an error does to a connection.
use pgwire.Base.{◌≡◌, ap, ◌∙◌, none, List, [], ◌∷◌, Bytes}
use pgwire.Errors.{PgWireError, user_error, ErrorInfo}
use pgwire.Buffers.{BytesCrate}
use pgwire.Messages.Startup.Passwords.{raw}
use pgwire.Messages.Startup.Request.{Startup}
use pgwire.Messages.Frontend.{PgWireFrontendMessage, startup, password_message_family}
use pgwire.Messages.Backend.{error_response}
use pgwire.Messages.Backend.Reported.{from_error_info}
use pgwire.Api.Step.{done, failed, ◌>>◌, pure, bind-done}
use pgwire.Api.Client.{Client, awaiting_startup, ready_for_query, Event, fed, flushed, Sink}
use pgwire.Api.Statements.{err}
use pgwire.Api.Query.{idle}
use pgwire.Api.Query.Emits.{after, Emits, Emits-then, Emits-feed, Emits-flush}
use pgwire.Api.Auth.{Runtime, from_client_info}
use pgwire.Api.Auth.Finish.{finish_events}
use pgwire.Api.Auth.Md5.{Md5PasswordAuthStartupHandler, Md5Session, make, on_startup, on_client}
use pgwire.Api.Auth.Md5.Cached.{asked, empty-password, empty-accepted, on_client-done}
use pgwire.Server.{Handlers, process_message, process_in, report, process_error, serve, serve_all}

abbrev pub report_events : ErrorInfo → List Event
report_events info = fed (error_response (from_error_info info)) ∷ fed idle ∷ flushed ∷ []

-- The handlers of a server with MD5 passwords, whatever it does with queries.
abbrev pub with_md5 :
    ⦃c : BytesCrate⦄ ⦃s : Sink⦄
    → Runtime
    → Md5PasswordAuthStartupHandler
    → Handlers Md5Session
    → Handlers Md5Session
with_md5 r h others = record others {
  state = λ w. w.client.state;
  on_startup = on_startup r h;
  on_client = on_client;
}

module _ ⦃s : Sink⦄ {W : Type 0} (h : Handlers W) (display : PgWireError → Bytes)
    (m : PgWireFrontendMessage) (w : W) where
  serve-failed :
      (e : PgWireError) (w' : W)
      → process_message h m w ≡ failed e w'
      → serve h display m w ≡ h.on_client (process_error display e) w'
  unfolding serve
  serve-failed e w' gone = rw (gone, serve)

  pub serve-done : (w' : W) → process_message h m w ≡ done tt w' → serve h display m w ≡ done tt w'
  unfolding serve
  serve-done w' e = rw (e, serve)

unstarted :
    ⦃c : BytesCrate⦄ ⦃s : Sink⦄ (r : Runtime) (h : Md5PasswordAuthStartupHandler)
    (others : Handlers Md5Session) (m : Startup) (client : Client)
    → client.state ≡ awaiting_startup
    → process_message (with_md5 r h others) (startup m) (make client)
      ≡ on_startup r h (startup m) (make client)
unfolding process_message process_in make
unstarted r h others m client waits =
    ap (λ st. process_in (with_md5 r h others) st (startup m) (make client)) waits

module _ ⦃c : BytesCrate⦄ ⦃s : Sink⦄
    (accepts : (es : List Event) (e : Event) → s.refuses es e ≡ none) where
  Emits-report : (info : ErrorInfo) → Emits (report info) tt (report_events info)
  unfolding report
  Emits-report info =
      Emits-then _ _ tt tt (Emits-feed accepts _)
        (Emits-then _ _ tt tt (Emits-feed accepts idle) (Emits-flush accepts))

  -- A server with MD5 passwords whose source answers a client that awaits its startup with a
  -- UserError reports the error and ReadyForQuery and goes on, and an empty password then makes
  -- the client ready. The sink accepts everything.
  pub serve-empty_password :
      (r : Runtime) (h : Md5PasswordAuthStartupHandler) (others : Handlers Md5Session)
      (display : PgWireError → Bytes) (m : Startup) (client : Client) (info : ErrorInfo)
      → client.state ≡ awaiting_startup
      → h.auth_source.get_password (from_client_info (asked client m)) ≡ err (user_error info)
      → serve_all
          (with_md5 r h others)
          display
          (startup m ∷ password_message_family (raw (0 ∷ [])) ∷ [])
          (make client)
        ≡ (let informed = after (asked client m) (report_events info) in
            done tt (record {
              client =
                  record (after informed
                    (finish_events r (h.parameter_provider.server_parameters informed))) {
                      state = ready_for_query;
                    };
              cached_password = [];
            }))
  unfolding serve_all pure ◌>>◌
  serve-empty_password r h others display m client info waits unknown =
      let hs = with_md5 r h others in
      let w1 : Md5Session = record { client = asked client m; cached_password = [] } in
      let informed : Client = after (asked client m) (report_events info) in
      let w2 : Md5Session = record { client = informed; cached_password = [] } in
      let w3 : Md5Session = record {
        client =
            record (after informed
              (finish_events r (h.parameter_provider.server_parameters informed))) {
                state = ready_for_query;
              };
        cached_password = [];
      } in
      let password = password_message_family (raw (0 ∷ [])) in
      bind-done (serve hs display (startup m)) _ (make client) tt w2 (
        serve-failed hs display (startup m) (make client) (user_error info) w1 (
          unstarted r h others m client waits
          ∙ (empty-password accepts r h m client (user_error info) unknown).0)
        ∙ unfold process_error in
          on_client-done accepts r h (report info) w1 tt informed
            ((Emits-report info).at (asked client m)))
      ∙ bind-done (serve hs display password) _ w2 tt w3 (
          serve-done hs display password w2 w3
            (unfold process_message process_in in empty-accepted accepts r h informed))
