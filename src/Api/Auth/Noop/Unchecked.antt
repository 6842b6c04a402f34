-- ===== src/Api/Auth/Noop/Unchecked.antt =====
-- Without authentication a startup makes the client ready.
use pgwire.Base.{◌≡◌, ◌∙◌, refl, none, some, List, Bytes}
use pgwire.Messages.Startup.Params.{Params}
use pgwire.Messages.Startup.Request.{Startup}
use pgwire.Messages.Frontend.{startup}
use pgwire.Api.Step.{done, ◌>>◌, bind-done}
use pgwire.Api.Client.{Client, ready_for_query, Event, Sink}
use pgwire.Api.Query.Emits.{after}
use pgwire.Api.Auth.{Runtime, extend, finish_authentication, save_startup_parameters_to_metadata}
use pgwire.Api.Auth.Finish.{finish_events, finish_authentication-done}
use pgwire.Api.Auth.Noop.{default_parameters, default_provider, noop_on_startup}

module _ ⦃s : Sink⦄ (accepts : (es : List Event) (e : Event) → s.refuses es e ≡ none) (r : Runtime)
    (version : Bytes) (order : Params → Params) where
  -- The client whose parameters are saved.
  abbrev pub saved : Client → Startup → Client
  saved client m = record client { metadata = extend client.metadata m.parameters }

  -- Without authentication, a startup saves the parameters, sends AuthenticationOk, the default
  -- parameters, the key and ReadyForQuery, and makes the client ready; the sink accepts
  -- everything.
  pub noop_on_startup-startup :
      (m : Startup) (client : Client)
      → noop_on_startup r version order (startup m) client
        ≡ done tt
            (record (after
              (saved client m)
              (finish_events r (some (order (default_parameters version))))) {
                state = ready_for_query;
              })
  unfolding noop_on_startup save_startup_parameters_to_metadata default_provider ◌>>◌
  noop_on_startup-startup m client =
      bind-done (save_startup_parameters_to_metadata m)
        (λ _. finish_authentication r (default_provider version order)) client tt (saved client m)
        refl
      ∙ finish_authentication-done accepts r (default_provider version order) (saved client m)
