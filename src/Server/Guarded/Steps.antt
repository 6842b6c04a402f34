-- ===== src/Server/Guarded/Steps.antt =====
-- Steps of the startup handlers that do not make a client ready.
use pgwire.Base.{refl, inr}
use pgwire.Messages.Startup.Request.{Startup}
use pgwire.Api.Step.{Step, ◌>>◌}
use pgwire.Api.Client.{Client, PgWireConnectionState, authentication_in_progress, set_state}
use pgwire.Api.Auth.{save_startup_parameters_to_metadata}
use pgwire.Api.Preserved.{Preserves, OfClient}
use pgwire.Server.Guarded.{Unready}

abbrev pub state_of : Client → PgWireConnectionState
state_of c = c.state

-- The startup packet is saved, and the state set; then something that holds.
pub Preserves-waits :
    {A : Type 0} (m : Startup) (k : Step Client A)
    → Preserves (OfClient Unready) k
    → Preserves
        (OfClient Unready)
        (save_startup_parameters_to_metadata m >> (set_state authentication_in_progress >> k))
unfolding save_startup_parameters_to_metadata set_state ◌>>◌
Preserves-waits m k hk = record { at = λ c u. hk.at _ (inr refl) }
