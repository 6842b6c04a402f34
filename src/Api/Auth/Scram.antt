-- ===== src/Api/Auth/Scram.antt =====
-- api/auth/scram.rs: the messages of SCRAM as text.
pub mod Parts
pub mod First
pub mod Final
pub mod Handler
pub mod Setup
pub mod Binding
pub mod Login
pub mod Proof
pub mod Verified
use pgwire.Base.{
  ℕ, zero, suc, ◌==◌, if◌then◌else◌, Bool, true, false, ◌||◌, Option, none, some, List, [], ◌∷◌,
  ◌++◌, Bytes,
}
use pgwire.Errors.{PgWireError, invalid_scram_message, usize_to_string}
use pgwire.Api.Statements.{PgWireResult, ok, err}
use pgwire.Api.Store.Laws.{same_name}

-- `str::strip_prefix`; `starts_with` is whether it gives something.
unfoldable pub strip_prefix : Bytes → Bytes → Option Bytes
strip_prefix [] s = some s
strip_prefix (p ∷ ps) [] = none
strip_prefix (p ∷ ps) (b ∷ s) = if p == b then strip_prefix ps s else none

-- What stands before the first comma, and what after it.
unfoldable pub break_comma : Bytes → Bytes × Option Bytes
break_comma [] = ([], none)
break_comma (b ∷ s) =
    let rest = break_comma s in if b == b',' then ([], some s) else (b ∷ rest.0, rest.1)

-- `splitn(n, ',')`
unfoldable pub splitn : ℕ → Bytes → List Bytes
splitn zero s = []
splitn (suc zero) s = s ∷ []
splitn (suc (suc n)) s =
    let first = (break_comma s).0 in
    elim (break_comma s).1 [ none ↦ first ∷ [] | some rest ↦ first ∷ splitn (suc n) rest ]

pub record ClientFirst : Type 0 where
  pub cbind_flag : Bytes
  pub auth_zid : Bytes
  pub username : Bytes
  pub nonce : Bytes

abbrev pub cbind_prefix : Bytes
cbind_prefix = b'p' ∷ b'=' ∷ []

abbrev pub username_prefix : Bytes
username_prefix = b'n' ∷ b'=' ∷ []

abbrev pub nonce_prefix : Bytes
nonce_prefix = b'r' ∷ b'=' ∷ []

abbrev pub binding_prefix : Bytes
binding_prefix = b'c' ∷ b'=' ∷ []

unfoldable pub is_some : {A : Type 0} → Option A → Bool
is_some none = false
is_some (some a) = true

unfoldable pub validate_cbind_flag : Bytes → Bool
validate_cbind_flag flag =
    same_name flag (b'n' ∷ [])
    || (same_name flag (b'y' ∷ []) || is_some (strip_prefix cbind_prefix flag))

-- The tests on the four parts, and the fields.
unfoldable pub client_first_fields :
    Bytes → Bytes → Bytes → Option Bytes → Option Bytes → PgWireResult ClientFirst
client_first_fields s flag zid (some username) (some nonce) =
    if validate_cbind_flag flag
    then ok (record { cbind_flag = flag; auth_zid = zid; username = username; nonce = nonce })
    else err (invalid_scram_message s)
client_first_fields s flag zid _ _ = err (invalid_scram_message s)

unfoldable pub client_first_parts : Bytes → List Bytes → PgWireResult ClientFirst
unfolding client_first_fields
client_first_parts s (flag ∷ zid ∷ user ∷ nonce ∷ []) =
    client_first_fields s flag zid (strip_prefix username_prefix user)
      (strip_prefix nonce_prefix nonce)
client_first_parts s _ = err (invalid_scram_message s)

-- `ClientFirst::try_new`
unfoldable pub parse_client_first : Bytes → PgWireResult ClientFirst
unfolding client_first_parts
parse_client_first s = client_first_parts s (splitn 4 s)

unfoldable pub bare : ClientFirst → Bytes
bare m = username_prefix ++ (m.username ++ b',' ∷ (nonce_prefix ++ m.nonce))

unfoldable pub channel_binding : ClientFirst → Bytes
channel_binding m = m.cbind_flag ++ b',' ∷ (m.auth_zid ++ b',' ∷ [])

pub record ServerFirst : Type 0 where
  pub nonce : Bytes
  pub salt : Bytes
  pub iteration : ℕ

-- `ServerFirst::message`
unfoldable pub server_first_message : ServerFirst → Bytes
server_first_message m =
    nonce_prefix
    ++ (m.nonce
        ++ b',' ∷ b's' ∷ b'=' ∷ (m.salt ++ b',' ∷ b'i' ∷ b'=' ∷ usize_to_string m.iteration))

pub record ClientFinal : Type 0 where
  pub channel_binding : Bytes
  pub nonce : Bytes
  pub proof : Bytes

unfoldable pub client_final_fields :
    Bytes → Option Bytes → Option Bytes → Option Bytes → PgWireResult ClientFinal
client_final_fields s (some binding) (some nonce) (some proof) =
    ok (record { channel_binding = binding; nonce = nonce; proof = proof })
client_final_fields s _ _ _ = err (invalid_scram_message s)

unfoldable pub client_final_parts : Bytes → List Bytes → PgWireResult ClientFinal
unfolding client_final_fields
client_final_parts s (binding ∷ nonce ∷ proof ∷ []) =
    client_final_fields s (strip_prefix binding_prefix binding) (strip_prefix nonce_prefix nonce)
      (strip_prefix cbind_prefix proof)
client_final_parts s _ = err (invalid_scram_message s)

-- `ClientFinal::try_new`
unfoldable pub parse_client_final : Bytes → PgWireResult ClientFinal
unfolding client_final_parts
parse_client_final s = client_final_parts s (splitn 3 s)

unfoldable pub without_proof : ClientFinal → Bytes
without_proof m = binding_prefix ++ (m.channel_binding ++ b',' ∷ (nonce_prefix ++ m.nonce))

-- "Channel binding mismatch"
abbrev pub binding_mismatch : Bytes
binding_mismatch =
    b'C' ∷ b'h' ∷ b'a' ∷ b'n' ∷ b'n' ∷ b'e' ∷ b'l' ∷ b' ' ∷ b'b' ∷ b'i' ∷ b'n' ∷ b'd' ∷ b'i' ∷ b'n'
    ∷ b'g' ∷ b' ' ∷ b'm' ∷ b'i' ∷ b's' ∷ b'm' ∷ b'a' ∷ b't' ∷ b'c' ∷ b'h' ∷ []

unfoldable pub validate_channel_binding : ClientFinal → Bytes → PgWireResult Unit
validate_channel_binding m encoded_channel_binding =
    if same_name m.channel_binding encoded_channel_binding
    then ok tt
    else err (invalid_scram_message binding_mismatch)
