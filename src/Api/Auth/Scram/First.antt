-- ===== src/Api/Auth/Scram/First.antt =====
-- api/auth/scram.rs: ClientFirst::try_new and what it reads.
use pgwire.Base.{
  subst, ◌↔◌, ◌≡◌, refl, ap, ◌∙◌, true, inl, inr, Bool-cases, Option, none, some, List, [], ◌∷◌,
  ◌++◌, append_assoc, Bytes, ◌⊎◌, Option-cases,
}
use pgwire.Api.Statements.{ok}
use pgwire.Messages.Startup.Params.{compare_bytes}
use pgwire.Api.Store.Laws.{same_name, same_name-true}
use pgwire.Api.Auth.Scram.{
  is_some, strip_prefix, splitn, ClientFirst, username_prefix, nonce_prefix, validate_cbind_flag,
  client_first_fields, client_first_parts, parse_client_first, bare, channel_binding,
}
use pgwire.Api.Auth.Scram.Parts.{
  strip_prefix-some, join, join-splitn, comma_free, Inner, splitn-Inner, splitn-append,
}

first-fields :
    (s flag zid : Bytes) (o p : Option Bytes) (m : ClientFirst)
    → client_first_fields s flag zid o p ≡ ok m
    → (o ≡ some m.username)
      × (p ≡ some m.nonce)
      × (flag ≡ m.cbind_flag)
      × (zid ≡ m.auth_zid)
      × (validate_cbind_flag flag ≡ true)
unfolding client_first_fields
first-fields s flag zid (some u) (some n) m h = elim (Bool-cases (validate_cbind_flag flag)) [
  | inl valid ↦
      let whole : record { cbind_flag = flag; auth_zid = zid; username = u; nonce = n } ≡ m =
        cc (rw (valid) at h) in
      (
        ap (λ x. some x.username) whole,
        ap (λ x. some x.nonce) whole,
        ap (λ x. x.cbind_flag) whole,
        ap (λ x. x.auth_zid) whole,
        valid,
      )
  | inr invalid ↦ cc (rw (invalid) at h)
]
first-fields s flag zid (some u) none m h = cc h
first-fields s flag zid none p m h = cc h

-- The flags that a client may send.
abbrev pub IsFlag : Bytes → Type 0
IsFlag flag =
    (flag ≡ b'n' ∷ []) ⊎ ((flag ≡ b'y' ∷ []) ⊎ ((rest : Bytes) × (flag ≡ b'p' ∷ b'=' ∷ rest)))

validate_cbind_flag-IsFlag : (flag : Bytes) → validate_cbind_flag flag ≡ true → IsFlag flag
unfolding validate_cbind_flag is_some
validate_cbind_flag-IsFlag flag h = elim (Bool-cases (same_name flag (b'n' ∷ []))) [
  | inl n ↦ inl (same_name-true flag _ n)
  | inr not_n ↦ elim (Bool-cases (same_name flag (b'y' ∷ []))) [
    | inl y ↦ inr (inl (same_name-true flag _ y))
    | inr not_y ↦ elim (Option-cases (strip_prefix (b'p' ∷ b'=' ∷ []) flag)) [
      | inl gone ↦ cc (rw (not_n, not_y, gone) at h)
      | inr (rest, here) ↦ inr (inr (rest, strip_prefix-some (b'p' ∷ b'=' ∷ []) flag rest here))
    ]
  ]
]

IsFlag-validate_cbind_flag : (flag : Bytes) → IsFlag flag → validate_cbind_flag flag ≡ true
unfolding validate_cbind_flag is_some strip_prefix compare_bytes
IsFlag-validate_cbind_flag flag (inl n) = rw (n) refl
IsFlag-validate_cbind_flag flag (inr (inl y)) = rw (y) refl
IsFlag-validate_cbind_flag flag (inr (inr (rest, p))) = rw (p) refl

-- The flag, the authorization identity, "n=" and the user name, and "r=" and the nonce, with commas
-- between them.
abbrev pub first_message : ClientFirst → Bytes
first_message m =
    m.cbind_flag
    ++ b',' ∷ (m.auth_zid ++ b',' ∷ b'n' ∷ b'=' ∷ (m.username ++ b',' ∷ b'r' ∷ b'=' ∷ m.nonce))

-- The text of a client's first message, with what its parts have to be.
abbrev pub IsClientFirst : ClientFirst → Bytes → Type 0
IsClientFirst m s =
    (s ≡ first_message m)
    × IsFlag m.cbind_flag
    × (comma_free m.cbind_flag ≡ true)
    × (comma_free m.auth_zid ≡ true)
    × (comma_free m.username ≡ true)

first-text : (m : ClientFirst) → channel_binding m ++ bare m ≡ first_message m
unfolding channel_binding bare
first-text m =
    rw
      (
        append_assoc m.cbind_flag (b',' ∷ (m.auth_zid ++ b',' ∷ [])) (bare m),
        append_assoc m.auth_zid (b',' ∷ []) (bare m),
      )
      refl

first-parts :
    (s : Bytes) (parts : List Bytes) (m : ClientFirst)
    → Inner parts
    → client_first_parts s parts ≡ ok m
    → IsClientFirst m (join parts)
unfolding client_first_parts comma_free
first-parts s [] m i h = cc h
first-parts s (a ∷ []) m i h = cc h
first-parts s (a ∷ b ∷ []) m i h = cc h
first-parts s (a ∷ b ∷ c ∷ []) m i h = cc h
first-parts s (flag ∷ zid ∷ user ∷ nonce ∷ []) m (i, (j, (k, _))) h =
    let (o, p, f, z, v) =
      first-fields s flag zid (strip_prefix username_prefix user) (strip_prefix nonce_prefix nonce)
        m h in
    let u = strip_prefix-some username_prefix user m.username o in
    let n = strip_prefix-some nonce_prefix nonce m.nonce p in
    (
      rw (f, z, u, n) refl,
      validate_cbind_flag-IsFlag m.cbind_flag (rw (← f) v),
      rw (← f) i,
      rw (← z) j,
      rw (u) at k,
    )
first-parts s (a ∷ b ∷ c ∷ d ∷ e ∷ rest) m i h = cc h

first-splits : (s : Bytes) (m : ClientFirst) → parse_client_first s ≡ ok m → IsClientFirst m s
unfolding parse_client_first
first-splits s m h =
    subst (λ x. IsClientFirst m x) (join-splitn 3 s)
      (first-parts s (splitn 4 s) m (splitn-Inner 4 s) h)

first-accepts : (s : Bytes) (m : ClientFirst) → IsClientFirst m s → parse_client_first s ≡ ok m
unfolding parse_client_first client_first_parts client_first_fields strip_prefix comma_free splitn
first-accepts s m (text, valid, flag, zid, user) =
    let user_text = username_prefix ++ m.username in
    let nonce_text = nonce_prefix ++ m.nonce in
    let parts : splitn 4 s ≡ m.cbind_flag ∷ m.auth_zid ∷ user_text ∷ nonce_text ∷ [] =
      ap (λ x. splitn 4 x) text
      ∙ splitn-append 2 m.cbind_flag (m.auth_zid ++ b',' ∷ (user_text ++ b',' ∷ nonce_text)) flag
      ∙ ap (λ x. m.cbind_flag ∷ x) (splitn-append 1 m.auth_zid (user_text ++ b',' ∷ nonce_text) zid)
      ∙ ap (λ x. m.cbind_flag ∷ m.auth_zid ∷ x) (splitn-append 0 user_text nonce_text user) in
    ap (λ x. client_first_parts s x) parts ∙ rw (IsFlag-validate_cbind_flag m.cbind_flag valid) refl

-- A text is parsed as a client's first message of SCRAM exactly if it is the flag, the
-- authorization identity, n= and the user name, and r= and the nonce, with commas between them,
-- the flag is n, y or begins with p=, and neither the flag nor the authorization identity nor the
-- user name has a comma. The channel binding of the message followed by its bare form is that
-- text.
pub parse_client_first-exact :
    (s : Bytes) (m : ClientFirst)
    → (parse_client_first s ≡ ok m ↔ IsClientFirst m s)
      × (channel_binding m ++ bare m ≡ first_message m)
parse_client_first-exact s m = ((first-splits s m, first-accepts s m), first-text m)
