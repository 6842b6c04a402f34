-- ===== src/Server/Guarded/Md5.antt =====
-- MD5 passwords over a whole connection: the cached password is the one of the source, or empty.
use pgwire.Base.{
  ◌≡◌, refl, sym, ap, ◌∙◌, ◌⊎◌, inl, inr, Bool-cases, Option, none, some, List, [], Bytes,
}
use pgwire.Errors.{PgWireError}
use pgwire.Buffers
use pgwire.Buffers.{BytesCrate, Reply}
use pgwire.Messages.Startup.Passwords
use pgwire.Messages.Startup.Passwords.{PasswordMessageFamily, into_password}
use pgwire.Messages.Startup.Request.{Startup}
use pgwire.Messages.Frontend.{
  PgWireFrontendMessage, startup, password_message_family, query, parse, close, bind, describe,
  execute, flush, sync, terminate,
}
use pgwire.Api.Step.{Outcome, done, failed, panicked, Step, ◌>>◌, pure, raise}
use pgwire.Api.Client.{Client, authentication_in_progress, ready_for_query, Sink, set_state}
use pgwire.Api.Statements.{PgWireResult, ok, err}
use pgwire.Api.Query.{lift}
use pgwire.Api.Store.Laws.{same_name, same_name-true}
use pgwire.Api.Auth.{
  Runtime, Password, from_client_info, coerced, save_startup_parameters_to_metadata,
}
use pgwire.Api.Auth.Kept.{Preserves-save}
use pgwire.Api.Auth.Md5.{
  Md5PasswordAuthStartupHandler, Md5Session, on_client, set_cached_password, expect_salt,
  on_startup_message, check_password, on_password, on_startup,
}
use pgwire.Api.Preserved.{
  Preserves, OfClient, Ends, Preserves-lift, Preserves-coerced, Preserves-set_state, Preserves-send,
  Preserves-refuse_password,
}
use pgwire.Server.{Handlers, serve_all}
use pgwire.Server.Guarded.{Unready, Leaves, Leaves-granted, Leaves-bind, Leaves-kept, Proved}
use pgwire.Server.Guarded.Beside.{Session, Startups, with_startups, ready-Proved}

module _ (h : Md5PasswordAuthStartupHandler) where
  -- The source gave the password for a client.
  pub record Given (password : Bytes) : Type 0 where
    pub client : Client
    pub pass : Password
    pub knows : h.auth_source.get_password (from_client_info client) ≡ ok pass
    pub is : pass.password ≡ password

  abbrev pub Cached : Bytes → Type 0
  Cached password = (password ≡ []) ⊎ Given password

  -- Before the connection is ready.
  abbrev pub Waiting : Md5Session → Type 0
  Waiting w = Unready w.client.state × Cached w.cached_password

  on_outcome :
      {A : Type 0} (m : Step Client A) (w : Md5Session) (o : Outcome Client A)
      → m w.client ≡ o
      → Cached w.cached_password
      → Ends (OfClient Unready) o
      → Ends Waiting (on_client m w)
  unfolding on_client
  on_outcome m w (done a c) e k u = rw (e, on_client) (u, k)
  on_outcome m w (failed x c) e k u = rw (e, on_client) (u, k)
  on_outcome m w panicked e k u = rw (e, on_client) tt

  Preserves-client :
      {A : Type 0} (m : Step Client A)
      → Preserves (OfClient Unready) m
      → Preserves Waiting (on_client m)
  Preserves-client m p = record {
    at = λ w u. on_outcome m w (m w.client) refl u.1 (p.at w.client u.0);
  }

  Preserves-salt : (salt : Option Bytes) → Preserves Waiting (expect_salt salt)
  unfolding expect_salt pure
  Preserves-salt none = record { at = λ w u. tt }
  Preserves-salt (some salt) = record { at = λ w u. u }

coerced-inv :
    {A : Type 0} (reply : Reply A) (w : Md5Session) (a : A) (w' : Md5Session)
    → on_client (coerced reply) w ≡ done a w'
    → (left : Bytes) × (reply ≡ Buffers.ok a left) × (w ≡ w')
unfolding on_client coerced pure
coerced-inv (Buffers.ok x left) w a w' e = (left, cc e, cc e)
coerced-inv (Buffers.err x left) w a w' e = cc e
coerced-inv Buffers.panic w a w' e = cc e
coerced-inv Buffers.no_fuel w a w' e = cc e

lifted :
    {A : Type 0} (result : PgWireResult A) (ask : Client → PgWireResult A) (w : Md5Session) (a : A)
    (w' : Md5Session)
    → ask w.client ≡ result
    → on_client (λ c. lift (ask c) c) w ≡ done a w'
    → result ≡ ok a
unfolding on_client lift pure raise
lifted (ok x) ask w a w' same e = cc (rw (same, lift, on_client) at e)
lifted (err x) ask w a w' same e = cc (rw (same, lift, on_client) at e)

lift-inv :
    {A : Type 0} (ask : Client → PgWireResult A) (w : Md5Session) (a : A) (w' : Md5Session)
    → on_client (λ c. lift (ask c) c) w ≡ done a w'
    → ask w.client ≡ ok a
lift-inv ask w a w' e = lifted (ask w.client) ask w a w' refl e

module _ ⦃c : BytesCrate⦄ ⦃s : Sink⦄ (r : Runtime) (h : Md5PasswordAuthStartupHandler) where
  -- A password message whose password is the cached one.
  pub record Md5Proof (m : PgWireFrontendMessage) (w : Md5Session) : Type 0 where
    pub msg : PasswordMessageFamily
    pub pwd : Passwords.Password
    pub left : Bytes
    pub is_password : m ≡ password_message_family msg
    pub reads : into_password msg ≡ Buffers.ok pwd left
    pub matches : pwd.password ≡ w.cached_password
    pub cached : Cached h w.cached_password

  -- A startup caches the password that the source gives.
  startup-Leaves :
      (X : Type 0) (m : Startup) (w : Md5Session)
      → Waiting h w
      → Leaves (Waiting h) X (on_startup_message r h m w)
  unfolding on_startup_message set_cached_password ◌>>◌
  startup-Leaves X m w u =
      let U = Waiting h in
      let get : Step Client Password =
        λ client. lift (h.auth_source.get_password (from_client_info client)) client in
      Leaves-bind U X (on_client (save_startup_parameters_to_metadata m)) _ w
        (Leaves-kept U X _ ((Preserves-client h _ (Preserves-save Unready m)).at w u))
        (λ _ w1 _ u1.
          Leaves-bind U X (on_client (set_state authentication_in_progress)) _ w1
            (Leaves-kept U X _
              ((Preserves-client h _ (Preserves-set_state Unready _ (inr refl))).at w1 u1))
            (λ _ w2 _ u2.
              Leaves-bind U X (on_client get) _ w2
                (Leaves-kept U X _ (
                  (Preserves-client h get (record {
                    at = λ d v.
                        (Preserves-lift (OfClient Unready)
                            (h.auth_source.get_password (from_client_info d))).at
                          d v;
                  })).at
                    w2 u2))
                (λ pass w3 found u3.
                  Leaves-bind U X (expect_salt pass.salt) _ w3
                    (Leaves-kept U X _ ((Preserves-salt h pass.salt).at w3 u3))
                    (λ salt w4 _ u4. Leaves-kept U X _ (
                      (Preserves-client h _ (Preserves-send Unready _)).at
                        (record w4 { cached_password = pass.password })
                        (
                          u4.0,
                          inr (record {
                            client = w2.client;
                            pass = pass;
                            knows =
                                lift-inv (λ d. h.auth_source.get_password (from_client_info d)) w2
                                  pass w3 found;
                            is = refl;
                          }),
                        ))))))

  password-Leaves :
      (msg : PasswordMessageFamily) (w : Md5Session)
      → Waiting h w
      → Leaves (Waiting h) (Md5Proof (password_message_family msg) w) (on_password r h msg w)
  unfolding on_password check_password
  password-Leaves msg w u =
      let U = Waiting h in
      let X = Md5Proof (password_message_family msg) w in
      Leaves-bind U X (on_client (coerced (into_password msg))) _ w
        (Leaves-kept U X _
          ((Preserves-client h _ (Preserves-coerced Unready (into_password msg))).at w u))
        (λ pwd w1 first u1.
          let (left, reads, same) = coerced-inv (into_password msg) w pwd w1 first in
          elim (Bool-cases (same_name pwd.password w1.cached_password)) [
            | inl equal ↦
                Leaves-granted U
                  (record {
                    msg = msg;
                    pwd = pwd;
                    left = left;
                    is_password = refl;
                    reads = reads;
                    matches =
                        same_name-true pwd.password w1.cached_password equal
                        ∙ ap (λ (v : Md5Session). v.cached_password) (sym same);
                    cached = u.1;
                  })
                  _
            | inr other ↦ rw (other) (
                Leaves-kept U X _
                  ((Preserves-client h _ (Preserves-refuse_password Unready)).at w1 u1))
          ])

  on_startup-Leaves :
      (m : PgWireFrontendMessage) (w : Md5Session)
      → Waiting h w
      → Leaves (Waiting h) (Md5Proof m w) (on_startup r h m w)
  unfolding on_startup pure
  on_startup-Leaves (startup m) w u = startup-Leaves _ m w u
  on_startup-Leaves (password_message_family msg) w u = password-Leaves msg w u
  on_startup-Leaves (query _) w u = inl u
  on_startup-Leaves (parse _) w u = inl u
  on_startup-Leaves (close _) w u = inl u
  on_startup-Leaves (bind _) w u = inl u
  on_startup-Leaves (describe _) w u = inl u
  on_startup-Leaves (execute _) w u = inl u
  on_startup-Leaves (flush _) w u = inl u
  on_startup-Leaves (sync _) w u = inl u
  on_startup-Leaves (terminate _) w u = inl u

  abbrev pub md5_startups : Startups Md5Session
  md5_startups = record {
    client_state = λ w. w.client.state;
    on_startup = on_startup r h;
    on_client = on_client;
  }

  pub ready-md5 :
      {Q : Type 0} (others : Handlers (Session Md5Session Q)) (display : PgWireError → Bytes)
      (ms : List PgWireFrontendMessage) (w w' : Session Md5Session Q)
      → serve_all (with_startups md5_startups others) display ms w ≡ done tt w'
      → Unready w.auth.client.state
      → w.auth.cached_password ≡ []
      → w'.auth.client.state ≡ ready_for_query
      → Proved (λ m (v : Session Md5Session Q). Md5Proof m v.auth) ms
  ready-md5 others display ms w w' runs u empty ready =
      ready-Proved md5_startups others display Md5Proof (Waiting h) (λ v k. k.0) on_startup-Leaves
        (λ m holds. Preserves-client h m holds) ms w w' runs (u, inl empty) ready
