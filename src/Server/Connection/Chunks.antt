-- ===== src/Server/Connection/Chunks.antt =====
-- A connection handles the messages that its client wrote, however the bytes arrive.
use pgwire.Base.{
  ℕ, zero, suc, ◌<◌, ◌≡◌, ◌≢◌, refl, sym, ap, subst, ◌∙◌, ◌⊎◌, inl, inr, Option, none, some, List,
  [], ◌∷◌, ◌++◌, append_assoc, Bytes, All, length, length-append, map, arith,
}
use pgwire.Errors.{PgWireError}
use pgwire.Buffers
use pgwire.Buffers.{BytesCrate, Action}
use pgwire.Messages.Vectors.Rules.{flat}
use pgwire.Messages.Frontend
use pgwire.Messages.Units.{sync_message}
use pgwire.Messages.Frontend.{PgWireFrontendMessage, sync}
use pgwire.Messages.Frontend.Clients.{IsSent, client_wire, Reads-sent, decode-prefix_sent}
use pgwire.Messages.Frontend.RoundTrip.{received}
use pgwire.Api.Step.{
  Outcome, done, failed, panicked, ◌>>◌, pure, bind-done, bind-failed, bind-panicked,
}
use pgwire.Api.Client.{
  PgWireConnectionState, awaiting_startup, authentication_in_progress, ready_for_query,
  query_in_progress, Sink,
}
use pgwire.Server.{server_decode, Handlers, serve, serve_all}
use pgwire.Server.Connection.{Framed, item, Ended, finished, aborted, crashed, connection}

abbrev pub join : List Bytes → Bytes
join [] = []
join (chunk ∷ chunks) = chunk ++ join chunks

abbrev pub NonEmpty : List Bytes → Type 0
NonEmpty chunks = All (λ (chunk : Bytes). 0 < length chunk) chunks

-- What has arrived of `a ++ b` is a proper prefix of `a`, or all of it and more.
split_arrived :
    (p x a b : Bytes)
    → p ++ x ≡ a ++ b
    → ((q : Bytes) × (a ≡ p ++ q) × (0 < length q)) ⊎ ((r : Bytes) × (p ≡ a ++ r) × (r ++ x ≡ b))
split_arrived [] x [] b e = inr ([], refl, e)
split_arrived [] x (y ∷ a) b e = inl (y ∷ a, refl, omega arith)
split_arrived (y ∷ p) x [] b e = inr (y ∷ p, refl, e)
split_arrived (y ∷ p) x (z ∷ a) b e =
    let same : y ≡ z = cc e in
    elim (split_arrived p x a b (cc e)) [
      | inl (q, f, some_left) ↦
          inl (q, ap (λ t. z ∷ t) f ∙ ap (λ w. w ∷ (p ++ q)) (sym same), some_left)
      | inr (r, f, g) ↦ inr (r, ap (λ t. y ∷ t) f ∙ ap (λ w. w ∷ (a ++ r)) same, g)
    ]

module _ (framed : Framed) (decode : Action (Option PgWireFrontendMessage)) where
  -- The next message, whose bytes are `a`, comes when they have arrived.
  pub record Delivers (a : Bytes) (m : PgWireFrontendMessage) : Type 0 where
    pub whole : (rest : Bytes) → decode (a ++ rest) ≡ Buffers.ok (some m) rest
    pub part : (p q : Bytes) → a ≡ p ++ q → 0 < length q → decode p ≡ Buffers.ok none p

  pub next-item :
      (a b : Bytes) (m : PgWireFrontendMessage) (d : Delivers a m) (chunks : List Bytes)
      (f : framed.Stream)
      → framed.incoming f ≡ chunks
      → NonEmpty chunks
      → framed.buffered f ++ join chunks ≡ a ++ b
      → (f' : framed.Stream) × (later : List Bytes) × (framed.next decode f ≡ item m f')
        × (framed.incoming f' ≡ later)
        × NonEmpty later
        × (framed.buffered f' ++ join later ≡ b)
  next-item a b m d [] f comes full e = elim (split_arrived (framed.buffered f) [] a b e) [
    | inl (q, f_, left) ↦ absurd (
        omega (
          arith,
          ap length (e),
          ap length f_,
          length-append a b,
          length-append (framed.buffered f) q,
          length-append (framed.buffered f) [],
        ))
    | inr (r, here, more) ↦
        let (f', given, rest, same) = framed.next_item decode f m r (ap decode here ∙ d.whole r) in
        (f', [], given, same ∙ comes, tt, ap (λ t. t ++ []) rest ∙ more)
  ]
  next-item a b m d (chunk ∷ chunks) f comes (full, fulls) e =
      let again = next-item a b m d chunks in
      elim (split_arrived (framed.buffered f) (chunk ++ join chunks) a b e) [
        | inl (q, f_, left) ↦
            let (f1, goes_on, rest, same) =
              framed.next_more decode f (framed.buffered f) chunk chunks
                (d.part (framed.buffered f) q f_ left) comes full in
            let (f', later, given, comes', full', more) = again f1 same fulls (
              ap (λ t. t ++ join chunks) rest
              ∙ append_assoc (framed.buffered f) chunk (join chunks)
              ∙ e) in
            (f', later, goes_on ∙ given, comes', full', more)
        | inr (r, here, more) ↦
            let (f', given, rest, same) =
              framed.next_item decode f m r (ap decode here ∙ d.whole r) in
            (
              f',
              chunk ∷ chunks,
              given,
              same ∙ comes,
              (full, fulls),
              ap (λ t. t ++ join (chunk ∷ chunks)) rest ∙ more,
            )
      ]

Outcome-cases :
    {W : Type 0} (o : Outcome W (Unit {0}))
    → ((w : W) × (o ≡ done tt w))
      ⊎ (((e : PgWireError) × (w : W) × (o ≡ failed e w)) ⊎ (o ≡ panicked))
Outcome-cases (done tt w) = inl (w, refl)
Outcome-cases (failed e w) = inr (inl (e, w, refl))
Outcome-cases panicked = inr (inr refl)

-- What a loop over the messages leaves of a connection.
abbrev pub served : {W : Type 0} → Outcome W (Unit {0}) → Ended W
served (done _ w) = finished w
served (failed e w) = aborted e w
served panicked = crashed

module _ ⦃c : BytesCrate⦄ ⦃s : Sink⦄ (framed : Framed) {W : Type 0} (h : Handlers W)
    (display : PgWireError → Bytes) where
  -- A message after the startup does not bring the connection back to before it.
  abbrev pub Proceeds : Type 0
  Proceeds =
      (m : PgWireFrontendMessage) (w w' : W)
      → h.state w ≢ awaiting_startup
      → serve h display m w ≡ done tt w'
      → h.state w' ≢ awaiting_startup

  -- A round with a message that comes.
  pub round :
      (fuel : ℕ) (f f' : framed.Stream) (w : W) (m : PgWireFrontendMessage)
      (ms : List PgWireFrontendMessage)
      → framed.next (server_decode (h.state w)) f ≡ item m f'
      → ((w' : W)
          → serve h display m w ≡ done tt w'
          → connection framed h display fuel f' w' ≡ served (serve_all h display ms w'))
      → connection framed h display (suc fuel) f w ≡ served (serve_all h display (m ∷ ms) w)
  unfolding serve_all ◌>>◌
  round fuel f f' w m ms given rest = elim (Outcome-cases (serve h display m w)) [
    | inl (w', e) ↦
        unfold connection in
        rw (given, connection) (rw (e) (rest w' e))
        ∙ ap served (sym (bind-done (serve h display m) (λ _. serve_all h display ms) w tt w' e))
    | inr (inl (x, w', e)) ↦
        unfold connection in
        rw (given, connection) (rw (e) (λ _. aborted x w'))
        ∙ ap served (sym (bind-failed (serve h display m) (λ _. serve_all h display ms) w x w' e))
    | inr (inr e) ↦
        unfold connection in
        rw (given, connection) (rw (e) (λ _. crashed))
        ∙ ap served (sym (bind-panicked (serve h display m) (λ _. serve_all h display ms) w e))
  ]

  decodes :
      (st : PgWireConnectionState) → st ≢ awaiting_startup → server_decode st ≡ Frontend.decode
  unfolding server_decode
  decodes awaiting_startup n = absurd (n refl)
  decodes authentication_in_progress n = refl
  decodes ready_for_query n = refl
  decodes query_in_progress n = refl

  frontend-Delivers :
      (m : PgWireFrontendMessage)
      → IsSent m
      → Delivers framed Frontend.decode (client_wire m) (received m)
  frontend-Delivers m wf = record {
    whole = λ rest. (Reads-sent m wf).at rest;
    part = λ p q e left. decode-prefix_sent m p q wf e left;
  }

  pub decode-nothing : Frontend.decode [] ≡ Buffers.ok none []
  unfolding sync_message
  decode-nothing =
      decode-prefix_sent (sync (record {})) [] (client_wire (sync (record {}))) tt refl
        (omega arith)

  -- Nothing is left to be decoded, nor to come.
  nothing_left :
      (p : Bytes) (chunks : List Bytes)
      → NonEmpty chunks
      → p ++ join chunks ≡ []
      → (p ≡ []) × (chunks ≡ [])
  nothing_left [] [] n e = (refl, refl)
  nothing_left [] ([] ∷ chunks) (n, _) e = absurd (omega arith)
  nothing_left [] ((x ∷ chunk) ∷ chunks) n e = cc e
  nothing_left (x ∷ p) chunks n e = cc e

  -- A connection past its startup handles the messages whose bytes are held or come, in their order,
  -- however the reads cut them.
  pub connection-wire :
      (fuel : ℕ) (ms : List PgWireFrontendMessage) (f : framed.Stream) (w : W)
      → Proceeds
      → length ms < fuel
      → All IsSent ms
      → NonEmpty (framed.incoming f)
      → framed.buffered f ++ join (framed.incoming f) ≡ flat client_wire ms
      → h.state w ≢ awaiting_startup
      → connection framed h display fuel f w ≡ served (serve_all h display (map received ms) w)
  connection-wire zero ms f w keep few wf full e st = absurd (omega arith)
  connection-wire (suc fuel) [] f w keep few wf full e st =
      let (empty, no_more) = nothing_left (framed.buffered f) (framed.incoming f) full e in
      unfold connection serve_all pure in
      rw
        (
          framed.next_end (server_decode (h.state w)) f
              (ap (λ d. d (framed.buffered f)) (decodes (h.state w) st)
                ∙ ap Frontend.decode empty
                ∙ decode-nothing)
              no_more,
          connection,
        )
        refl
  connection-wire (suc fuel) (m ∷ ms) f w keep few (wf, wfs) full e st =
      let later = connection-wire fuel ms in
      let (f', chunks, given, comes, full', e') =
        next-item framed Frontend.decode (client_wire m) (flat client_wire ms) (received m)
          (frontend-Delivers m wf) (framed.incoming f) f refl full e in
      round fuel f f' w (received m) (map received ms)
        (ap (λ d. framed.next d f) (decodes (h.state w) st) ∙ given)
        (λ w' runs.
          later f' w' keep (omega arith) wfs (subst NonEmpty (sym comes) full')
            (ap (λ cs. framed.buffered f' ++ join cs) comes ∙ e') (keep (received m) w w' st runs))
