-- ===== src/Api/Auth/Scram/Final.antt =====
-- api/auth/scram.rs: ClientFinal::try_new and what it reads.
use pgwire.Base.{
  subst, ◌↔◌, ◌≡◌, refl, ap, ◌∙◌, true, Option, none, some, List, [], ◌∷◌, ◌++◌, append_assoc,
  Bytes,
}
use pgwire.Api.Statements.{ok}
use pgwire.Api.Auth.Scram.{
  strip_prefix, splitn, nonce_prefix, binding_prefix, cbind_prefix, ClientFinal,
  client_final_fields, client_final_parts, parse_client_final, without_proof,
}
use pgwire.Api.Auth.Scram.Parts.{
  strip_prefix-some, join, join-splitn, comma_free, Inner, splitn-Inner, splitn-append,
}

final-fields :
    (s : Bytes) (o p q : Option Bytes) (m : ClientFinal)
    → client_final_fields s o p q ≡ ok m
    → (o ≡ some m.channel_binding) × (p ≡ some m.nonce) × (q ≡ some m.proof)
unfolding client_final_fields
final-fields s (some b) (some n) (some p) m h =
    let whole : record { channel_binding = b; nonce = n; proof = p } ≡ m = cc h in
    (
      ap (λ x. some x.channel_binding) whole,
      ap (λ x. some x.nonce) whole,
      ap (λ x. some x.proof) whole,
    )
final-fields s (some b) (some n) none m h = cc h
final-fields s (some b) none p m h = cc h
final-fields s none n p m h = cc h

-- The text of a client's final message, with what its parts have to be.
abbrev pub IsClientFinal : ClientFinal → Bytes → Type 0
IsClientFinal m s =
    (s ≡ without_proof m ++ b',' ∷ (cbind_prefix ++ m.proof))
    × (comma_free m.channel_binding ≡ true)
    × (comma_free m.nonce ≡ true)

final-parts :
    (s : Bytes) (parts : List Bytes) (m : ClientFinal)
    → Inner parts
    → client_final_parts s parts ≡ ok m
    → IsClientFinal m (join parts)
unfolding client_final_parts without_proof comma_free
final-parts s [] m i h = cc h
final-parts s (a ∷ []) m i h = cc h
final-parts s (a ∷ b ∷ []) m i h = cc h
final-parts s (binding ∷ nonce ∷ proof ∷ []) m (i, (j, _)) h =
    let (o, p, q) =
      final-fields s (strip_prefix binding_prefix binding) (strip_prefix nonce_prefix nonce)
        (strip_prefix cbind_prefix proof) m h in
    let b = strip_prefix-some binding_prefix binding m.channel_binding o in
    let n = strip_prefix-some nonce_prefix nonce m.nonce p in
    (
      rw (b, n, strip_prefix-some cbind_prefix proof m.proof q)
          (rw
            (append_assoc m.channel_binding (b',' ∷ (nonce_prefix ++ m.nonce))
              (b',' ∷ (cbind_prefix ++ m.proof)))
            refl),
      rw (b) at i,
      rw (n) at j,
    )
final-parts s (a ∷ b ∷ c ∷ d ∷ rest) m i h = cc h

final-splits : (s : Bytes) (m : ClientFinal) → parse_client_final s ≡ ok m → IsClientFinal m s
unfolding parse_client_final
final-splits s m h =
    subst (λ x. IsClientFinal m x) (join-splitn 2 s)
      (final-parts s (splitn 3 s) m (splitn-Inner 3 s) h)

final-text :
    (m : ClientFinal)
    → without_proof m ++ b',' ∷ (cbind_prefix ++ m.proof)
      ≡ (binding_prefix ++ m.channel_binding)
        ++ b',' ∷ ((nonce_prefix ++ m.nonce) ++ b',' ∷ (cbind_prefix ++ m.proof))
unfolding without_proof
final-text m =
    rw
      (append_assoc m.channel_binding (b',' ∷ (nonce_prefix ++ m.nonce))
        (b',' ∷ (cbind_prefix ++ m.proof)))
      refl

final-accepts : (s : Bytes) (m : ClientFinal) → IsClientFinal m s → parse_client_final s ≡ ok m
unfolding parse_client_final client_final_parts client_final_fields strip_prefix comma_free splitn
final-accepts s m (text, binding, nonce) =
    let binding_text = binding_prefix ++ m.channel_binding in
    let nonce_text = nonce_prefix ++ m.nonce in
    let proof_text = cbind_prefix ++ m.proof in
    let parts : splitn 3 s ≡ binding_text ∷ nonce_text ∷ proof_text ∷ [] =
      ap (λ x. splitn 3 x) (text ∙ final-text m)
      ∙ splitn-append 1 binding_text (nonce_text ++ b',' ∷ proof_text) binding
      ∙ ap (λ x. binding_text ∷ x) (splitn-append 0 nonce_text proof_text nonce) in
    ap (λ x. client_final_parts s x) parts

-- A text is parsed as a client's final message of SCRAM exactly if it is that message without its
-- proof, then a comma and the proof, and neither the channel binding nor the nonce has a comma.
pub parse_client_final-exact :
    (s : Bytes) (m : ClientFinal) → parse_client_final s ≡ ok m ↔ IsClientFinal m s
parse_client_final-exact s m = (final-splits s m, final-accepts s m)
