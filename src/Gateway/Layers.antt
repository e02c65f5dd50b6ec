-- ===== src/Gateway/Layers.antt =====
-- The layers of a gift wrap: what `buildGiftWrap` of src/protocols/opendating/crypto/gift-wrap.ts puts
-- together, and that the other party can read each layer.
use open_dating.Prelude.{
  ℕ, ◌≡◌, refl, sym, ap, ◌∙◌, inl, inr, String, none, some, List, [], ◌∷◌, length, ok, thrown,
  Option-cases, Result-cases,
}
use open_dating.Crypto.Hex.{bytes_to_hex}
use open_dating.Crypto.Padding.{pad, calc_padded_len}
use open_dating.Crypto.Payload.{Primitives, IsStandard, AllBytes, nip44_encrypt, nip44_decrypt}
use open_dating.Crypto.RoundTrip.{IsText, nip44_decrypt-nip44_encrypt}
use open_dating.Events.Model.{Event}
use open_dating.Gateway.Wraps.{
  Crypto, Draws, encrypt_text, decrypt_text, sign_event, get_event_hash, unsigned, with_id,
  make_seal, wrap_seal, random_past_timestamp,
}

pub record IsNonce (nonce : List ℕ) : Type 0 where
  pub has_length : length nonce ≡ 32
  pub all_bytes : AllBytes nonce

nip44_encrypt-padded :
    (p : Primitives) (key nonce : List ℕ) (text payload : String)
    → nip44_encrypt p key nonce text ≡ ok payload
    → (m : ℕ) × (calc_padded_len (length (p.encode text)) ≡ ok m)
unfolding nip44_encrypt pad
nip44_encrypt-padded p key nonce text payload h =
    elim (Result-cases (calc_padded_len (length (p.encode text)))) [
      | inl (m, k) ↦ (m, k)
      | inr (e, k) ↦
          let failed : nip44_encrypt p key nonce text ≡ thrown e =
            rw (k, pad, nip44_encrypt) refl in
          cc
    ]

module _ (c : Crypto) (std : IsStandard c.primitives) where
  encrypted :
      (key nonce : List ℕ) (text payload : String)
      → IsNonce nonce
      → IsText c.primitives text
      → nip44_encrypt c.primitives key nonce text ≡ ok payload
      → nip44_decrypt c.primitives key payload ≡ ok text
  encrypted key nonce text payload n coded h =
      let (m, padded) = nip44_encrypt-padded c.primitives key nonce text payload h in
      elim (nip44_decrypt-nip44_encrypt c.primitives std key nonce text m n.has_length n.all_bytes
        coded padded) [
          | inl (_, failed) ↦ cc
          | inr (inl (_, failed)) ↦ cc
          | inr (inr (written, e, d)) ↦ let same : written ≡ payload = cc in rw (sym same) d
        ]

  -- The other party reads a text with the same conversation key.
  pub decrypt_text-encrypt_text :
      (nonce : List ℕ) (text payload a b a' b' : String)
      → IsNonce nonce
      → IsText c.primitives text
      → c.conversation_key a' b' ≡ c.conversation_key a b
      → encrypt_text c nonce text a b ≡ some payload
      → decrypt_text c payload a' b' ≡ some text
  unfolding encrypt_text decrypt_text
  decrypt_text-encrypt_text nonce text payload a b a' b' n coded keys h =
      elim (Option-cases (c.conversation_key a b)) [
        | inl k ↦
            let failed : encrypt_text c nonce text a b ≡ none = rw (k, encrypt_text) refl in cc
        | inr (key, k) ↦ elim (Result-cases (nip44_encrypt c.primitives key nonce text)) [
          | inr (e, m) ↦
              let failed : encrypt_text c nonce text a b ≡ none = rw (k, encrypt_text, m) refl in cc
          | inl (written, m) ↦
              let done : encrypt_text c nonce text a b ≡ some written =
                rw (k, encrypt_text, m) refl in
              let same : written ≡ payload = cc in
              let read : nip44_decrypt c.primitives key payload ≡ ok text =
                rw (sym same) (encrypted key nonce text written n coded m) in
              rw (keys ∙ k, decrypt_text, read) refl
        ]
      ]

  sign_event-content :
      (e s : Event) (private_key : String)
      → sign_event c e private_key ≡ some s
      → (s.content ≡ e.content) × (s.pubkey ≡ e.pubkey) × (s.kind ≡ e.kind) × (s.tags ≡ e.tags)
  unfolding sign_event
  sign_event-content e s private_key h =
      elim (Option-cases (c.sign (get_event_hash c e) private_key)) [
        | inl k ↦ let failed : sign_event c e private_key ≡ none = rw (k, sign_event) refl in cc
        | inr (sig, k) ↦
            let signed = record (with_id c e) { sig = bytes_to_hex sig } in
            let done : sign_event c e private_key ≡ some signed = rw (k, sign_event) refl in
            let same : signed ≡ s = cc in
            (
              ap (λ x. x.content) (sym same),
              ap (λ x. x.pubkey) (sym same),
              ap (λ x. x.kind) (sym same),
              ap (λ x. x.tags) (sym same),
            )
      ]

  -- What a seal is.
  pub make_seal-sealed :
      (d : Draws) (now : ℕ) (rumor seal : Event) (private_key recipient : String)
      → make_seal c d now rumor private_key recipient ≡ some seal
      → (seal.pubkey ≡ rumor.pubkey)
        × (seal.kind ≡ 13)
        × (encrypt_text c d.seal_nonce (c.event_text rumor) private_key recipient
            ≡ some seal.content)
  unfolding make_seal
  make_seal-sealed d now rumor seal private_key recipient h =
      elim (Option-cases (encrypt_text c d.seal_nonce (c.event_text rumor) private_key recipient)) [
        | inl k ↦
            let failed : make_seal c d now rumor private_key recipient ≡ none =
              rw (k, make_seal) refl in
            cc
        | inr (content, k) ↦
            let e = unsigned rumor.pubkey (random_past_timestamp now d.seal_offset) 13 [] content in
            let done : make_seal c d now rumor private_key recipient ≡ sign_event c e private_key =
              rw (k, make_seal) refl in
            let (same, author, kind, _) = sign_event-content e seal private_key (sym done ∙ h) in
            (author, kind, k ∙ ap some (sym same))
      ]

  pub wrap_seal-wrapped :
      (d : Draws) (now : ℕ) (seal wrap : Event) (recipient : String)
      → wrap_seal c d now seal recipient ≡ some wrap
      → (wrap.pubkey ≡ d.wrapper_public_key)
        × (wrap.kind ≡ 1059)
        × (wrap.tags ≡ ("p" ∷ recipient ∷ []) ∷ [])
        × (encrypt_text c d.wrap_nonce (c.event_text seal) d.wrapper_private_key recipient
            ≡ some wrap.content)
  unfolding wrap_seal
  wrap_seal-wrapped d now seal wrap recipient h =
      elim (Option-cases
        (encrypt_text c d.wrap_nonce (c.event_text seal) d.wrapper_private_key recipient)) [
          | inl k ↦
              let failed : wrap_seal c d now seal recipient ≡ none = rw (k, wrap_seal) refl in cc
          | inr (content, k) ↦
              let e =
                unsigned d.wrapper_public_key (random_past_timestamp now d.wrap_offset) 1059
                  (("p" ∷ recipient ∷ []) ∷ []) content in
              let done : wrap_seal c d now seal recipient ≡ sign_event c e d.wrapper_private_key =
                rw (k, wrap_seal) refl in
              let (same, author, kind, tags) =
                sign_event-content e wrap d.wrapper_private_key (sym done ∙ h) in
              (author, kind, tags, k ∙ ap some (sym same))
        ]
