-- ===== src/Gateway/Opening.antt =====
-- A gift wrap is read as it was written: `buildGiftWrap` of
-- src/protocols/opendating/crypto/gift-wrap.ts with `decryptAndParse` of extension.ts.
use open_dating.Prelude.{ℕ, ◌≡◌, refl, sym, ap, ◌∙◌, String, true, some, [], ◌∷◌}
use open_dating.Json.{str, obj, Fields, get, as_string}
use open_dating.Crypto.Payload.{IsStandard}
use open_dating.Crypto.RoundTrip.{IsText}
use open_dating.World.{World}
use open_dating.Events.Model.{Event}
use open_dating.Gateway.Identities.{Signer, get_signer, is_service_pubkey}
use open_dating.Gateway.Wraps.{
  Crypto, Draws, decrypt_text, make_rumor, make_seal, wrap_seal, build_gift_wrap,
}
use open_dating.Gateway.Incoming.{
  Gateway, first_service, is_addressed_to_service, open_layer, envelope_of, text_is, has_kind,
  decrypt_and_parse,
}
use open_dating.Gateway.Layers.{
  IsNonce, decrypt_text-encrypt_text, make_seal-sealed, wrap_seal-wrapped,
}

-- The JSON text of an event reads back, as far as the extension reads it.
pub record IsReadBack (w : World) (c : Crypto) (e : Event) : Type 0 where
  pub coded : IsText c.primitives (c.event_text e)
  pub fields : Fields
  pub reads : w.parse (c.event_text e) ≡ some (obj fields)
  pub kind : has_kind e.kind fields ≡ true
  pub author : get "pubkey" fields ≡ some (str e.pubkey)
  pub content : get "content" fields ≡ some (str e.content)

open_layer-read :
    (w : World) (c : Crypto) (e : Event) (content pubkey private_key : String)
    (back : IsReadBack w c e)
    → decrypt_text c content private_key pubkey ≡ some (c.event_text e)
    → open_layer w.parse c e.kind (some content) (some pubkey) private_key ≡ some back.fields
unfolding open_layer
open_layer-read w c e content pubkey private_key back h =
    rw (h, open_layer, back.reads, back.kind) refl

-- The service is known with its key, and both parties of each layer have the same conversation
-- key.
pub record IsDelivery (g : Gateway) (d : Draws) (private_key public_key service : String)
    (signer : Signer) : Type 0 where
  pub known : get_signer service g.identities ≡ some signer
  pub registered : is_service_pubkey service g.identities ≡ true
  pub seal_keys :
      g.crypto.conversation_key signer.private_key public_key
      ≡ g.crypto.conversation_key private_key service
  pub wrap_keys :
      g.crypto.conversation_key signer.private_key d.wrapper_public_key
      ≡ g.crypto.conversation_key d.wrapper_private_key service
  pub seal_nonce : IsNonce d.seal_nonce
  pub wrap_nonce : IsNonce d.wrap_nonce

-- The content is the JSON text of an OpenDating envelope.
pub record IsEnvelope (w : World) (content : String) (envelope : Fields) : Type 0 where
  pub reads : w.parse content ≡ some (obj envelope)
  pub protocol : text_is "opendating" (as_string (get "protocol" envelope)) ≡ true

envelope_of-read :
    (w : World) (content : String) (envelope rumor : Fields)
    → IsEnvelope w content envelope
    → get "content" rumor ≡ some (str content)
    → envelope_of w.parse w.text_of rumor ≡ some envelope
unfolding envelope_of
envelope_of-read w content envelope rumor e h = rw (h, envelope_of, e.reads, e.protocol) refl

module _ (g : Gateway) (d : Draws) (private_key public_key service : String) (signer : Signer)
    (way : IsDelivery g d private_key public_key service signer) where
  addressed :
      (wrap : Event)
      → wrap.kind ≡ 1059
      → wrap.tags ≡ ("p" ∷ service ∷ []) ∷ []
      → is_addressed_to_service g.identities wrap ≡ some service
  unfolding is_addressed_to_service first_service
  addressed wrap kind tags = rw (kind, tags, way.registered) refl

  -- The two layers and the envelope, once the two texts are known.
  layers-read :
      (wrap seal rumor : Event) (content : String) (envelope : Fields)
      → (seal_back : IsReadBack g.world g.crypto seal)
      → (rumor_back : IsReadBack g.world g.crypto rumor) → seal.kind ≡ 13
      → rumor.kind ≡ 78
      → rumor.content ≡ content
      → decrypt_text g.crypto wrap.content signer.private_key wrap.pubkey
        ≡ some (g.crypto.event_text seal)
      → decrypt_text g.crypto seal.content signer.private_key seal.pubkey
        ≡ some (g.crypto.event_text rumor)
      → IsEnvelope g.world content envelope
      → decrypt_and_parse g wrap service ≡ some (envelope, seal.pubkey)
  unfolding decrypt_and_parse
  layers-read wrap seal rumor content envelope seal_back rumor_back seal_kind rumor_kind same outer
        inner e =
      let first_layer : open_layer g.world.parse g.crypto 13 (some wrap.content) (some wrap.pubkey)
            signer.private_key
          ≡ some seal_back.fields =
        rw (sym seal_kind) (
          open_layer-read g.world g.crypto seal wrap.content wrap.pubkey signer.private_key
            seal_back outer) in
      let second_layer : open_layer g.world.parse g.crypto 78 (some seal.content) (some seal.pubkey)
            signer.private_key
          ≡ some rumor_back.fields =
        rw (sym rumor_kind) (
          open_layer-read g.world g.crypto rumor seal.content seal.pubkey signer.private_key
            rumor_back inner) in
      let read =
        envelope_of-read g.world content envelope rumor_back.fields e
          (rumor_back.content ∙ ap (λ t. some (str t)) same) in
      rw
        (
          way.known, decrypt_and_parse, first_layer, seal_back.content, seal_back.author,
          second_layer, read,
        )
        (rw seal_back.author refl)

  module _ (std : IsStandard g.crypto.primitives) (now : ℕ) (content : String)
      (envelope : Fields) where
    wrap_of_built :
        (seal wrap : Event)
        → make_seal g.crypto d now
            (make_rumor g.crypto now 78 content public_key)
            private_key
            service
          ≡ some seal
        → build_gift_wrap g.crypto d now 78 content private_key public_key service ≡ some wrap
        → wrap_seal g.crypto d now seal service ≡ some wrap
    unfolding build_gift_wrap
    wrap_of_built seal wrap sealed built =
        let through : build_gift_wrap g.crypto d now 78 content private_key public_key service
            ≡ wrap_seal g.crypto d now seal service =
          rw (sealed, build_gift_wrap) refl in
        sym through ∙ built

    -- A gift wrap that is built for a service is addressed to it, and the service reads from it
    -- the envelope that was written, with the pubkey of the one who wrote it as its sender. The
    -- JSON texts of the rumor and the seal read back, as UTF-8 and as JSON.
    pub decrypt_and_parse-build_gift_wrap :
        (seal wrap : Event)
        → make_seal g.crypto d now
            (make_rumor g.crypto now 78 content public_key)
            private_key
            service
          ≡ some seal
        → build_gift_wrap g.crypto d now 78 content private_key public_key service ≡ some wrap
        → IsReadBack g.world g.crypto (make_rumor g.crypto now 78 content public_key)
        → IsReadBack g.world g.crypto seal
        → IsEnvelope g.world content envelope
        → (is_addressed_to_service g.identities wrap ≡ some service)
          × (decrypt_and_parse g wrap service ≡ some (envelope, public_key))
    unfolding make_rumor
    decrypt_and_parse-build_gift_wrap seal wrap sealed built rumor_back seal_back e =
        let c = g.crypto in
        let rumor = make_rumor c now 78 content public_key in
        let (author, kind, seal_text) =
          make_seal-sealed c std d now rumor seal private_key service sealed in
        let (wrapper, wrap_kind, tags, wrap_text) =
          wrap_seal-wrapped c std d now seal wrap service (wrap_of_built seal wrap sealed built) in
        let outer : decrypt_text c wrap.content signer.private_key wrap.pubkey
            ≡ some (c.event_text seal) =
          rw wrapper (
            decrypt_text-encrypt_text c std d.wrap_nonce (c.event_text seal) wrap.content
              d.wrapper_private_key service signer.private_key d.wrapper_public_key way.wrap_nonce
              seal_back.coded way.wrap_keys wrap_text) in
        let inner : decrypt_text c seal.content signer.private_key seal.pubkey
            ≡ some (c.event_text rumor) =
          rw author (
            decrypt_text-encrypt_text c std d.seal_nonce (c.event_text rumor) seal.content
              private_key service signer.private_key public_key way.seal_nonce rumor_back.coded
              way.seal_keys seal_text) in
        (
          addressed wrap wrap_kind tags,
          layers-read wrap seal rumor content envelope seal_back rumor_back kind refl refl outer
                inner e
              ∙ ap (λ t. some (envelope, t)) author,
        )
