-- ===== src/Membership/Storage.antt =====
-- What is stored encrypted reads back: src/protocols/opendating/storage/d1/membership.ts.
use mathlib.Core.Option
use open_dating.Prelude.{
  ℕ, ◌<◌, String, false, Option, some, none, ◌≡◌, refl, ap, sym, ◌∙◌, ◌==◌, List, [], ◌∷◌, ◌++◌,
  length, take, drop, All, ok, first, first-upsert, append-All, take-append, drop-append, arith,
  eq_refl, eq_iff, Bool-cases, inl, inr,
}
use open_dating.Json.{Fields, obj}
use open_dating.Text.{is_empty}
use open_dating.Crypto.Hex.{bytes_to_hex, hex_to_bytes-bytes_to_hex}
use open_dating.Store.{Db, Profile}
use open_dating.World.{World}
use open_dating.Membership.Keys.{derive_member_id, get_data_key, encrypt_string, decrypt_string}
use open_dating.Membership.Members.{is_profile}
use open_dating.Membership.Profiles.{
  content_of, read_payload, get_profile_content_by_member_id, get_profile_content,
  update_profile_content, write_profile, profile_completeness,
}

-- A text that was encrypted under an iv of 12 bytes decrypts to itself under the same key, with
-- an AES-GCM that decrypts what it encrypts.
pub decrypt_string-encrypt_string :
    (w : World) (iv key : List ℕ) (text : String)
    → w.decrypt key iv (w.encrypt key iv text) ≡ some text
    → All (λ b. b < 256) (w.encrypt key iv text)
    → length iv ≡ 12
    → All (λ b. b < 256) iv
    → decrypt_string w (encrypt_string w iv text key) key ≡ ok text
unfolding decrypt_string encrypt_string
decrypt_string-encrypt_string w iv key text same bytes h b =
    let c = w.encrypt key iv text in
    let t : take 12 (iv ++ c) ≡ iv = rw (sym h) (take-append iv c) in
    let d : drop 12 (iv ++ c) ≡ c = rw (sym h) (drop-append iv c) in
    rw
      (hex_to_bytes-bytes_to_hex (iv ++ c) (append-All (λ b. b < 256) iv c b bytes), decrypt_string)
      (rw (t, d, same) refl)

hex_nonempty : (b : ℕ) (bs : List ℕ) → (bytes_to_hex (b ∷ bs) == "") ≡ false
unfolding bytes_to_hex
hex_nonempty b bs = elim (Bool-cases (bytes_to_hex (b ∷ bs) == "")) [
  | inl h ↦ absurd (ground (arith, ap is_empty ((eq_iff (bytes_to_hex (b ∷ bs)) "").0 h)))
  | inr h ↦ h
]

encrypt_string-nonempty :
    (w : World) (iv key : List ℕ) (text : String)
    → length iv ≡ 12
    → (encrypt_string w iv text key == "") ≡ false
unfolding encrypt_string
encrypt_string-nonempty w [] key text h = absurd (ground arith)
encrypt_string-nonempty w (b ∷ iv) key text h = hex_nonempty b (iv ++ w.encrypt key (b ∷ iv) text)

-- The libraries give back what they are given: AES-GCM a text, JSON the content.
pub record Restores (w : World) (key : List ℕ) (content : Fields) : Type 0 where
  pub decrypts :
      w.decrypt key w.profile_iv (w.encrypt key w.profile_iv (w.stringify (obj content)))
      ≡ some (w.stringify (obj content))
  pub bytes : All (λ b. b < 256) (w.encrypt key w.profile_iv (w.stringify (obj content)))
  pub parses : w.parse (w.stringify (obj content)) ≡ some (obj content)

read_payload-encrypt_string :
    (w : World) (key : List ℕ) (content : Fields)
    → Restores w key content
    → get_data_key w ≡ ok key
    → length w.profile_iv ≡ 12
    → All (λ b. b < 256) w.profile_iv
    → read_payload w (some (encrypt_string w w.profile_iv (w.stringify (obj content)) key))
      ≡ some (obj content)
read_payload-encrypt_string w key content r k h b =
    let text = w.stringify (obj content) in
    rw (encrypt_string-nonempty w w.profile_iv key text h) (
      rw k (
        rw (decrypt_string-encrypt_string w w.profile_iv key text r.decrypts r.bytes h b) r.parses))

content_of-get_or :
    (w : World) (enc : Option String) (row : Profile) (f : Profile → Profile) (p : Option Profile)
    → row.encrypted_profile_payload ≡ enc
    → ((x : Profile) → (f x).encrypted_profile_payload ≡ enc)
    → content_of w (some (Option.get_or (Option.map f p) row)) ≡ read_payload w enc
content_of-get_or w enc row f none h k = ap (read_payload w) h
content_of-get_or w enc row f (some p) h k = ap (read_payload w) (k p)

content_of-write_profile :
    (w : World) (id enc : String) (content : Fields) (completeness now : ℕ) (db : Db)
    → content_of w
        (first (is_profile id) (write_profile id enc content completeness now db).od_profiles)
      ≡ read_payload w (some enc)
unfolding write_profile
content_of-write_profile w id enc content completeness now db =
    ap (content_of w) (first-upsert (is_profile id) _ _ db.od_profiles (eq_refl id) (λ x h. h))
    ∙ content_of-get_or w (some enc) _ _ (first (is_profile id) db.od_profiles) refl (λ x. refl)

-- The content that a `profile.update` stores is the content that is read back for the same member,
-- whether there was a profile before or not, with the key material in place, an iv of 12 bytes, and
-- libraries that decrypt what they encrypt and parse what they print.
pub get_profile_content-update_profile_content :
    (w : World) (pubkey id : String) (key : List ℕ) (content : Fields) (db : Db)
    → Restores w key content
    → derive_member_id w pubkey ≡ ok id
    → get_data_key w ≡ ok key
    → length w.profile_iv ≡ 12
    → All (λ b. b < 256) w.profile_iv
    → (get_profile_content w pubkey (update_profile_content w pubkey content db).1).0
      ≡ ok (some (obj content))
unfolding get_profile_content update_profile_content get_profile_content_by_member_id
get_profile_content-update_profile_content w pubkey id key content db r d k h b =
    let enc = encrypt_string w w.profile_iv (w.stringify (obj content)) key in
    rw (d, get_profile_content)
      (rw k (
        ap ok (
          content_of-write_profile w id enc content (profile_completeness w content) w.now db
          ∙ read_payload-encrypt_string w key content r k h b)))
