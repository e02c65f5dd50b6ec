-- ===== src/World.antt =====
-- What a handler finds around it: the key material of the process, the clock, and the functions of
-- the third-party libraries and the platform, which are parameters. `Run` is a computation on the
-- database that returns or throws; what was written before an error stays written.
pub mod Frames
use open_dating.Prelude.{
  ℕ, ◌<◌, ◌≡◌, String, Bool, Option, none, some, List, Result, ok, thrown, All,
}
use open_dating.Json.{Json, null, bool, num, str, arr, obj}
use open_dating.Store.{Db}

-- The module variables `_indexKey`, `_dataKeyRaw` and `_usingDevKeys` of membership.ts.
pub record Keys : Type 0 where
  pub index_key : Option (List ℕ)
  pub data_key_raw : Option (List ℕ)
  pub using_dev_keys : Bool

pub record World : Type 0 where
  pub keys : Keys
  -- `Math.floor(Date.now() / 1000)`; the clock is read once for a request.
  pub now : ℕ
  -- The random bytes drawn for the encryption of a pubkey and of a profile.
  pub member_iv : List ℕ
  pub profile_iv : List ℕ
  -- `hmac(sha256, key, message)` of @noble/hashes.
  pub hmac : List ℕ → List ℕ → List ℕ
  -- `sha256(new TextEncoder().encode(text))`.
  pub sha256 : String → List ℕ
  -- AES-GCM of WebCrypto under a key and an iv, with the UTF-8 coding of the text.
  pub encrypt : List ℕ → List ℕ → String → List ℕ
  pub decrypt : List ℕ → List ℕ → List ℕ → Option String
  -- `String(j)` for a value that is no string.
  pub text_of : Json → String
  -- The text that a TEXT column holds of a bound number or Boolean.
  pub column_text : Json → String
  -- `btoa` and `atob` on Latin-1 text; none is an error.
  pub to_base64 : String → String
  pub from_base64 : String → Option String
  -- `JSON.stringify` and `JSON.parse`; none is a SyntaxError.
  pub stringify : Json → String
  pub parse : String → Option Json

abbrev pub Run {ℓ} : Type ℓ → Type ℓ
Run A = Db → Result A × Db

infixl 5 ◌>>=◌ ◌>>◌
abbrev pub ◌>>=◌ {ℓ κ} : {A : Type ℓ} {B : Type κ} → Run A → (A → Run B) → Run B
◌>>=◌ m f db = let (r, db') = m db in elim r [ ok a ↦ f a db' | thrown e ↦ (thrown e, db') ]

abbrev pub ◌>>◌ {ℓ} : {B : Type ℓ} → Run (Unit {0}) → Run B → Run B
m >> k = m >>= λ _. k

abbrev pub return {ℓ} : {A : Type ℓ} → A → Run A
return a db = (ok a, db)

abbrev pub throw {ℓ} : {A : Type ℓ} → String → Run A
throw e db = (thrown e, db)

abbrev pub lift {ℓ} : {A : Type ℓ} → Result A → Run A
lift r db = (r, db)

-- A read of the database.
abbrev pub query {ℓ} : {A : Type ℓ} → (Db → A) → Run A
query f db = (ok (f db), db)

-- A statement that writes.
abbrev pub execute : (Db → Db) → Run (Unit {0})
execute f db = (ok tt, f db)

-- A value bound to a TEXT NOT NULL column: the database refuses `undefined`, null and compounds.
abbrev pub bind_text : World → Option Json → Result String
bind_text w none = thrown "D1_TYPE_ERROR"
bind_text w (some null) = thrown "NOT NULL constraint failed"
bind_text w (some (bool b)) = ok (w.column_text (bool b))
bind_text w (some (num n)) = ok (w.column_text (num n))
bind_text w (some (str s)) = ok s
bind_text w (some (arr js)) = thrown "D1_TYPE_ERROR"
bind_text w (some (obj fs)) = thrown "D1_TYPE_ERROR"
