-- ===== src/Services/Deletion.antt =====
-- Account deletion: src/protocols/opendating/services/deletion/service.ts.
use Prim.Native.String
use open_dating.Prelude.{
  ℕ, String, Bool, some, ◌==◌, ◌&&◌, ◌||◌, delete_from, update, insert_or_replace,
}
use open_dating.Json.{num, str, end, field, whole}
use open_dating.Crypto.Hex.{bytes_to_hex}
use open_dating.Store
use open_dating.Store.{Db, Intent, revoked, Match, unmatched_a, Grant}
use open_dating.World.{World, Run, ◌>>=◌, ◌>>◌, return, lift, execute}
use open_dating.Membership.Keys.{derive_member_id}
use open_dating.Membership.Members.{delete_statements}
use open_dating.Protocol.Envelope.{Envelope, create_envelope}
use open_dating.Protocol.Validation.{Request}
use open_dating.Services.DmPolicy.{is_open}

abbrev pub is_match_of : String → Match → Bool
is_match_of id m = m.member_a == id || m.member_b == id

abbrev pub is_block_with : String → Store.Block → Bool
is_block_with id k = k.blocker_member_id == id || k.blocked_member_id == id

abbrev pub is_grant_with : String → Grant → Bool
is_grant_with id g = g.viewer_id == id || g.candidate_id == id

-- The statements 2 to 6 of `handle`. The text of the time is a parameter: `String(now)`.
unfoldable pub erase_statements : String → String → ℕ → Db → Db
erase_statements id request_hash now db = record db {
  od_intents =
      update (λ i. i.from_member_id == id)
        (λ (i : Intent). record i { state = revoked; revoked_at = some now }) db.od_intents;
  od_matches =
      update (λ m. is_match_of id m && is_open m.state)
        (λ m. record m { state = unmatched_a; updated_at = now }) db.od_matches;
  od_blocks = delete_from (is_block_with id) db.od_blocks;
  od_candidate_grants = delete_from (is_grant_with id) db.od_candidate_grants;
  od_vanish_tombstones =
      insert_or_replace (λ t. t.member_id == id)
        (record {
          member_id = id;
          cutoff_timestamp = now;
          request_hash = request_hash;
          created_at = now;
        })
        db.od_vanish_tombstones;
}

abbrev pub request_hash_of : World → String → String
request_hash_of w sender =
    bytes_to_hex (w.sha256 (String.◌++◌ sender (w.text_of (num (whole w.now)))))

-- No call of `ensureMember` comes first.
unfoldable pub handle : World → Request → String → Run Envelope
handle w request sender = do
  id ← lift (derive_member_id w sender)
  execute (delete_statements w.now id)
  execute (erase_statements id (request_hash_of w sender) w.now)
  return (
      create_envelope w.now "account.delete.result" (str request.request_id) (
        field "deleted_at" (num (whole w.now))
          (field "tombstone_hash" (str (request_hash_of w sender)) end)))
