-- ===== src/Transport/Idempotency.antt =====
-- The store of processed requests: src/protocols/opendating/storage/d1/idempotency.ts, with a
-- database that answers. Each method catches the database's errors: `isDuplicate` then returns
-- false, `record` does nothing and `pruneExpired` returns 0.
use open_dating.Prelude.{
  ℕ, ◌+◌, String, Bool, ◌==◌, ◌&&◌, exists, insert_or_ignore, delete_from, changes, ltb,
}
use open_dating.Store.{Db, Processed}
use open_dating.Protocol.Envelope.{od_idempotency_retention_sec}

abbrev pub is_request : String → String → String → Processed → Bool
is_request service sender id r =
    r.service_pubkey == service && r.sender_pubkey == sender && r.request_id == id

unfoldable pub is_duplicate : String → String → String → Db → Bool
is_duplicate service sender id db = exists (is_request service sender id) db.od_idempotency

unfoldable pub record_request : ℕ → String → String → String → String → Db → Db
record_request now service sender id kind db = record db {
  od_idempotency =
      insert_or_ignore (is_request service sender id)
        (record {
          service_pubkey = service;
          sender_pubkey = sender;
          request_id = id;
          request_type = kind;
          created_at = now;
          expires_at = now + od_idempotency_retention_sec;
        })
        db.od_idempotency;
}

-- The number of deleted rows, and the database.
unfoldable pub prune_expired : ℕ → Db → ℕ × Db
prune_expired now db = (
  changes (λ r. ltb r.expires_at now) db.od_idempotency,
  record db { od_idempotency = delete_from (λ r. ltb r.expires_at now) db.od_idempotency },
)
