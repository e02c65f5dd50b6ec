-- ===== src/Housekeeper.antt =====
-- The maintenance of the tables: src/cloudflare/housekeeper.ts, with a database that answers. An
-- error of a statement counts as no change.
use open_dating.Prelude.{
  ℕ, zero, suc, ◌+◌, ◌*◌, Bool, false, none, some, List, [], ◌∷◌, ltb, if◌then◌else◌, changes,
  update, min,
}
use open_dating.Store.{Db, Grant, Processed, Quota, Seen}

abbrev pub maintenance_batch_size : ℕ
maintenance_batch_size = 200

abbrev pub maintenance_interval_ms : ℕ
maintenance_interval_ms = 300000

-- `DELETE … WHERE p LIMIT n`: the first `n` rows that the condition holds for.
unfoldable pub delete_at_most {ℓ} : {A : Type ℓ} → (A → Bool) → ℕ → List A → List A
delete_at_most p n [] = []
delete_at_most p zero (x ∷ xs) = x ∷ xs
delete_at_most p (suc n) (x ∷ xs) =
    let deleted = delete_at_most p n xs in
    let kept = delete_at_most p (suc n) xs in if p x then deleted else x ∷ kept

abbrev pub is_expired_grant : ℕ → Grant → Bool
is_expired_grant now g = elim g.expires_at [ none ↦ false | some t ↦ ltb t now ]

unfoldable pub prune_expired_grants : ℕ → Db → Db
prune_expired_grants now db = record db {
  od_candidate_grants =
      delete_at_most (is_expired_grant now) maintenance_batch_size db.od_candidate_grants;
}

abbrev pub is_expired_request : ℕ → Processed → Bool
is_expired_request now r = ltb r.expires_at now

unfoldable pub prune_expired_idempotency : ℕ → Db → Db
prune_expired_idempotency now db = record db {
  od_idempotency = delete_at_most (is_expired_request now) maintenance_batch_size db.od_idempotency;
}

unfoldable pub reset_daily_quotas : ℕ → Db → Db
reset_daily_quotas now db = record db {
  od_discovery_quotas =
      update (λ q. ltb q.daily_reset_at now)
        (λ q. record q {
          daily_candidates_served = 0;
          daily_likes_sent = 0;
          daily_reset_at = now + 86400;
          updated_at = now;
        })
        db.od_discovery_quotas;
}

-- `seen_at < now - 7 * 86400`.
abbrev pub is_stale_seen : ℕ → Seen → Bool
is_stale_seen now s = ltb (s.seen_at + 7 * 86400) now

unfoldable pub purge_stale_seen_candidates : ℕ → Db → Db
purge_stale_seen_candidates now db = record db {
  od_seen_candidates =
      delete_at_most (is_stale_seen now) maintenance_batch_size db.od_seen_candidates;
}

-- `HousekeeperCounts`.
pub record HousekeeperCounts : Type 0 where
  pub grants_pruned : ℕ
  pub idempotency_pruned : ℕ
  pub quotas_reset : ℕ
  pub seen_purged : ℕ

-- The module variable `lastMaintenanceAt` and the database.
pub record Housekeeper : Type 0 where
  pub last_maintenance_at : ℕ
  pub db : Db

abbrev no_counts : HousekeeperCounts
no_counts = record { grants_pruned = 0; idempotency_pruned = 0; quotas_reset = 0; seen_purged = 0 }

abbrev counts_of : ℕ → Db → HousekeeperCounts
counts_of now db = record {
  grants_pruned =
      min maintenance_batch_size (changes (is_expired_grant now) db.od_candidate_grants);
  idempotency_pruned =
      min maintenance_batch_size (changes (is_expired_request now) db.od_idempotency);
  quotas_reset = changes (λ (q : Quota). ltb q.daily_reset_at now) db.od_discovery_quotas;
  seen_purged = min maintenance_batch_size (changes (is_stale_seen now) db.od_seen_candidates);
}

-- A tick at a time in milliseconds and in seconds.
unfoldable pub run_housekeeper_tick : ℕ → ℕ → Housekeeper → HousekeeperCounts × Housekeeper
run_housekeeper_tick now_ms now h =
    if ltb now_ms (h.last_maintenance_at + maintenance_interval_ms) then (no_counts, h) else (
      counts_of now h.db,
      record {
        last_maintenance_at = now_ms;
        db = purge_stale_seen_candidates now (
            reset_daily_quotas now (prune_expired_idempotency now (prune_expired_grants now h.db)));
      },
    )
