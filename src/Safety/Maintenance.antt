-- ===== src/Safety/Maintenance.antt =====
-- What the maintenance may remove: src/cloudflare/housekeeper.ts.
use open_dating.Prelude.{
  ℕ, String, zero, suc, ◌+◌, ◌≤◌, ◌<◌, min, Bool, true, false, Option, List, [], ◌∷◌, ◌≡◌, refl,
  ◌∙◌, ◌&&◌, not, ltb, exists, length, changes, exists-update, exists-eq-false, arith, Bool-cases,
  inl, inr,
}
use open_dating.Store.{Grant, Quota}
use open_dating.Services.Matcher.{is_valid_grant}
use open_dating.Transport.Idempotency.{is_request}
use open_dating.Housekeeper.{
  delete_at_most, is_expired_grant, is_expired_request, run_housekeeper_tick, Housekeeper,
  prune_expired_grants, prune_expired_idempotency, reset_daily_quotas, purge_stale_seen_candidates,
}

-- Deleting under a limit removes as many rows as satisfy the condition, up to the limit.
pub length-delete_at_most :
    {A : Type 0} (p : A → Bool) (n : ℕ) (xs : List A)
    → length (delete_at_most p n xs) + min n (changes p xs) ≡ length xs
unfolding delete_at_most changes
length-delete_at_most p n [] = ground arith
length-delete_at_most p zero (x ∷ xs) = ground arith
length-delete_at_most p (suc n) (x ∷ xs) =
    ground (arith, length-delete_at_most p n xs, length-delete_at_most p (suc n) xs)

-- It keeps every row that the condition does not hold for.
exists-delete_at_most :
    {A : Type 0} (p q : A → Bool) (n : ℕ) (xs : List A)
    → ((x : A) → q x ≡ true → p x ≡ false)
    → exists q (delete_at_most p n xs) ≡ exists q xs
unfolding delete_at_most exists
exists-delete_at_most p q n [] h = refl
exists-delete_at_most p q zero (x ∷ xs) h = refl
exists-delete_at_most p q (suc n) (x ∷ xs) h =
    ground (arith, h x, exists-delete_at_most p q n xs h, exists-delete_at_most p q (suc n) xs h)

valid-unexpired :
    (now : ℕ) (viewer candidate : String) (token : Option String) (g : Grant)
    → is_valid_grant viewer candidate token now g ≡ true
    → is_expired_grant now g ≡ false
valid-unexpired now viewer candidate token g h = ground (arith, h)

module _ (now_ms now : ℕ) (h : Housekeeper) where
  -- A tick of the maintenance, run or skipped, takes away no grant by which a like would be
  -- accepted at that time, and no unexpired record of a processed request.
  pub run_housekeeper_tick-keeps :
      (viewer candidate service sender id : String) (token : Option String)
      → (exists
            (is_valid_grant viewer candidate token now)
            (run_housekeeper_tick now_ms now h).1.db.od_candidate_grants
          ≡ exists (is_valid_grant viewer candidate token now) h.db.od_candidate_grants)
        × (exists
              (λ r. is_request service sender id r && not (is_expired_request now r))
              (run_housekeeper_tick now_ms now h).1.db.od_idempotency
            ≡ exists
                (λ r. is_request service sender id r && not (is_expired_request now r))
                h.db.od_idempotency)
  unfolding run_housekeeper_tick prune_expired_grants prune_expired_idempotency reset_daily_quotas
      purge_stale_seen_candidates
  run_housekeeper_tick-keeps viewer candidate service sender id token =
      let g =
        exists-delete_at_most (is_expired_grant now) (is_valid_grant viewer candidate token now) 200
          h.db.od_candidate_grants (valid-unexpired now viewer candidate token) in
      let r =
        exists-delete_at_most (is_expired_request now)
          (λ r. is_request service sender id r && not (is_expired_request now r)) 200
          h.db.od_idempotency (λ x k. ground (arith, k)) in
      elim (Bool-cases (ltb now_ms (h.last_maintenance_at + 300000))) [
        | inl e ↦ rw (e, run_housekeeper_tick) (refl, refl)
        | inr e ↦ rw (e, run_housekeeper_tick) (g, r)
      ]

  -- After a tick that runs no quota is past its reset time; a second tick less than five minutes
  -- later counts nothing and changes nothing.
  pub run_housekeeper_tick-resets :
      (later later_now : ℕ)
      → h.last_maintenance_at + 300000 ≤ now_ms
      → later < now_ms + 300000
      → (exists
            (λ q. ltb q.daily_reset_at now)
            (run_housekeeper_tick now_ms now h).1.db.od_discovery_quotas
          ≡ false)
        × ((run_housekeeper_tick later later_now (run_housekeeper_tick now_ms now h).1).1
            ≡ (run_housekeeper_tick now_ms now h).1)
  unfolding run_housekeeper_tick reset_daily_quotas purge_stale_seen_candidates prune_expired_grants
      prune_expired_idempotency
  run_housekeeper_tick-resets later later_now l k =
      let e : ltb now_ms (h.last_maintenance_at + 300000) ≡ false = ground arith in
      let f : ltb later (now_ms + 300000) ≡ true = ground arith in
      let quotas =
        exists-update (λ (q : Quota). ltb q.daily_reset_at now) (λ q. ltb q.daily_reset_at now)
          (λ _. false)
          (λ q. record q {
            daily_candidates_served = 0;
            daily_likes_sent = 0;
            daily_reset_at = now + 86400;
            updated_at = now;
          })
          h.db.od_discovery_quotas (λ q. ground arith)
        ∙ exists-eq-false (λ _. false) h.db.od_discovery_quotas (λ _. refl) in
      rw (e, run_housekeeper_tick) (quotas, rw (f, run_housekeeper_tick) refl)
