-- ===== src/Safety/Moderation.antt =====
-- What a moderator's action changes: src/protocols/opendating/services/moderation/service.ts.
use open_dating.Prelude.{
  String, true, some, List, [], ◌∷◌, ◌++◌, ◌≡◌, ◌≢◌, refl, ◌∙◌, ◌==◌, ◌||◌, ok, thrown, arith,
  Bool-cases, inl, inr, ◌⊎◌, Option-cases, Result-cases,
}
use open_dating.Json.{str, get}
use open_dating.Store.{Db, ModerationAction, Member, Profile, IndexRow}
use open_dating.World.{World, bind_text}
use open_dating.World.Frames.{bind-ok, bind-thrown}
use open_dating.Protocol.Validation.{Request}
use open_dating.Protocol.Envelope.{Envelope}
use open_dating.Services.Moderation.{
  apply_action, act, act_as, act_on, action_row, sanction_reply, insert_error, insert_action,
  apply_sanction, is_moderator,
}

-- The tables that say who may use the service and who is shown.
abbrev pub members_of : Db → List Member × List Profile × List IndexRow
members_of db = (db.od_members, db.od_profiles, db.od_discovery_index)

insert_action-cases :
    (row : ModerationAction) (db : Db)
    → ((e : String) × (insert_action row db ≡ (thrown e, db)))
      ⊎ (insert_action row db
          ≡ (ok tt, record db { od_moderation_actions = db.od_moderation_actions ++ row ∷ [] }))
unfolding insert_action
insert_action-cases row db = elim (Option-cases (insert_error row db)) [
  | inl n ↦ inr (rw (n, insert_action) refl)
  | inr (e, h) ↦ inl (e, rw (h, insert_action) refl)
]

-- What follows a step that writes to another table, or fails.
act_on-insert_action :
    (w : World) (request : Request) (sender target kind reason : String) (db : Db)
    → ((e : String) × (act_on w request sender target kind reason db ≡ (thrown e, db)))
      ⊎ ((d : Db) × (members_of d ≡ members_of db)
          × (act_on w request sender target kind reason db
              ≡ sanction_reply w request sender target reason d))
unfolding act_on
act_on-insert_action w request sender target kind reason db =
    let row = action_row w request sender target kind reason in
    let after = record db { od_moderation_actions = db.od_moderation_actions ++ row ∷ [] } in
    let k = λ (_ : Unit {0}). sanction_reply w request sender target reason in
    elim (insert_action-cases row db) [
      | inl (e, h) ↦ inl (e, bind-thrown (insert_action row) k db h)
      | inr h ↦ inr (after, refl, bind-ok (insert_action row) k db h)
    ]

sanction_reply-members :
    (w : World) (request : Request) (sender target reason : String) (db : Db)
    → members_of (sanction_reply w request sender target reason db).1 ≡ members_of db
unfolding sanction_reply apply_sanction
sanction_reply-members w request sender target reason db = ground arith

act_on-members :
    (w : World) (request : Request) (sender target kind reason : String) (db : Db)
    → members_of (act_on w request sender target kind reason db).1 ≡ members_of db
act_on-members w request sender target kind reason db =
    elim (act_on-insert_action w request sender target kind reason db) [
      | inl (e, h) ↦ rw h refl
      | inr (d, same, h) ↦ rw h (sanction_reply-members w request sender target reason d ∙ same)
    ]

act-members :
    (w : World) (request : Request) (sender : String) (db : Db)
    → members_of (act w request sender db).1 ≡ members_of db
unfolding act
act-members w request sender db =
    elim (Result-cases (bind_text w (get "target_member_id" request.payload))) [
      | inr (_, e) ↦ rw (e, act) refl
      | inl (target, e) ↦ elim (Result-cases (bind_text w (get "action_type" request.payload))) [
        | inr (_, f) ↦ rw (e, act) (rw f refl)
        | inl (kind, f) ↦ elim (Result-cases (bind_text w (get "reason" request.payload))) [
          | inr (_, g) ↦ rw (e, act) (rw f (rw g refl))
          | inl (reason, g) ↦
              rw (e, act) (rw f (rw g (act_on-members w request sender target kind reason db)))
        ]
      ]
    ]

-- No action of a moderator changes a membership, a profile or a row of the discovery index: a
-- sanction is written down and nothing else.
pub apply_action-members :
    (w : World) (request : Request) (sender : String) (db : Db)
    → members_of (apply_action w request sender db).1 ≡ members_of db
unfolding apply_action act_as
apply_action-members w request sender db = elim (Bool-cases (is_moderator sender db)) [
  | inl h ↦ rw h (act-members w request sender db)
  | inr h ↦ rw h refl
]

sanction_reply-thrown :
    (w : World) (request : Request) (sender target reason action : String) (db : Db)
    → get "action_type" request.payload ≡ some (str action)
    → (action == "suspend" || action == "ban") ≡ true
    → (e : Envelope) → (sanction_reply w request sender target reason db).0 ≢ ok e
unfolding sanction_reply apply_sanction
sanction_reply-thrown w request sender target reason action db h k e =
    rw (h, sanction_reply, apply_sanction) (rw k (λ p. ground (arith, p)))

act_on-thrown :
    (w : World) (request : Request) (sender target kind reason action : String) (db : Db)
    → get "action_type" request.payload ≡ some (str action)
    → (action == "suspend" || action == "ban") ≡ true
    → (e : Envelope) → (act_on w request sender target kind reason db).0 ≢ ok e
act_on-thrown w request sender target kind reason action db h k e =
    elim (act_on-insert_action w request sender target kind reason db) [
      | inl (_, f) ↦ rw f (λ p. ground (arith, p))
      | inr (d, _, f) ↦ rw f (sanction_reply-thrown w request sender target reason action d h k e)
    ]

act-thrown :
    (w : World) (request : Request) (sender action : String) (db : Db)
    → get "action_type" request.payload ≡ some (str action)
    → (action == "suspend" || action == "ban") ≡ true
    → (e : Envelope) → (act w request sender db).0 ≢ ok e
unfolding act
act-thrown w request sender action db h k r =
    elim (Result-cases (bind_text w (get "target_member_id" request.payload))) [
      | inr (_, e) ↦ rw (e, act) (λ p. ground (arith, p))
      | inl (target, e) ↦ elim (Result-cases (bind_text w (get "reason" request.payload))) [
        | inr (_, g) ↦ rw (e, act) (rw h (rw g (λ p. ground (arith, p))))
        | inl (reason, g) ↦
            rw (e, act)
              (rw h (rw g (act_on-thrown w request sender target action reason action db h k r)))
      ]
    ]

-- A suspension or a ban is never confirmed: the request of a moderator that asks for one returns no
-- envelope, it throws.
pub apply_action-ne-ok :
    (w : World) (request : Request) (sender action : String) (db : Db)
    → is_moderator sender db ≡ true
    → get "action_type" request.payload ≡ some (str action)
    → (action == "suspend" || action == "ban") ≡ true
    → (e : Envelope) → (apply_action w request sender db).0 ≢ ok e
unfolding apply_action act_as
apply_action-ne-ok w request sender action db m h k e =
    rw m (act-thrown w request sender action db h k e)
