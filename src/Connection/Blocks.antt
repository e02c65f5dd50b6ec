-- ===== src/Connection/Blocks.antt =====
-- A block reaches the relay: `createBlock` of src/protocols/opendating/services/block/service.ts
-- with the policy for private messages in `handleEvent` of src/durable-object.ts.
use open_dating.Prelude.{◌≡◌, refl, ◌⊎◌, inl, inr, String, true, none, some, first, ok, eqb}
use open_dating.Protocol.Validation.{Request}
use open_dating.Services.Block.{create_block}
use open_dating.Services.DmPolicy.{blocked, check_direct_message_policy}
use open_dating.Safety.Blocking.{IsAimed, create_block-IsSevered}
use open_dating.Events.Model.{Event, or_empty, find_tag}
use open_dating.Connection.State.{Session, Relay, Env}
use open_dating.Connection.Checks.{check_gift_wrap, first_pubkey}
use open_dating.Connection.Publish.{publish_event}
use open_dating.Connection.Admission.{publish_event-HasCleared}

-- A block that a member sets, on the databases of the relay.
abbrev pub with_block : Env → String → Request → String → Relay → Relay
with_block env member request sender r = record r {
  stores = record r.stores { db = (create_block env.world member request sender r.stores.db).1 };
}

refuses :
    (env : Env) (s : Session) (e : Event) (r : Relay)
    → eqb e.kind 1059 ≡ true
    → check_direct_message_policy env.world
        (or_empty (first_pubkey s.authenticated_pubkeys))
        (find_tag "p" e.tags)
        r.stores.db
      ≡ ok blocked
    → check_gift_wrap env s e r ≡ some "blocked: od:blocked"
unfolding check_gift_wrap
refuses env s e r kind h = rw (kind, h, check_gift_wrap) refl

module _ (env : Env) (request : Request) (sender t member target : String) (e : Event)
    (alone : first (λ h. h.can_handle_event e) env.handlers ≡ none)
    (aimed : IsAimed env.world request sender t member target)
    (gift_wrap : eqb e.kind 1059 ≡ true) where
  -- After a member has blocked another, a gift wrap between the two, in either direction, changes
  -- neither database, where no extension takes it: the sender is the first authenticated pubkey of
  -- the connection, and the recipient stands in the first `p` tag.
  pub publish_event-create_block :
      (s : Session) (r : Relay)
      → ((first_pubkey s.authenticated_pubkeys ≡ some sender) × (find_tag "p" e.tags ≡ some t))
        ⊎ ((first_pubkey s.authenticated_pubkeys ≡ some t) × (find_tag "p" e.tags ≡ some sender))
      → (publish_event env s e (with_block env member request sender r)).relay.stores
        ≡ (with_block env member request sender r).stores
  publish_event-create_block s r parties =
      let severed =
        create_block-IsSevered env.world request sender t member target r.stores.db aimed in
      let after = with_block env member request sender r in
      let refused : check_gift_wrap env s e after ≡ some "blocked: od:blocked" =
        refuses env s e after gift_wrap (elim parties [
          | inl (from, to) ↦ rw (from, to) severed.1
          | inr (from, to) ↦ rw (from, to) severed.2
        ]) in
      elim (publish_event-HasCleared env e alone s after) [
        | inl same ↦ same
        | inr (admitted, _) ↦ let open_way = admitted.wrapped in cc
      ]
