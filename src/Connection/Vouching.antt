-- ===== src/Connection/Vouching.antt =====
-- Who the pubkeys of a session are, in every state that the object of src/durable-object.ts can
-- reach.
use open_dating.Prelude.{
  ◌≡◌, refl, ap, sym, String, List, ◌∷◌, none, some, ◌==◌, All, All-weaken, Memᴰ-All,
  insert_or_ignore-All,
}
use mathlib.Core.List.{Memᴰ}
use mathlib.Core.List.Memᴰ.{head, tail}
use open_dating.Events.Model.{Event, Platform}
use open_dating.Connection.State.{Session, Attachment, Relay, Env}
use open_dating.Connection.Checks.{Draft, event_of}
use open_dating.Connection.Socket.{
  Message, event_message, req_message, close_message, auth_message, other_message, no_array,
  no_json, handle_message, current_session, put_current, web_socket_message,
}
use open_dating.Connection.Replay.{IsVouching, check_auth-IsVouching}
use open_dating.Connection.Sessions.{HoldsOf, HoldsAt, Holds, handle_message-IsSound}
use open_dating.Connection.Turns.{
  accept_auth-IsSound, write_back-Holds, current_session-IsSound, connect-Holds,
  handle_do_broadcast-Holds, close-Holds, error-Holds, hibernate-Holds, alarm-Holds,
}
use open_dating.Connection.Reach.{
  Log, logged, Moves, connects, receives, closes, fails, hears, sleeps, rings, writes, Reach,
  starts, moves, IsVouched, AreVouched,
}

module _ (p : Platform) (log : Log) where
  later-IsVouched :
      (entry : String × Draft) (id pubkey : String)
      → IsVouched p log id pubkey
      → IsVouched p (entry ∷ log) id pubkey
  later-IsVouched entry id pubkey v = record {
    draft = v.draft;
    came = tail v.came;
    event = v.event;
    whole = v.whole;
    author = v.author;
    kind = v.kind;
    signed = v.signed;
  }

  logged-AreVouched :
      (i : String) (m : Message) (id : String) (pubkeys : List String)
      → AreVouched p log id pubkeys
      → AreVouched p (logged i m log) id pubkeys
  logged-AreVouched i (auth_message (some d)) id pubkeys h =
      All-weaken (IsVouched p log id) (IsVouched p ((i, d) ∷ log) id) pubkeys
        (later-IsVouched (i, d) id) h
  logged-AreVouched i (auth_message none) id pubkeys h = h
  logged-AreVouched i (event_message d) id pubkeys h = h
  logged-AreVouched i (req_message sub filters) id pubkeys h = h
  logged-AreVouched i (close_message sub) id pubkeys h = h
  logged-AreVouched i (other_message name) id pubkeys h = h
  logged-AreVouched i no_array id pubkeys h = h
  logged-AreVouched i no_json id pubkeys h = h

  logged-Holds :
      (i : String) (m : Message) (r : Relay)
      → Holds (AreVouched p log) r
      → Holds (AreVouched p (logged i m log)) r
  logged-Holds i m r (hs, ha) = (
    All-weaken (HoldsOf (AreVouched p log)) (HoldsOf (AreVouched p (logged i m log))) r.sessions
        (λ s. logged-AreVouched i m s.id s.authenticated_pubkeys) hs,
    All-weaken (HoldsAt (AreVouched p log)) (HoldsAt (AreVouched p (logged i m log))) r.sockets
        (λ a. logged-AreVouched i m a.session_id a.authenticated_pubkeys) ha,
  )

receives-Holds :
    (log : Log) (env : Env) (a : Attachment) (m : Message) (r : Relay)
    → Memᴰ a r.sockets
    → Holds (AreVouched env.platform log) r
    → Holds
        (AreVouched env.platform (logged a.session_id m log))
        (web_socket_message env a m r).relay
unfolding web_socket_message
receives-Holds log env a m r found h =
    let id = a.session_id in
    let P = AreVouched env.platform (logged id m log) in
    let later = logged-Holds env.platform log id m r h in
    let s = (current_session env a r).1 in
    write_back-Holds P env id m (handle_message env s m (put_current env a r)) (
      handle_message-IsSound P env id m
        (λ s r d e which whole valid sound.
          accept_auth-IsSound P env id s e r
            (insert_or_ignore-All (IsVouched env.platform (logged id m log) s.id)
              (λ p. p == e.pubkey) e.pubkey s.authenticated_pubkeys
              (new_one id m s d e which whole (check_auth-IsVouching env s e valid) sound.0.0)
              sound.0.1)
            sound)
        s (put_current env a r)
        (current_session-IsSound P env a r (Memᴰ-All (HoldsAt P) r.sockets later.1 found) later))
  where
    new_one :
        (id : String) (m : Message) (s : Session) (d : Draft) (e : Event)
        → m ≡ auth_message (some d)
        → event_of d ≡ some e
        → IsVouching env s e
        → s.id ≡ id
        → IsVouched env.platform (logged id m log) s.id e.pubkey
    new_one id m s d e which whole v same = rw which (record {
      draft = d;
      came = head (ap (λ i. (i, d)) same);
      event = e;
      whole = whole;
      author = refl;
      kind = v.kind;
      signed = v.signed;
    })

Moves-Holds :
    (p : Platform) {log log' : Log} {r r' : Relay}
    → Moves p log r log' r'
    → Holds (AreVouched p log) r
    → Holds (AreVouched p log') r'
Moves-Holds p {log} {log'} {r} {r'} (connects env id host l e) h =
    rw (l, e) (connect-Holds (AreVouched p log) env id host r tt h)
Moves-Holds p {log} {log'} {r} {r'} (receives env a m same found l e) h =
    rw (l, e, sym same) (receives-Holds log env a m r found (rw same h))
Moves-Holds p {log} {log'} {r} {r'} (closes id l e) h =
    rw (l, e) (close-Holds (AreVouched p log) id r h)
Moves-Holds p {log} {log'} {r} {r'} (fails id l e) h =
    rw (l, e) (error-Holds (AreVouched p log) id r h)
Moves-Holds p {log} {log'} {r} {r'} (hears env f l e) h =
    rw (l, e) (handle_do_broadcast-Holds (AreVouched p log) env f r h)
Moves-Holds p {log} {log'} {r} {r'} (sleeps l e) h =
    rw (l, e) (hibernate-Holds (AreVouched p log) r h)
Moves-Holds p {log} {log'} {r} {r'} (rings now_ms last l e) h =
    rw (l, e) (alarm-Holds (AreVouched p log) now_ms last r h)
Moves-Holds p {log} {log'} {r} {r'} (writes stores l e) h = rw (l, e) h

-- In every state that the object can reach, whatever comes in whatever order, each authenticated
-- pubkey of each session in memory and of each attachment has signed a complete event of kind
-- 22242, and this event has come in an AUTH message on that same session.
pub Reach-AreVouched :
    (p : Platform) (log : Log) (r : Relay)
    → Reach p log r
    → All (λ s. AreVouched p log s.id s.authenticated_pubkeys) r.sessions
      × All (λ a. AreVouched p log a.session_id a.authenticated_pubkeys) r.sockets
Reach-AreVouched p _ _ (starts stores) = (tt, tt)
Reach-AreVouched p _ _ (moves {log} {log'} {r} {r'} reached move) =
    Moves-Holds p move (Reach-AreVouched p log r reached)
