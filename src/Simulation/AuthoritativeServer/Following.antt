-- ===== src/Simulation/AuthoritativeServer/Following.antt =====
-- A client that receives a snapshot of the server and then all that the server sends.
use mathlib.Core.Path.{subst}
use hzl_silicon_switch_lab.Base.{
  ℕ, ◌+◌, ◌^◌, ◌≤◌, ◌<◌, ◌≡◌, ◌≢◌, ap, ◌∙◌, sym, Bool, true, false, List, [], ◌∷◌, Option, none,
  some, arith, if◌then◌else◌, inl, inr, length, Option-cases,
}
use hzl_silicon_switch_lab.Transport.StateUpdate.{
  StateUpdate, StateUpdateType, snapshot, delta, create_update, revisions_are_valid,
  maximum_payload_size,
}
use hzl_silicon_switch_lab.Transport.ClientSynchronizer.{ClientSynchronizer}
use hzl_silicon_switch_lab.Transport.ClientSynchronizer.History.{consume_all}
use hzl_silicon_switch_lab.Transport.ClientSynchronizer.Resync.{
  IsAt, AreNext, IsFresh, final_point, consume_all-IsAt,
}
use hzl_silicon_switch_lab.Simulation.AuthoritativeServer.{
  AuthoritativeServer, count_update, is_snapshot_due, make_update, next_update, is_empty,
}
use hzl_silicon_switch_lab.Simulation.AuthoritativeServer.Streams.{
  Streams, ends, sends, make_update-IsMade, point_of-made, Streams-AreNext,
}

-- What arrives when a call returns: its update and the moment of arrival, or nothing when it fails.
abbrev pub arrive : Option StateUpdate → ℕ → List (StateUpdate × ℕ) → List (StateUpdate × ℕ)
arrive none received_at received = received
arrive (some u) received_at received = (u, received_at) ∷ received

-- A payload that an update can carry.
abbrev pub IsSendable : List ℕ → Type 0
IsSendable payload = (is_empty payload ≡ false) × (length payload ≤ maximum_payload_size)

created :
    (type : StateUpdateType) (session sequence timestamp base revision : ℕ) (payload : List ℕ)
    → session ≢ 0
    → sequence ≢ 0
    → length payload ≤ maximum_payload_size
    → revisions_are_valid type base revision ≡ true
    → (u : StateUpdate) × (create_update type session sequence timestamp base revision payload
        ≡ some u)
unfolding create_update
created type session sequence timestamp base revision payload s q fits valid =
    elim (Option-cases (create_update type session sequence timestamp base revision payload)) [
      | inl e ↦ absurd (ground (arith, e, valid))
      | inr (u, e) ↦ (u, e)
    ]

module _ (step : ℕ → List ℕ) where
  -- Calls of `next_update` in a row, each with its timestamp and the moment at which what it sends
  -- arrives: the server after them, and what arrives. A call that fails moves the server on and
  -- sends nothing.
  unfoldable pub serve :
      AuthoritativeServer → List (ℕ × ℕ) → AuthoritativeServer × List (StateUpdate × ℕ)
  serve server [] = (server, [])
  serve server ((timestamp, received_at) ∷ calls) =
      let (moved, made) = next_update step server timestamp in
      let (final, received) = serve moved calls in (final, arrive made received_at received)

  -- Calls whose timestamps do not go back and which come before the numbers wrap, each at a
  -- revision whose snapshot an update can carry.
  abbrev pub CanSend : AuthoritativeServer → ℕ → List (ℕ × ℕ) → Type 0
  CanSend server last [] = Unit {0}
  CanSend server last ((timestamp, received_at) ∷ calls) =
      (last ≤ timestamp)
      × (server.sequence + 1 < 2 ^ 64)
      × (server.revision + 1 < 2 ^ 64)
      × IsSendable (step (server.revision + 1))
      × CanSend (count_update server) timestamp calls

  counted_revision :
      (server : AuthoritativeServer)
      → server.revision + 1 < 2 ^ 64
      → (count_update server).revision ≡ server.revision + 1
  unfolding count_update
  counted_revision server room = omega arith

  counted_sequence :
      (server : AuthoritativeServer)
      → server.sequence + 1 < 2 ^ 64
      → (count_update server).sequence ≢ 0
  unfolding count_update
  counted_sequence server room e = omega arith

  counted_session :
      (server : AuthoritativeServer) → server.session_id ≢ 0 → (count_update server).session_id ≢ 0
  unfolding count_update
  counted_session server given = given

  session_given :
      (server : AuthoritativeServer) (timestamp : ℕ) (u : StateUpdate)
      → (next_update step server timestamp).1 ≡ some u
      → server.session_id ≢ 0
  unfolding next_update make_update create_update count_update
  session_given server timestamp u made z = ground (arith, made, z)

  valid_revisions :
      (due : Bool) (previous revision : ℕ)
      → previous < revision
      → revisions_are_valid (if due then snapshot else delta) (if due then 0 else previous) revision
        ≡ true
  unfolding revisions_are_valid
  valid_revisions true previous revision lt = ground arith
  valid_revisions false previous revision lt = ground arith

  make_update_makes :
      (server : AuthoritativeServer) (previous timestamp : ℕ)
      → server.session_id ≢ 0
      → server.sequence ≢ 0
      → previous < server.revision
      → IsSendable (step server.revision)
      → (u : StateUpdate) × (make_update step server previous timestamp ≡ some u)
  unfolding make_update
  make_update_makes server previous timestamp session sequence lt sendable =
      let due = is_snapshot_due server in
      rw sendable.0 (
        created (if due then snapshot else delta) server.session_id server.sequence timestamp
          (if due then 0 else previous) server.revision (step server.revision) session sequence
          sendable.1 (valid_revisions due previous server.revision lt))

  -- A call of a server that can send makes an update.
  next_update_makes :
      (server : AuthoritativeServer) (timestamp : ℕ)
      → server.session_id ≢ 0
      → server.sequence + 1 < 2 ^ 64
      → server.revision + 1 < 2 ^ 64
      → IsSendable (step (server.revision + 1))
      → (u : StateUpdate) × ((next_update step server timestamp).1 ≡ some u)
  unfolding next_update
  next_update_makes server timestamp session sequence_room revision_room sendable =
      let moved = counted_revision server revision_room in
      make_update_makes (count_update server) server.revision timestamp
        (counted_session server session) (counted_sequence server sequence_room)
        (omega (arith, moved)) (rw moved sendable)

  serve-Streams :
      (server : AuthoritativeServer) (last : ℕ) (calls : List (ℕ × ℕ))
      → server.session_id ≢ 0
      → CanSend server last calls
      → Streams step server last (serve server calls).1 (serve server calls).0
  unfolding serve next_update
  serve-Streams server last [] session can = ends server last
  serve-Streams server last ((timestamp, received_at) ∷ calls) session
        (le, sequence_room, revision_room, sendable, can) =
      let (u, made) =
        next_update_makes server timestamp session sequence_room revision_room sendable in
      rw made (
        sends server (serve (count_update server) calls).0 last timestamp received_at u
          (serve (count_update server) calls).1 le sequence_room made
          (serve-Streams (count_update server) timestamp calls (counted_session server session)
            can))

  -- A client in any state that receives from a server a snapshot that is not old to it, and then
  -- all that the server sends in the calls of next_update that follow, in order, is synchronized,
  -- in the session and at the sequence number and the revision of the server after the calls. The
  -- calls that follow come before the numbers wrap, with timestamps that do not go back, and the
  -- backend gives each of them a payload that is not empty and not over the limit of an update, so
  -- that none of them fails.
  pub observed_all :
      (c : ClientSynchronizer) (server : AuthoritativeServer) (timestamp received_at : ℕ)
      (u : StateUpdate) (calls : List (ℕ × ℕ))
      → (next_update step server timestamp).1 ≡ some u
      → u.type ≡ snapshot
      → IsFresh c u
      → CanSend (next_update step server timestamp).0 timestamp calls
      → let (final, received) = serve server ((timestamp, received_at) ∷ calls) in
        let client = consume_all c received in
        (client.synchronized ≡ true)
        × (client.session_id ≡ some final.session_id)
        × (client.sequence ≡ final.sequence)
        × (client.revision ≡ final.revision)
  unfolding serve next_update
  observed_all c server timestamp received_at u calls made s fresh can =
      let (final, received) = serve (count_update server) calls in
      let m = make_update-IsMade step (count_update server) server.revision timestamp u made in
      let at_server = point_of-made step server timestamp u m in
      let session = session_given server timestamp u made in
      let streams =
        serve-Streams (count_update server) timestamp calls (counted_session server session) can in
      let (next, (t, ended)) =
        Streams-AreNext step (count_update server) final timestamp received streams in
      let at =
        subst (IsAt (consume_all c ((u, received_at) ∷ received)))
          (ap (λ p. final_point p received) at_server ∙ ended)
          (consume_all-IsAt c u received_at received s fresh
            (subst (λ p. AreNext p received) (sym at_server) next)) in
      rw made (at.synchronized, at.session, at.sequence, at.revision)
