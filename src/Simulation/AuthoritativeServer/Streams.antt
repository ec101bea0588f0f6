-- ===== src/Simulation/AuthoritativeServer/Streams.antt =====
-- What each update that the server makes has, and that those of calls in a row follow one another.
use mathlib.Core.Path.{subst}
use hzl_silicon_switch_lab.Base.{
  ℕ, ◌+◌, ◌^◌, ◌≤◌, ◌<◌, ◌≡◌, refl, ap, ◌∙◌, sym, Bool, true, false, ◌||◌, List, [], ◌∷◌, some,
  arith, if◌then◌else◌, Bool-cases, inl, inr,
}
use hzl_silicon_switch_lab.Transport.StateUpdate.{StateUpdate, snapshot, delta, create_update}
use hzl_silicon_switch_lab.Transport.ClientSynchronizer.{is_snapshot, is_delta}
use hzl_silicon_switch_lab.Transport.ClientSynchronizer.Resync.{
  Point, IsNext, AreNext, point_of, next_point, final_point,
}
use hzl_silicon_switch_lab.Simulation.AuthoritativeServer.{
  AuthoritativeServer, count_update, is_snapshot_due, make_update, next_update, is_empty,
}

-- What the server sends from one call of `next_update` to another when each call makes an update,
-- with timestamps that do not go back, before the numbers wrap; each update has the moment at which
-- it is received.
pub data Streams (step : ℕ → List ℕ)
    : AuthoritativeServer → ℕ → List (StateUpdate × ℕ) → AuthoritativeServer → Type 0 where
  ends : (server : AuthoritativeServer) (last : ℕ) → Streams step server last [] server
  sends :
      (server final : AuthoritativeServer) (last timestamp received_at : ℕ) (u : StateUpdate)
      (received : List (StateUpdate × ℕ))
      → last ≤ timestamp
      → server.sequence + 1 < 2 ^ 64
      → (next_update step server timestamp).1 ≡ some u
      → Streams step (next_update step server timestamp).0 timestamp received final
      → Streams step server last ((u, received_at) ∷ received) final

-- The point of the server.
abbrev pub server_point : AuthoritativeServer → ℕ → Point
server_point server timestamp = record {
  session = server.session_id;
  sequence = server.sequence;
  revision = server.revision;
  timestamp = timestamp;
}

-- What an update that the server makes has.
pub record IsMade (server : AuthoritativeServer) (previous timestamp : ℕ) (u : StateUpdate)
    : Type 0 where
  type : u.type ≡ (if is_snapshot_due server then snapshot else delta)
  session : u.session_id ≡ server.session_id
  sequence : u.sequence ≡ server.sequence
  moment : u.timestamp_microseconds ≡ timestamp
  base : u.base_revision ≡ (if is_snapshot_due server then 0 else previous)
  revision : u.revision ≡ server.revision

create_update-IsMade :
    (server : AuthoritativeServer) (previous timestamp : ℕ) (payload : List ℕ) (u : StateUpdate)
    → create_update
        (if is_snapshot_due server then snapshot else delta)
        server.session_id
        server.sequence
        timestamp
        (if is_snapshot_due server then 0 else previous)
        server.revision
        payload
      ≡ some u
    → IsMade server previous timestamp u
unfolding create_update
create_update-IsMade server previous timestamp payload u e = record {
  type = ground arith;
  session = ground arith;
  sequence = ground arith;
  moment = ground arith;
  base = ground arith;
  revision = ground arith;
}

module _ (step : ℕ → List ℕ) where
  pub make_update-IsMade :
      (server : AuthoritativeServer) (previous timestamp : ℕ) (u : StateUpdate)
      → make_update step server previous timestamp ≡ some u
      → IsMade server previous timestamp u
  unfolding make_update
  make_update-IsMade server previous timestamp u e =
      elim (Bool-cases (is_empty (step server.revision))) [
        | inl nothing ↦ cc (rw nothing at e)
        | inr bytes ↦
            create_update-IsMade server previous timestamp (step server.revision) u (rw bytes at e)
      ]

  -- The update takes a client from the point of the server before it to the one after it.
  made-IsNext :
      (server : AuthoritativeServer) (last timestamp : ℕ) (u : StateUpdate)
      → last ≤ timestamp
      → server.sequence + 1 < 2 ^ 64
      → IsMade (count_update server) server.revision timestamp u
      → IsNext (server_point server last) u
  unfolding count_update is_delta
  made-IsNext server last timestamp u le room m = record {
    session = m.session;
    sequence = omega (arith, m.sequence, room);
    sequence_fits = omega (arith, m.sequence, room);
    timestamp = omega (arith, m.moment, le);
    base = λ d. elim (Bool-cases (is_snapshot_due (count_update server))) [
      | inl due ↦ cc (rw (m.type, due) at d)
      | inr not_due ↦ m.base ∙ rw not_due refl
    ];
  }

  pub point_of-made :
      (server : AuthoritativeServer) (timestamp : ℕ) (u : StateUpdate)
      → IsMade (count_update server) server.revision timestamp u
      → point_of u ≡ server_point (count_update server) timestamp
  point_of-made server timestamp u m = rw (m.session, m.sequence, m.revision, m.moment) refl

  changes_revision :
      (u : StateUpdate) (due : Bool)
      → u.type ≡ (if due then snapshot else delta)
      → (is_snapshot u.type || is_delta u.type) ≡ true
  unfolding is_snapshot is_delta
  changes_revision u true e = rw e refl
  changes_revision u false e = rw e refl

  made-next_point :
      (server : AuthoritativeServer) (last timestamp : ℕ) (u : StateUpdate)
      → IsMade (count_update server) server.revision timestamp u
      → next_point (server_point server last) u ≡ server_point (count_update server) timestamp
  made-next_point server last timestamp u m =
      rw
        (
          changes_revision u (is_snapshot_due (count_update server)) m.type,
          m.sequence,
          m.revision,
          m.moment,
        )
        (unfold count_update in refl)

  pub Streams-AreNext :
      (server final : AuthoritativeServer) (last : ℕ) (received : List (StateUpdate × ℕ))
      → Streams step server last received final
      → AreNext (server_point server last) received
        × ((t : ℕ) × (final_point (server_point server last) received ≡ server_point final t))
  unfolding next_update
  Streams-AreNext server _ last _ (ends _ _) = (tt, (last, refl))
  Streams-AreNext _ _ _ _
        (sends server final last timestamp received_at u received le room made rest) =
      let m = make_update-IsMade (count_update server) server.revision timestamp u made in
      let e = made-next_point server last timestamp u m in
      let (next, (t, ended)) =
        Streams-AreNext (count_update server) final timestamp received rest in
      (
        (
          made-IsNext server last timestamp u le room m,
          subst (λ p. AreNext p received) (sym e) next,
        ),
        (t, ap (λ p. final_point p received) e ∙ ended),
      )
