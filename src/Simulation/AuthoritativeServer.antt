-- ===== src/Simulation/AuthoritativeServer.antt =====
-- simulation/authoritative_server.hpp and .cpp: the numbering of the updates that the server publishes.
-- The backend is a parameter: the bytes of the snapshot of each of its steps. Its state moves with the
-- revision alone, and the socket and the observers are left out.
pub mod Observation
pub mod Following
pub mod Streams
use hzl_silicon_switch_lab.Base.{
  ℕ, ◌+◌, ◌%◌, ◌^◌, Bool, true, false, ◌||◌, List, [], ◌∷◌, Option, none, some, ◌==◌, if◌then◌else◌,
}
use hzl_silicon_switch_lab.Transport.StateUpdate.{
  StateUpdate, StateUpdateType, snapshot, delta, create_update,
}

pub record AuthoritativeServer : Type 0 where
  pub session_id : ℕ
  pub snapshot_interval : ℕ
  pub sequence : ℕ
  pub revision : ℕ

-- The constructor; `none` is the exception of a session number of zero.
unfoldable pub create_server : ℕ → ℕ → Option AuthoritativeServer
create_server session_id snapshot_interval =
    if session_id == 0
    then none
    else some (record {
      session_id = session_id;
      snapshot_interval = if snapshot_interval == 0 then 1 else snapshot_interval;
      sequence = 0;
      revision = 0;
    })

unfoldable pub is_empty : List ℕ → Bool
is_empty [] = true
is_empty (byte ∷ bytes) = false

-- The server with both numbers moved on.
unfoldable pub count_update : AuthoritativeServer → AuthoritativeServer
count_update server = record server {
  sequence = (server.sequence + 1) % 2 ^ 64;
  revision = (server.revision + 1) % 2 ^ 64;
}

-- `snapshot`, of the moved numbers; the interval is not zero.
unfoldable pub is_snapshot_due : AuthoritativeServer → Bool
is_snapshot_due server = server.sequence == 1 || server.sequence % server.snapshot_interval == 0

module _ (step : ℕ → List ℕ) where
  -- The update that `next_update` makes, of the moved numbers; `none` is `serialization_failed`.
  unfoldable pub make_update :
      AuthoritativeServer → (previous_revision timestamp : ℕ) → Option StateUpdate
  unfolding is_empty is_snapshot_due
  make_update server previous_revision timestamp =
      let payload = step server.revision in
      let due = is_snapshot_due server in
      if is_empty payload
      then none
      else create_update (if due then snapshot else delta) server.session_id server.sequence
          timestamp (if due then 0 else previous_revision) server.revision payload

  -- `AuthoritativeServer::next_update`
  unfoldable pub next_update :
      AuthoritativeServer → (timestamp : ℕ) → AuthoritativeServer × Option StateUpdate
  unfolding count_update make_update
  next_update server timestamp =
      (count_update server, make_update (count_update server) server.revision timestamp)
