-- ===== src/Witnesses/TransportRuns.antt =====
-- The server, its updates and its clients at concrete inputs.
use hzl_silicon_switch_lab.Base.{ℕ, ◌≡◌, refl, true, List, [], ◌∷◌, some, arith, inl}
use hzl_silicon_switch_lab.Transport.StateUpdate.{
  StateUpdate, snapshot, delta, IsUpdate, parsed, revisions_are_valid, create_update, parse_update,
  serialize_update,
}
use hzl_silicon_switch_lab.Transport.StateUpdate.Codec.{parse-serialize_update}
use hzl_silicon_switch_lab.Transport.StateUpdate.Parsing.{ParseSpec, parse_update_lem}
use hzl_silicon_switch_lab.Transport.ControlMessage.{
  ControlMessage, IsMessage, parse_message, serialize_message,
}
use hzl_silicon_switch_lab.Transport.ControlMessage
use hzl_silicon_switch_lab.Transport.ControlMessage.Messages.{parse-serialize_message}
use hzl_silicon_switch_lab.Transport.ControlMessage.Parsing.{parse_message_lem}
use hzl_silicon_switch_lab.Transport.ControlMessage.Parsing
use hzl_silicon_switch_lab.Transport.ClientSynchronizer.{
  create_client, is_new_session, consume, consume_received, begin_session, apply, is_snapshot,
}
use hzl_silicon_switch_lab.Transport.ClientSynchronizer.Refinement.{consume-Refines}
use hzl_silicon_switch_lab.Transport.ClientSynchronizer.History.{
  IsReport, InStep, Follows, view, create_client-InStep, consume_all,
}
use hzl_silicon_switch_lab.Transport.ClientSynchronizer.Resync.{IsFresh}
use hzl_silicon_switch_lab.Simulation.AuthoritativeServer.{
  AuthoritativeServer, create_server, next_update, make_update, count_update, is_snapshot_due,
  is_empty,
}
use hzl_silicon_switch_lab.Simulation.AuthoritativeServer.Observation.{
  starts, Publishes, publishes, ArePublished, observed_revision,
}
use hzl_silicon_switch_lab.Simulation.AuthoritativeServer.Following.{
  IsSendable, CanSend, serve, observed_all,
}

-- A backend whose snapshots are one byte.
abbrev one_byte : ℕ → List ℕ
one_byte revision = 1 ∷ []

abbrev new_server : AuthoritativeServer
new_server = record { session_id = 7; snapshot_interval = 60; sequence = 0; revision = 0 }

new_server-made : create_server 7 60 ≡ some new_server
unfolding create_server
new_server-made = refl

abbrev first_update : StateUpdate
first_update = record {
  type = snapshot;
  session_id = 7;
  sequence = 1;
  timestamp_microseconds = 100;
  base_revision = 0;
  revision = 1;
  payload = 1 ∷ [];
}

abbrev second_update : StateUpdate
second_update = record {
  type = delta;
  session_id = 7;
  sequence = 2;
  timestamp_microseconds = 200;
  base_revision = 1;
  revision = 2;
  payload = 1 ∷ [];
}

first_update-made : (next_update one_byte new_server 100).1 ≡ some first_update
unfolding next_update make_update count_update is_snapshot_due is_empty create_update
    revisions_are_valid
first_update-made = refl

abbrev served : AuthoritativeServer
served = (next_update one_byte new_server 100).0

second_update-made : (next_update one_byte served 200).1 ≡ some second_update
unfolding next_update make_update count_update is_snapshot_due is_empty create_update
    revisions_are_valid
second_update-made = refl

one_byte-IsSendable : (revision : ℕ) → IsSendable (one_byte revision)
unfolding is_empty
one_byte-IsSendable revision = (refl, omega arith)

served-CanSend : CanSend one_byte served 100 ((200, 6) ∷ (300, 7) ∷ [])
unfolding next_update count_update
served-CanSend = (
  omega arith,
  omega arith,
  omega arith,
  one_byte-IsSendable 2,
  (omega arith, omega arith, omega arith, one_byte-IsSendable 3, tt),
)

served_two :
    (serve one_byte new_server ((100, 5) ∷ (200, 6) ∷ [])).1
    ≡ (first_update, 5) ∷ (second_update, 6) ∷ []
unfolding serve next_update make_update count_update is_snapshot_due is_empty create_update
    revisions_are_valid
served_two = refl

first_update-IsFresh : IsFresh create_client first_update
unfolding is_new_session
first_update-IsFresh = inl refl

observed_all_example :
    let (final, received) = serve one_byte new_server ((100, 5) ∷ (200, 6) ∷ (300, 7) ∷ []) in
    let client = consume_all create_client received in
    (client.synchronized ≡ true)
    × (client.session_id ≡ some final.session_id)
    × (client.sequence ≡ final.sequence)
    × (client.revision ≡ final.revision)
observed_all_example =
    observed_all one_byte create_client new_server 100 5 first_update ((200, 6) ∷ (300, 7) ∷ [])
      first_update-made refl first_update-IsFresh served-CanSend

first_update-IsReport : IsReport (λ session sequence. sequence) first_update
first_update-IsReport = record { tells = refl; sequence_fits = omega arith }

consume-Refines_example :
    InStep (λ session sequence. sequence) (consume create_client first_update 5).0
    × Follows first_update (view create_client) (view (consume create_client first_update 5).0)
consume-Refines_example =
    consume-Refines (λ session sequence. sequence) first_update first_update-IsReport create_client
      5 (create_client-InStep (λ session sequence. sequence))

first_update-Publishes : Publishes one_byte first_update
first_update-Publishes =
    publishes new_server 100 (starts 7 60 new_server new_server-made) (omega arith)
      first_update-made

-- The snapshot, and a copy of it.
abbrev twice : List (StateUpdate × ℕ)
twice = (first_update, 5) ∷ (first_update, 6) ∷ []

twice-ArePublished : ArePublished one_byte twice
twice-ArePublished = (first_update-Publishes, (first_update-Publishes, tt))

twice_synchronized : (consume_all create_client twice).synchronized ≡ true
unfolding consume consume_received begin_session apply is_snapshot is_new_session
twice_synchronized = refl

twice_session : (consume_all create_client twice).session_id ≡ some 7
unfolding consume consume_received begin_session apply is_snapshot is_new_session
twice_session = refl

observed_revision_example :
    (consume_all create_client twice).revision ≡ (consume_all create_client twice).sequence
observed_revision_example =
    observed_revision one_byte twice 7 twice-ArePublished twice_synchronized twice_session

first_update-IsUpdate : IsUpdate first_update
unfolding revisions_are_valid
first_update-IsUpdate = record {
  session_given = omega arith;
  sequence_given = omega arith;
  payload_fits = omega arith;
  revisions = refl;
  session_fits = omega arith;
  sequence_fits = omega arith;
  timestamp_fits = omega arith;
  base_fits = omega arith;
  revision_fits = omega arith;
}

parse-serialize_update_example : parse_update (serialize_update first_update) ≡ parsed first_update
parse-serialize_update_example = parse-serialize_update first_update first_update-IsUpdate

parse_update_lem_example :
    ParseSpec (serialize_update first_update) (parse_update (serialize_update first_update))
parse_update_lem_example = parse_update_lem (serialize_update first_update)

-- A request to create VLAN 10.
abbrev some_message : ControlMessage
some_message = record {
  version = 1;
  type = ControlMessage.create_vlan;
  request_id = 3;
  payload = 0 ∷ 10 ∷ [];
}

some_message-IsMessage : IsMessage some_message
some_message-IsMessage = record {
  version_current = refl;
  payload_fits = omega arith;
  request_fits = omega arith;
}

parse-serialize_message_example :
    parse_message (serialize_message some_message) ≡ ControlMessage.parsed some_message
parse-serialize_message_example = parse-serialize_message some_message some_message-IsMessage

parse_message_lem_example :
    Parsing.ParseSpec
      (serialize_message some_message)
      (parse_message (serialize_message some_message))
parse_message_lem_example = parse_message_lem (serialize_message some_message)
