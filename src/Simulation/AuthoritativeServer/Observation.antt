-- ===== src/Simulation/AuthoritativeServer/Observation.antt =====
-- A client that observes the server, over a network that loses, repeats and reorders its updates.
use hzl_silicon_switch_lab.Base.{
  ℕ, ◌+◌, ◌%◌, ◌^◌, ◌<◌, ◌≡◌, ap, ◌∙◌, sym, Bool, true, false, List, [], ◌∷◌, some, arith,
  if◌then◌else◌, Bool-cases, inl, inr,
}
use hzl_silicon_switch_lab.Transport.StateUpdate.{
  StateUpdate, StateUpdateType, snapshot, delta, create_update,
}
use hzl_silicon_switch_lab.Transport.ClientSynchronizer.{create_client}
use hzl_silicon_switch_lab.Transport.ClientSynchronizer.Refinement.{consume_all-revision}
use hzl_silicon_switch_lab.Transport.ClientSynchronizer.History.{
  IsReport, Tells, AreReports, consume_all,
}
use hzl_silicon_switch_lab.Simulation.AuthoritativeServer.{
  AuthoritativeServer, create_server, count_update, is_snapshot_due, make_update, next_update,
  is_empty,
}

-- Servers that the constructor and calls of `next_update` reach, before the numbers wrap.
pub data Serves (step : ℕ → List ℕ) : AuthoritativeServer → Type 0 where
  starts :
      (session_id snapshot_interval : ℕ) (server : AuthoritativeServer)
      → create_server session_id snapshot_interval ≡ some server
      → Serves step server
  goes_on :
      (server : AuthoritativeServer) (timestamp : ℕ)
      → Serves step server
      → server.sequence + 1 < 2 ^ 64
      → Serves step (next_update step server timestamp).0

-- An update that some server published.
pub data Publishes (step : ℕ → List ℕ) (u : StateUpdate) : Type 0 where
  publishes :
      (server : AuthoritativeServer) (timestamp : ℕ)
      → Serves step server
      → server.sequence + 1 < 2 ^ 64
      → (next_update step server timestamp).1 ≡ some u
      → Publishes step u

module _ (step : ℕ → List ℕ) where
  create_server-numbers :
      (session_id snapshot_interval : ℕ) (server : AuthoritativeServer)
      → create_server session_id snapshot_interval ≡ some server
      → server.revision ≡ server.sequence
  unfolding create_server
  create_server-numbers session_id snapshot_interval server e = ground arith

  -- The revision is the sequence number.
  pub Serves-numbers :
      (server : AuthoritativeServer) → Serves step server → server.revision ≡ server.sequence
  unfolding next_update count_update
  Serves-numbers _ (starts session_id snapshot_interval server made) =
      create_server-numbers session_id snapshot_interval server made
  Serves-numbers _ (goes_on server timestamp before room) =
      ap (λ (n : ℕ). (n + 1) % 2 ^ 64) (Serves-numbers server before)

  is_due-Tells :
      (u : StateUpdate) (due : Bool)
      → u.revision ≡ u.sequence
      → u.type ≡ (if due then snapshot else delta)
      → Tells (λ session sequence. sequence) u u.type
  is_due-Tells u true same e = rw e same
  is_due-Tells u false same e = rw e same

  create_update-fields :
      (type : StateUpdateType) (session sequence timestamp base revision : ℕ) (payload : List ℕ)
      (u : StateUpdate)
      → create_update type session sequence timestamp base revision payload ≡ some u
      → (u.type ≡ type) × (u.sequence ≡ sequence) × (u.revision ≡ revision)
  unfolding create_update
  create_update-fields type session sequence timestamp base revision payload u e = ground arith

  made-Tells :
      (server : AuthoritativeServer) (previous timestamp : ℕ) (u : StateUpdate)
      → server.revision ≡ server.sequence
      → make_update step server previous timestamp ≡ some u
      → Tells (λ session sequence. sequence) u u.type × (u.sequence ≡ server.sequence)
  unfolding make_update
  made-Tells server previous timestamp u same e =
      elim (Bool-cases (is_empty (step server.revision))) [
        | inl nothing ↦ cc (rw nothing at e)
        | inr bytes ↦
            let (type, sequence, revision) =
              create_update-fields _ _ _ _ _ _ (step server.revision) u (rw bytes at e) in
            (
              is_due-Tells u (is_snapshot_due server) (revision ∙ same ∙ sym sequence) type,
              sequence,
            )
      ]

  Publishes-IsReport :
      (u : StateUpdate) → Publishes step u → IsReport (λ session sequence. sequence) u
  unfolding next_update count_update
  Publishes-IsReport u (publishes server timestamp serves room made) =
      let same = ap (λ (n : ℕ). (n + 1) % 2 ^ 64) (Serves-numbers server serves) in
      let (tells, sequence) =
        made-Tells (count_update server) server.revision timestamp u same made in
      record { tells = tells; sequence_fits = omega (arith, sequence, room) }

  -- Every update that is received was published.
  abbrev pub ArePublished : List (StateUpdate × ℕ) → Type 0
  ArePublished [] = Unit {0}
  ArePublished ((u, received_at) ∷ received) = Publishes step u × ArePublished received

  ArePublished-AreReports :
      (received : List (StateUpdate × ℕ))
      → ArePublished received
      → AreReports (λ session sequence. sequence) received
  ArePublished-AreReports [] p = tt
  ArePublished-AreReports ((u, received_at) ∷ received) p =
      (Publishes-IsReport u p.0, ArePublished-AreReports received p.1)

  -- A new client that receives any updates that servers published before their numbers wrap, lost,
  -- repeated or in another order as may be, has, whenever it is synchronized, the revision of the
  -- sequence number that it is at.
  pub observed_revision :
      (received : List (StateUpdate × ℕ)) (session : ℕ)
      → ArePublished received
      → (consume_all create_client received).synchronized ≡ true
      → (consume_all create_client received).session_id ≡ some session
      → (consume_all create_client received).revision
        ≡ (consume_all create_client received).sequence
  observed_revision received session p on same =
      consume_all-revision (λ session sequence. sequence) received session
        (ArePublished-AreReports received p) on same
