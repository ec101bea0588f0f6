-- ===== src/Transport/ClientSynchronizer/History.antt =====
-- A client against the history of the server: the abstract client knows a revision of the history, or
-- waits for a snapshot.
use hzl_silicon_switch_lab.Base.{
  ℕ, suc, ◌^◌, ◌<◌, ◌≡◌, refl, ap, Bool, true, false, not, List, [], ◌∷◌, Option, none, some, arith,
}
use hzl_silicon_switch_lab.Transport.StateUpdate.{
  StateUpdate, StateUpdateType, snapshot, delta, heartbeat, resync_request,
}
use hzl_silicon_switch_lab.Transport.ClientSynchronizer.{
  ClientSynchronizer, create_client, is_new_session, consume,
}

-- The revision that the server had after each update of each session.
abbrev pub History : Type 0
History = (session sequence : ℕ) → ℕ

-- A position in a session of the history.
pub record Position : Type 0 where
  pub session : ℕ
  pub sequence : ℕ

-- What the client stands for: the position it has reached, if it is synchronized.
abbrev pub view_of : Bool → Option ℕ → ℕ → Option Position
view_of false session sequence = none
view_of true none sequence = none
view_of true (some session) sequence = some (record { session = session; sequence = sequence })

abbrev pub view : ClientSynchronizer → Option Position
view c = view_of c.synchronized c.session_id c.sequence

-- The update tells the history: snapshots and deltas carry the revision of their sequence number, and
-- the others leave the revision of the one before.
abbrev pub Tells : History → StateUpdate → StateUpdateType → Type 0
Tells history u snapshot = u.revision ≡ history u.session_id u.sequence
Tells history u delta = u.revision ≡ history u.session_id u.sequence
Tells history u heartbeat =
    (n : ℕ) → u.sequence ≡ suc n → history u.session_id u.sequence ≡ history u.session_id n
Tells history u resync_request =
    (n : ℕ) → u.sequence ≡ suc n → history u.session_id u.sequence ≡ history u.session_id n

pub record IsReport (history : History) (u : StateUpdate) : Type 0 where
  pub tells : Tells history u u.type
  pub sequence_fits : u.sequence < 2 ^ 64

-- The steps of the abstract client.
pub data Follows (u : StateUpdate) : Option Position → Option Position → Type 0 where
  -- The update is ignored.
  stays : (p : Option Position) → Follows u p p
  -- The client waits for a snapshot.
  waits : (p : Option Position) → Follows u p none
  -- A snapshot takes the client to its position.
  jumps :
      (p : Option Position)
      → u.type ≡ snapshot
      → Follows u p (some (record { session = u.session_id; sequence = u.sequence }))
  -- The client goes on by one update of the session.
  steps :
      (n : ℕ)
      → u.sequence ≡ suc n
      → Follows u
          (some (record { session = u.session_id; sequence = n }))
          (some (record { session = u.session_id; sequence = u.sequence }))

-- A synchronized client has the revision of its position; it asks for a snapshot just when it is not
-- synchronized.
pub record InStep (history : History) (c : ClientSynchronizer) : Type 0 where
  pub session_known : c.synchronized ≡ true → (s : ℕ) × (c.session_id ≡ some s)
  pub revision_right :
      (s : ℕ) → c.synchronized ≡ true → c.session_id ≡ some s → c.revision ≡ history s c.sequence
  pub asks : c.resync_required ≡ not c.synchronized

pub create_client-InStep : (history : History) → InStep history create_client
create_client-InStep history = record {
  session_known = λ h. cc;
  revision_right = λ s h e. cc;
  asks = refl;
}

pub same_session :
    (known : Option ℕ) (session : ℕ) → is_new_session known session ≡ false → known ≡ some session
unfolding is_new_session
same_session none session h = cc
same_session (some s) session h = ap some (ground (arith, h))

-- The client after the updates that it received, each with its moment.
abbrev pub consume_all : ClientSynchronizer → List (StateUpdate × ℕ) → ClientSynchronizer
consume_all c [] = c
consume_all c ((u, received_at) ∷ received) = consume_all (consume c u received_at).0 received

-- Every update is one that the server sent; it may come late, more than once, or not at all.
abbrev pub AreReports : History → List (StateUpdate × ℕ) → Type 0
AreReports history [] = Unit {0}
AreReports history ((u, received_at) ∷ received) = IsReport history u × AreReports history received
