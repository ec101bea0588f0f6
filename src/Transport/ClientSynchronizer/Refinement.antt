-- ===== src/Transport/ClientSynchronizer/Refinement.antt =====
-- What consume does, step by step, is what the abstract client may do.
use mathlib.Core.Path.{subst}
use hzl_silicon_switch_lab.Base.{
  ℕ, suc, ◌+◌, ◌%◌, ◌^◌, ◌<◌, ◌≡◌, refl, ap, ◌∙◌, sym, inl, inr, true, false, not, ◌&&◌, ◌||◌, List,
  [], ◌∷◌, none, some, arith, ltb, ◌==◌, if◌then◌else◌, Bool-cases, some_inj,
}
use hzl_silicon_switch_lab.Transport.StateUpdate.{
  StateUpdate, StateUpdateType, snapshot, delta, heartbeat, resync_request,
}
use hzl_silicon_switch_lab.Transport.ClientSynchronizer.{
  ClientSynchronizer, create_client, is_snapshot, is_delta, is_new_session, lose, advance, apply,
  begin_session, consume_received, consume,
}
use hzl_silicon_switch_lab.Transport.ClientSynchronizer.History.{
  History, view_of, view, Tells, IsReport, Follows, stays, waits, jumps, steps, InStep,
  create_client-InStep, same_session, consume_all, AreReports,
}

-- What one update does to a client, and what the client that it leaves is.
record Refines (history : History) (u : StateUpdate) (c after : ClientSynchronizer) : Type 0 where
  in_step : InStep history after
  follows : Follows u (view c) (view after)

module _ (history : History) (u : StateUpdate) (r : IsReport history u) where
  lost-InStep :
      (c : ClientSynchronizer)
      → c.synchronized ≡ false
      → c.resync_required ≡ true
      → InStep history c
  lost-InStep c s a = record {
    session_known = λ h. cc;
    revision_right = λ t h e. cc;
    asks = a ∙ ap not (sym s);
  }

  is_snapshot-true : (type : StateUpdateType) → is_snapshot type ≡ true → type ≡ snapshot
  unfolding is_snapshot
  is_snapshot-true snapshot h = refl
  is_snapshot-true delta h = cc
  is_snapshot-true heartbeat h = cc
  is_snapshot-true resync_request h = cc

  tells_snapshot : u.type ≡ snapshot → u.revision ≡ history u.session_id u.sequence
  tells_snapshot e = rw e at r.tells

  -- The revision of a client that was right stays right when it goes on.
  tells_next :
      (type : StateUpdateType) (n revision : ℕ)
      → Tells history u type
      → is_snapshot type ≡ false
      → u.sequence ≡ suc n
      → revision ≡ history u.session_id n
      → (if is_delta type then u.revision else revision) ≡ history u.session_id u.sequence
  unfolding is_snapshot is_delta
  tells_next snapshot n revision t s e h = cc
  tells_next delta n revision t s e h = t
  tells_next heartbeat n revision t s e h = h ∙ sym (t n e)
  tells_next resync_request n revision t s e h = h ∙ sym (t n e)

  view_known :
      (c : ClientSynchronizer) (session : ℕ)
      → c.synchronized ≡ true
      → c.session_id ≡ some session
      → view c ≡ some (record { session = session; sequence = c.sequence })
  view_known c session on same =
      ap (λ b. view_of b c.session_id c.sequence) on ∙ ap (λ o. view_of true o c.sequence) same

  view_lost : (c : ClientSynchronizer) → c.synchronized ≡ false → view c ≡ none
  view_lost c off = ap (λ b. view_of b c.session_id c.sequence) off

  -- A client that the update leaves without synchronization.
  waits-Refines :
      (c after : ClientSynchronizer)
      → after.synchronized ≡ false
      → after.resync_required ≡ true
      → Refines history u c after
  waits-Refines c after off asks = record {
    in_step = lost-InStep after off asks;
    follows = subst (Follows u (view c)) (sym (view_lost after off)) (waits (view c));
  }

  snapshot-Refines :
      (before c : ClientSynchronizer)
      → c.session_id ≡ some u.session_id
      → is_snapshot u.type ≡ true
      → Refines history u before (apply c u).0
  unfolding apply
  snapshot-Refines before c same s =
      let e = is_snapshot-true u.type s in
      rw s (record {
        in_step = record {
          session_known = λ h. (u.session_id, same);
          revision_right =
              λ t h k. tells_snapshot e ∙ ap (λ x. history x u.sequence) (some_inj (sym same ∙ k));
          asks = refl;
        };
        follows =
            subst (λ o. Follows u (view before) (view_of true o u.sequence)) (sym same)
              (jumps (view before) e);
      })

  advance-Refines :
      (c : ClientSynchronizer)
      → InStep history c
      → c.session_id ≡ some u.session_id
      → is_snapshot u.type ≡ false
      → c.synchronized ≡ true
      → u.sequence ≡ suc c.sequence
      → Refines history u c (advance c u).0
  unfolding advance
  advance-Refines c v same s on next =
      let right =
        tells_next u.type c.sequence c.revision r.tells s next
          (v.revision_right u.session_id on same) in
      let step =
        subst (λ o. Follows u o (some (record { session = u.session_id; sequence = u.sequence })))
          (sym (view_known c u.session_id on same)) (steps c.sequence next) in
      elim (Bool-cases (is_delta u.type)) [
        | inl changes ↦ rw changes (moved right changes step)
        | inr keeps ↦ rw keeps (kept right keeps step)
      ]
    where
      known_view :
          view_of c.synchronized c.session_id u.sequence
          ≡ some (record { session = u.session_id; sequence = u.sequence })
      known_view =
          ap (λ b. view_of b c.session_id u.sequence) on ∙ ap (λ o. view_of true o u.sequence) same

      in_step_at :
          (revision : ℕ)
          → revision ≡ history u.session_id u.sequence
          → InStep history (record c {
            sequence = u.sequence;
            timestamp_microseconds = u.timestamp_microseconds;
            revision = revision;
          })
      in_step_at revision right = record {
        session_known = v.session_known;
        revision_right = λ t h k. right ∙ ap (λ x. history x u.sequence) (some_inj (sym same ∙ k));
        asks = v.asks;
      }

      moved :
          (if is_delta u.type then u.revision else c.revision) ≡ history u.session_id u.sequence
          → is_delta u.type ≡ true
          → Follows u (view c) (some (record { session = u.session_id; sequence = u.sequence }))
          → Refines history u c (record c {
            sequence = u.sequence;
            timestamp_microseconds = u.timestamp_microseconds;
            revision = u.revision;
          })
      moved right changes step = record {
        in_step = in_step_at u.revision (rw changes at right);
        follows = subst (Follows u (view c)) (sym known_view) step;
      }

      kept :
          (if is_delta u.type then u.revision else c.revision) ≡ history u.session_id u.sequence
          → is_delta u.type ≡ false
          → Follows u (view c) (some (record { session = u.session_id; sequence = u.sequence }))
          → Refines history u c (record c {
            sequence = u.sequence;
            timestamp_microseconds = u.timestamp_microseconds;
          })
      kept right keeps step = record {
        in_step = in_step_at c.revision (rw keeps at right);
        follows = subst (Follows u (view c)) (sym known_view) step;
      }

  apply-advance :
      (c : ClientSynchronizer)
      → is_snapshot u.type ≡ false
      → c.synchronized ≡ true
      → (u.sequence == (c.sequence + 1) % 2 ^ 64) ≡ true
      → (is_delta u.type && not (u.base_revision == c.revision)) ≡ false
      → apply c u ≡ advance c u
  unfolding apply advance
  apply-advance c s on next fits = simp (s, on, next, fits) refl

  apply-Refines :
      (c : ClientSynchronizer)
      → InStep history c
      → c.session_id ≡ some u.session_id
      → c.sequence < u.sequence
      → Refines history u c (apply c u).0
  unfolding apply lose
  apply-Refines c v same later = elim (Bool-cases (is_snapshot u.type)) [
    | inl s ↦ snapshot-Refines c c same s
    | inr s ↦ elim (Bool-cases c.synchronized) [
      | inr off ↦
          simp (s, off)
            (waits-Refines c (record c { synchronized = false; resync_required = true }) refl refl)
      | inl on ↦ elim (Bool-cases (u.sequence == (c.sequence + 1) % 2 ^ 64)) [
        | inr gap ↦ simp (s, on, gap) (waits-Refines c (lose c) refl refl)
        | inl next ↦ elim (Bool-cases (is_delta u.type && not (u.base_revision == c.revision))) [
          | inl mismatch ↦ simp (s, on, next, mismatch) (waits-Refines c (lose c) refl refl)
          | inr fits ↦
              subst (λ x. Refines history u c x.0) (sym (apply-advance c s on next fits))
                (advance-Refines c v same s on (ground (arith, next, r.sequence_fits)))
        ]
      ]
    ]
  ]

  consume_received-Refines :
      (c : ClientSynchronizer) → InStep history c → Refines history u c (consume_received c u).0
  unfolding consume_received
  consume_received-Refines c v = elim (Bool-cases (is_new_session c.session_id u.session_id)) [
    | inl new ↦ elim (Bool-cases (is_snapshot u.type)) [
      | inl s ↦
          let begun : consume_received c u ≡ apply (begin_session c u.session_id) u =
            rw (new, s) refl in
          subst (λ x. Refines history u c x.0) (sym begun)
            (snapshot-Refines c (begin_session c u.session_id) (unfold begin_session in refl) s)
      | inr s ↦
          rw (new, s)
            (waits-Refines c (begin_session c u.session_id) (unfold begin_session in refl)
              (unfold begin_session in refl))
    ]
    | inr old ↦ elim (Bool-cases (u.sequence == c.sequence)) [
      | inl same ↦ rw (old, same) (record { in_step = v; follows = stays (view c) })
      | inr other ↦
          elim (Bool-cases
            (ltb u.sequence c.sequence || ltb u.timestamp_microseconds c.timestamp_microseconds)) [
              | inl stale ↦
                  rw (old, other, stale) (record { in_step = v; follows = stays (view c) })
              | inr fresh ↦
                  rw (old, other, fresh)
                    (apply-Refines c v (same_session c.session_id u.session_id old)
                      (ground (arith, other, fresh)))
            ]
    ]
  ]

  -- A client that is in step with the history of the server stays so when it consumes an update
  -- that tells this history: synchronized, it has the revision of its position, and it asks for a
  -- snapshot just when it is not synchronized. Its view moves as the abstract client's: it stays,
  -- it waits for a snapshot, it jumps to the position of a snapshot, or it goes on by one update of
  -- its session.
  pub consume-Refines :
      (c : ClientSynchronizer) (received_at : ℕ)
      → InStep history c
      → InStep history (consume c u received_at).0
        × Follows u (view c) (view (consume c u received_at).0)
  unfolding consume
  consume-Refines c received_at v =
      let p =
        consume_received-Refines (record c { last_received = some received_at })
          (record {
            session_known = v.session_known;
            revision_right = v.revision_right;
            asks = v.asks;
          }) in
      (p.in_step, p.follows)

consume_all-InStep :
    (history : History) (received : List (StateUpdate × ℕ)) (c : ClientSynchronizer)
    → AreReports history received
    → InStep history c
    → InStep history (consume_all c received)
consume_all-InStep history [] c r v = v
consume_all-InStep history ((u, received_at) ∷ received) c r v =
    consume_all-InStep history received (consume c u received_at).0 r.1
      (consume-Refines history u r.0 c received_at v).0

-- p
pub consume_all-revision :
    (history : History) (received : List (StateUpdate × ℕ)) (session : ℕ)
    → AreReports history received
    → (consume_all create_client received).synchronized ≡ true
    → (consume_all create_client received).session_id ≡ some session
    → (consume_all create_client received).revision
      ≡ history session (consume_all create_client received).sequence
consume_all-revision history received session r on same =
    (consume_all-InStep history received create_client r
        (create_client-InStep history)).revision_right
      session on same
