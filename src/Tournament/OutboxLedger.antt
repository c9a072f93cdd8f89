-- ===== src/Tournament/OutboxLedger.antt =====
-- The whole poll of apps/api/services/tournament_outbox_service.py and the ledger of experience.
use genjishimada.Base.{
  ℕ, ◌≡◌, refl, arith, Bool, true, false, not, ◌&&◌, List, [], ◌∷◌, ◌++◌, ◌==◌, ltb, if◌then◌else◌,
}
use genjishimada.Economy.Action.{ok}
use genjishimada.Economy.Lootbox.{XpGrantEvent}
use genjishimada.Tournament.Tables.{
  Tournaments, Edition, Transition, TransitionType, CycleCompleted,
}
use genjishimada.Tournament.Action.{Step, done, reads, changes, ◌>>◌}
use genjishimada.Tournament.Rewards.{award_cycle_placements, award_edition_streaks}
use genjishimada.Tournament.Ledger.{UniqueGrants, LedgerKept, Paid-LedgerKept, Paid}
use genjishimada.Tournament.Placements.{award_cycle_placements-Paid}
use genjishimada.Tournament.EditionReplay.{award_edition_streaks-Paid}
use genjishimada.Tournament.EditionRepository.{
  complete_edition, create_pending_transition, count_inflight_verifications,
  fetch_edition_child_cycles, mark_transition_published, fetch_unpublished_transitions,
  fetch_awaiting_results_editions,
}
use genjishimada.Tournament.Outbox.{
  award_children, award_results, build_cycle_completed_event, publish_message, publish_results,
  publish_row, publish_rows, process_edition, process_editions, process_awaiting_results_editions,
  publish_pending_transitions, write_drained_results_row, announce_start, rollover, build_events,
  build_event,
}
use genjishimada.Tournament.Keeping.{
  Keeps, Keeps-bind, Keeps-done, Keeps-reads, Keeps-changes, complete_edition-Paid, same-Paid,
}

Keeps-placements : (e : CycleCompleted) → Keeps (award_cycle_placements e)
Keeps-placements e evs t t' h = (award_cycle_placements-Paid e evs t t' h).0

Keeps-streaks : (es : List CycleCompleted) → Keeps (award_edition_streaks es)
Keeps-streaks es evs t t' h = (award_edition_streaks-Paid es evs t t' h).0

Keeps-children :
    (cs : List (ℕ × ℕ)) (results : List CycleCompleted) (pending : List XpGrantEvent)
    → Keeps (award_children cs results pending)
unfolding award_children
Keeps-children [] results pending = Keeps-done (results, pending)
Keeps-children (child ∷ rest) results pending =
    Keeps-bind (reads (λ t. build_cycle_completed_event t child)) _
      (Keeps-reads (λ t. build_cycle_completed_event t child))
      (λ entry.
        Keeps-bind (award_cycle_placements entry) _ (Keeps-placements entry)
          (λ granted. Keeps-children rest (results ++ (entry ∷ [])) (pending ++ granted)))

Keeps-publish_results : (i : ℕ) → Keeps (publish_results i)
unfolding publish_results
Keeps-publish_results i =
    Keeps-bind (reads (fetch_edition_child_cycles i)) _ (Keeps-reads (fetch_edition_child_cycles i))
      (λ children.
        Keeps-bind (award_children children [] []) _ (Keeps-children children [] []) (λ awarded.
          Keeps-bind (award_edition_streaks (awarded.0)) _ (Keeps-streaks (awarded.0)) (λ streaks.
            Keeps-bind (changes (publish_message (rollover i (awarded.0) false))) _
              (Keeps-changes (publish_message (rollover i (awarded.0) false))
                (λ t. same-Paid t (publish_message (rollover i (awarded.0) false) t) refl))
              (λ _.
                Keeps-bind (changes (complete_edition i)) _
                  (Keeps-changes (complete_edition i) (complete_edition-Paid i))
                  (λ _. Keeps-done (awarded.1 ++ streaks))))))

Keeps-transition :
    (k : TransitionType) (i : ℕ) (results : List CycleCompleted)
    → Keeps (create_pending_transition k i results)
unfolding create_pending_transition
Keeps-transition k i results x t t' h = same-Paid t t' (ground arith)

Keeps-drained : (i : ℕ) → Keeps (write_drained_results_row i)
unfolding write_drained_results_row
Keeps-drained i =
    Keeps-bind (reads (λ t. build_events t (fetch_edition_child_cycles i t))) _
      (Keeps-reads (λ t. build_events t (fetch_edition_child_cycles i t)))
      (λ results.
        Keeps-bind (create_pending_transition TransitionType.edition_results i results) _
          (Keeps-transition TransitionType.edition_results i results)
          (λ _. Keeps-changes (complete_edition i) (complete_edition-Paid i)))

Keeps-start : (i : ℕ) → Keeps (announce_start i)
Keeps-start i x t t' h = same-Paid t t' (ground arith)

Keeps-if : {A : Type 0} (b : Bool) (m n : Step A) → Keeps m → Keeps n → Keeps (if b then m else n)
Keeps-if true m n hm hn = hm
Keeps-if false m n hm hn = hn

Keeps-edition : (e : ℕ × Edition) → Keeps (process_edition e)
unfolding process_edition
Keeps-edition (i, e) =
    Keeps-bind (reads (count_inflight_verifications i)) _
      (Keeps-reads (count_inflight_verifications i))
      (λ inflight.
        Keeps-if (not e.start_announced && ltb 0 inflight) (announce_start i) _ (Keeps-start i) (
          Keeps-if (not e.start_announced && (inflight == 0)) (publish_results i) _
            (Keeps-publish_results i)
            (Keeps-if (inflight == 0) (write_drained_results_row i >> done []) (done [])
              (Keeps-bind (write_drained_results_row i) _ (Keeps-drained i) (λ _. Keeps-done []))
              (Keeps-done []))))

Keeps-editions :
    (es : List (ℕ × Edition)) (pending : List XpGrantEvent) → Keeps (process_editions es pending)
unfolding process_editions
Keeps-editions [] pending = Keeps-done pending
Keeps-editions (e ∷ es) pending =
    Keeps-bind (process_edition e) _ (Keeps-edition e)
      (λ granted. Keeps-editions es (pending ++ granted))

Keeps-results :
    (es : List CycleCompleted) (pending : List XpGrantEvent) → Keeps (award_results es pending)
unfolding award_results
Keeps-results [] pending = Keeps-done pending
Keeps-results (e ∷ es) pending =
    Keeps-bind (award_cycle_placements e) _ (Keeps-placements e)
      (λ granted. Keeps-results es (pending ++ granted))

Keeps-row : (row : ℕ × Transition) (pending : List XpGrantEvent) → Keeps (publish_row row pending)
unfolding publish_row
Keeps-row (i, r) pending =
    Keeps-bind (award_results r.results pending) _ (Keeps-results r.results pending) (λ granted.
      Keeps-bind (award_edition_streaks r.results) _ (Keeps-streaks r.results) (λ streaks.
        Keeps-bind (changes (publish_message (build_event r))) _
          (Keeps-changes (publish_message (build_event r))
            (λ t. same-Paid t (publish_message (build_event r) t) refl))
          (λ _.
            Keeps-bind (changes (mark_transition_published i)) _
              (Keeps-changes (mark_transition_published i)
                (λ t. same-Paid t (mark_transition_published i t) refl))
              (λ _. Keeps-done (granted ++ streaks)))))

Keeps-rows :
    (rows : List (ℕ × Transition)) (pending : List XpGrantEvent) → Keeps (publish_rows rows pending)
unfolding publish_rows
Keeps-rows [] pending = Keeps-done pending
Keeps-rows (row ∷ rows) pending =
    Keeps-bind (publish_row row pending) _ (Keeps-row row pending)
      (λ pending'. Keeps-rows rows pending')

publish_pending_transitions-Paid :
    (evs : List XpGrantEvent) (t t' : Tournaments)
    → publish_pending_transitions t ≡ ok (evs, t')
    → Paid t t'
unfolding publish_pending_transitions process_awaiting_results_editions
publish_pending_transitions-Paid =
    Keeps-bind process_awaiting_results_editions _
      (Keeps-bind (reads fetch_awaiting_results_editions) _
        (Keeps-reads fetch_awaiting_results_editions) (λ es. Keeps-editions es []))
      (λ pending.
        Keeps-bind (reads fetch_unpublished_transitions) _
          (Keeps-reads fetch_unpublished_transitions) (λ rows. Keeps-rows rows pending))

-- A poll that commits keeps the ledger of experience, whatever editions and outbox rows it finds:
-- where no row was there twice none is, no row is lost, and the experience of every user has grown
-- by exactly what the new rows stand for at the multiplier.
pub publish_pending_transitions-LedgerKept :
    (evs : List XpGrantEvent) (t t' : Tournaments)
    → UniqueGrants t.xp_grants
    → publish_pending_transitions t ≡ ok (evs, t')
    → LedgerKept t t'
publish_pending_transitions-LedgerKept evs t t' unique h =
    Paid-LedgerKept (publish_pending_transitions-Paid evs t t' h) unique
