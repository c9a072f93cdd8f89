-- ===== src/Tournament/Outbox.antt =====
-- The poller of apps/api/services/tournament_outbox_service.py, `force_publish_results` of
-- tournament_service.py, and the statements of tournaments_repository.py that they run. A message is
-- taken to be published where the transaction commits.
use genjishimada.Base.{
  ℕ, zero, suc, ◌+◌, ◌/◌, ◌%◌, Bool, true, false, not, ◌&&◌, Option, none, some, List, [], ◌∷◌,
  ◌++◌, ◌==◌, ltb, if◌then◌else◌,
}
use genjishimada.Base.Text.{Text, codes}
use genjishimada.Economy.Action.{no_awaiting_results_edition}
use genjishimada.Economy.Lootbox.{XpGrantEvent}
use genjishimada.Tournament.Tables.{
  Tournaments, Edition, Standing, CycleCompleted, TransitionType, Transition, Message,
}
use genjishimada.Tournament.Action.{Step, done, fail, reads, changes, ◌>>=◌, ◌>>◌}
use genjishimada.Tournament.Leaderboard.{fetch_leaderboard}
use genjishimada.Tournament.Rewards.{award_cycle_placements, award_edition_streaks}
use genjishimada.Tournament.EditionRepository.{
  count_inflight_verifications, fetch_awaiting_results_editions, fetch_edition_child_cycles,
  mark_edition_start_announced, complete_edition, create_pending_transition,
  fetch_unpublished_transitions, mark_transition_published,
}

-- The decimal digits of a number, before a text; a number has fewer digits than units.
unfoldable pub decimal_onto : ℕ → ℕ → Text → Text
decimal_onto zero n digits = digits
decimal_onto (suc fuel) n digits =
    let rest = decimal_onto fuel (n / 10) ((48 + n % 10) ∷ digits) in
    if ltb n 10 then (48 + n) ∷ digits else rest

-- `str(n)`
unfoldable pub decimal : ℕ → Text
unfolding decimal_onto
decimal n = decimal_onto (suc n) n []

-- The key of the message at the end of an edition.
unfoldable pub end_key : ℕ → Text
unfolding decimal
end_key i = codes "tournament:rollover:" ++ decimal i

-- `_idempotency_key`
unfoldable pub idempotency_key : TransitionType → ℕ → Text
unfolding decimal
idempotency_key TransitionType.edition_results i = codes "tournament:results:" ++ decimal i
idempotency_key TransitionType.edition_rollover i =
    codes "tournament:rollover:" ++ (decimal i ++ codes ":start")

-- `publish_message`
abbrev pub publish_message : Message → Tournaments → Tournaments
publish_message m t = record t { messages = m ∷ t.messages }

abbrev pub winner_of : List Standing → Option ℕ
winner_of [] = none
winner_of (s ∷ ss) = if s.rank == 1 then some s.user_id else none

-- `_build_cycle_completed_event`
unfoldable pub build_cycle_completed_event : Tournaments → ℕ × ℕ → CycleCompleted
unfolding fetch_leaderboard
build_cycle_completed_event t (c, k) = record {
  cycle_id = c;
  category_id = k;
  standings = fetch_leaderboard c t;
  winner_user_id = winner_of (fetch_leaderboard c t);
}

abbrev pub build_events : Tournaments → List (ℕ × ℕ) → List CycleCompleted
build_events t [] = []
build_events t (child ∷ rest) = build_cycle_completed_event t child ∷ build_events t rest

-- `_write_drained_results_row`
unfoldable pub write_drained_results_row : ℕ → Step (Unit {0})
unfolding create_pending_transition complete_edition
write_drained_results_row i = do
  results ← reads (λ t. build_events t (fetch_edition_child_cycles i t))
  create_pending_transition TransitionType.edition_results i results
  changes (complete_edition i)

abbrev pub rollover : ℕ → List CycleCompleted → Bool → Message
rollover i results pending = record {
  event_type = TransitionType.edition_rollover;
  edition_id = i;
  results = results;
  results_pending = pending;
  idempotency_key = end_key i;
}

-- The loop over the children: each event, built and rewarded.
unfoldable pub award_children :
    List (ℕ × ℕ)
    → List CycleCompleted
    → List XpGrantEvent
    → Step (List CycleCompleted × List XpGrantEvent)
award_children [] results pending = done (results, pending)
award_children (child ∷ rest) results pending = do
  entry ← reads (λ t. build_cycle_completed_event t child)
  granted ← award_cycle_placements entry
  award_children rest (results ++ (entry ∷ [])) (pending ++ granted)

-- The first tick of an edition without runs in flight.
unfoldable pub publish_results : ℕ → Step (List XpGrantEvent)
unfolding award_children complete_edition
publish_results i = do
  children ← reads (fetch_edition_child_cycles i)
  awarded ← award_children children [] []
  streaks ← award_edition_streaks (awarded.0)
  changes (publish_message (rollover i (awarded.0) false))
  changes (complete_edition i)
  done (awarded.1 ++ streaks)

-- The first tick of an edition with runs in flight: the mark, then the message.
abbrev pub announce_start : ℕ → Step (List XpGrantEvent)
announce_start i = do
  changes (mark_edition_start_announced i)
  changes (publish_message (rollover i [] true))
  done []

-- One round of the loop over the editions that await results.
unfoldable pub process_edition : ℕ × Edition → Step (List XpGrantEvent)
unfolding publish_results write_drained_results_row count_inflight_verifications
process_edition (i, e) = do
  inflight ← reads (count_inflight_verifications i)
  (if not e.start_announced && ltb 0 inflight
      then announce_start i
      else if not e.start_announced && (inflight == 0)
      then publish_results i
      else if inflight == 0
      then write_drained_results_row i >> done []
      else done [])

unfoldable pub process_editions : List (ℕ × Edition) → List XpGrantEvent → Step (List XpGrantEvent)
unfolding process_edition
process_editions [] pending = done pending
process_editions (e ∷ es) pending = do
  granted ← process_edition e
  process_editions es (pending ++ granted)

-- `process_awaiting_results_editions`
unfoldable pub process_awaiting_results_editions : Step (List XpGrantEvent)
unfolding process_editions
process_awaiting_results_editions = do
  editions ← reads fetch_awaiting_results_editions
  process_editions editions []

-- `for entry in event.results: award_cycle_placements(entry)`
unfoldable pub award_results : List CycleCompleted → List XpGrantEvent → Step (List XpGrantEvent)
award_results [] pending = done pending
award_results (entry ∷ rest) pending = do
  granted ← award_cycle_placements entry
  award_results rest (pending ++ granted)

-- `_build_event`, of a decoded payload
abbrev pub build_event : Transition → Message
build_event r = record {
  event_type = r.event_type;
  edition_id = r.edition_id;
  results = r.results;
  results_pending = false;
  idempotency_key = idempotency_key r.event_type r.edition_id;
}

-- One round of the loop over the outbox: the awards, the message, then the mark.
unfoldable pub publish_row : ℕ × Transition → List XpGrantEvent → Step (List XpGrantEvent)
unfolding award_results
publish_row (i, r) pending = do
  granted ← award_results r.results pending
  streaks ← award_edition_streaks r.results
  changes (publish_message (build_event r))
  changes (mark_transition_published i)
  done (granted ++ streaks)

unfoldable pub publish_rows : List (ℕ × Transition) → List XpGrantEvent → Step (List XpGrantEvent)
unfolding publish_row
publish_rows [] pending = done pending
publish_rows (row ∷ rows) pending = do
  pending' ← publish_row row pending
  publish_rows rows pending'

-- The transaction of `publish_pending_transitions`
unfoldable pub publish_pending_transitions : Step (List XpGrantEvent)
unfolding process_awaiting_results_editions publish_rows
publish_pending_transitions = do
  pending ← process_awaiting_results_editions
  rows ← reads fetch_unpublished_transitions
  publish_rows rows pending

abbrev pub force_first : List (ℕ × Edition) → Step (Unit {0})
force_first [] = fail no_awaiting_results_edition
force_first (e ∷ es) = write_drained_results_row (e.0)

-- `force_publish_results`
unfoldable pub force_publish_results : Step (Unit {0})
unfolding write_drained_results_row
force_publish_results = do editions ← reads fetch_awaiting_results_editions; force_first editions
