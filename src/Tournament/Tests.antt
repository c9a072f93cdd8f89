-- ===== src/Tournament/Tests.antt =====
-- Runs of the tournament services on the tables of Samples, and instances of the theorems.
use genjishimada.Base.{ℕ, ◌≡◌, refl, true, false, arith, some, List, [], ◌∷◌}
use genjishimada.Base.Dict.{lookup}
use genjishimada.Base.Text.{codes}
use genjishimada.Economy.Action.{Result, ok, err}
use genjishimada.Economy.Lootbox.{XpGrantEvent, grant_xp}
use genjishimada.Economy.LootboxRepository.{upsert_user_xp}
use genjishimada.Tournament.Tables.{Edition, EditionStatus, Tournaments, Completion, CycleCompleted}
use genjishimada.Tournament.Repository.{claim_xp_grant, advance_streak}
use genjishimada.Tournament.Leaderboard.{leads, fetch_leaderboard}
use genjishimada.Tournament.Rewards.{
  ledger_grant, after_claim, award_participation, award_places, award_cycle_placements,
  advance_participants, reset_others, award_edition_streaks,
}
use genjishimada.Tournament.Outbox.{
  decimal, decimal_onto, end_key, publish_pending_transitions, process_awaiting_results_editions,
  process_editions, process_edition, publish_results, award_children, publish_rows,
  build_cycle_completed_event,
}
use genjishimada.Tournament.EditionRepository.{complete_edition, count_inflight_verifications}
use genjishimada.Tournament.Ledger.{LedgerKept}
use genjishimada.Tournament.Placements.{award_cycle_placements_once}
use genjishimada.Tournament.EditionStreaks.{
  StreaksBounded, award_edition_streaks-lookup, award_edition_streaks-StreaksBounded,
}
use genjishimada.Tournament.EditionReplay.{award_edition_streaks_once}
use genjishimada.Tournament.OutboxLedger.{publish_pending_transitions-LedgerKept}
use genjishimada.Tournament.Listed.{stands, stands-fetch_leaderboard}
use genjishimada.Tournament.Editions.{Round, process_edition-Round}
use genjishimada.Tournament.Winner.{Wins, build_cycle_completed_event-Wins}
use genjishimada.Tournament.Samples.{cup, cycle_eleven, cycle_twelve}

abbrev events_of : Result (List XpGrantEvent × Tournaments) → List XpGrantEvent
events_of (ok (evs, t)) = evs
events_of (err e) = []

abbrev tables_of : Result (List XpGrantEvent × Tournaments) → Tournaments
tables_of (ok (evs, t)) = t
tables_of (err e) = cup

number_is_printed : end_key 105 ≡ codes "tournament:rollover:105"
unfolding end_key decimal decimal_onto
number_is_printed = refl

abbrev placed : Tournaments
placed = tables_of (award_cycle_placements cycle_eleven cup)

eleven_is_awarded :
    award_cycle_placements cycle_eleven cup
    ≡ ok (events_of (award_cycle_placements cycle_eleven cup), placed)
unfolding award_cycle_placements award_places ledger_grant claim_xp_grant after_claim grant_xp
    upsert_user_xp
eleven_is_awarded = refl

places_pay : lookup 1 placed.economy.xp ≡ some 600
unfolding award_cycle_placements award_places ledger_grant claim_xp_grant after_claim grant_xp
    upsert_user_xp
places_pay = refl

award_cycle_placements_once_example : award_cycle_placements cycle_eleven placed ≡ ok ([], placed)
award_cycle_placements_once_example =
    award_cycle_placements_once cycle_eleven (events_of (award_cycle_placements cycle_eleven cup))
      cup placed eleven_is_awarded

abbrev joined : Tournaments
joined = tables_of (award_participation 11 7 2 cup)

two_is_awarded :
    award_participation 11 7 2 cup ≡ ok (events_of (award_participation 11 7 2 cup), joined)
unfolding award_participation ledger_grant claim_xp_grant after_claim grant_xp upsert_user_xp
two_is_awarded = refl

abbrev edition : List CycleCompleted
edition = cycle_eleven ∷ cycle_twelve ∷ []

abbrev counted : Tournaments
counted = tables_of (award_edition_streaks edition cup)

five_is_counted :
    award_edition_streaks edition cup ≡ ok (events_of (award_edition_streaks edition cup), counted)
unfolding award_edition_streaks advance_participants reset_others advance_streak ledger_grant
    claim_xp_grant after_claim grant_xp upsert_user_xp
five_is_counted = refl

award_edition_streaks-lookup_example :
    lookup 3 counted.streaks
    ≡ some (record { current_streak = 0; max_streak = 6; last_cycle_id = some 12 })
award_edition_streaks-lookup_example =
    award_edition_streaks-lookup cycle_eleven (cycle_twelve ∷ []) 3
      (events_of (award_edition_streaks edition cup)) cup counted five_is_counted

cup-StreaksBounded : StreaksBounded cup
cup-StreaksBounded v = ground arith

award_edition_streaks-StreaksBounded_example : StreaksBounded counted
award_edition_streaks-StreaksBounded_example =
    award_edition_streaks-StreaksBounded edition (events_of (award_edition_streaks edition cup)) cup
      counted cup-StreaksBounded five_is_counted

award_edition_streaks_once_example : award_edition_streaks edition counted ≡ ok ([], counted)
award_edition_streaks_once_example =
    award_edition_streaks_once edition (events_of (award_edition_streaks edition cup)) cup counted
      five_is_counted

abbrev polled : Tournaments
polled = tables_of (publish_pending_transitions cup)

cup_is_polled :
    publish_pending_transitions cup ≡ ok (events_of (publish_pending_transitions cup), polled)
unfolding publish_pending_transitions process_awaiting_results_editions process_editions
    process_edition count_inflight_verifications publish_results award_children
    build_cycle_completed_event fetch_leaderboard leads complete_edition publish_rows
    award_cycle_placements award_places award_edition_streaks advance_participants reset_others
    advance_streak ledger_grant claim_xp_grant after_claim grant_xp upsert_user_xp
cup_is_polled = refl

publish_pending_transitions-LedgerKept_example : LedgerKept cup polled
publish_pending_transitions-LedgerKept_example =
    publish_pending_transitions-LedgerKept (events_of (publish_pending_transitions cup)) cup polled
      tt cup_is_polled

abbrev five : ℕ
five = 5

stands-fetch_leaderboard_example : stands 2 (fetch_leaderboard 11 cup) ≡ true
stands-fetch_leaderboard_example = stands-fetch_leaderboard 11 2 cup

one_wins : (build_cycle_completed_event cup (11, 7)).winner_user_id ≡ some 1
unfolding build_cycle_completed_event fetch_leaderboard leads
one_wins = refl

build_cycle_completed_event-Wins_example : (w : Completion) × Wins 11 1 cup.completions w
build_cycle_completed_event-Wins_example = build_cycle_completed_event-Wins 11 7 1 cup one_wins

abbrev cup_edition : Edition
cup_edition = record {
  status = EditionStatus.awaiting_results;
  start_announced = false;
  ends_at = 90;
}

abbrev rounded_time : Tournaments
rounded_time = tables_of (process_edition (5, cup_edition) cup)

five_is_processed :
    process_edition (5, cup_edition) cup
    ≡ ok (events_of (process_edition (5, cup_edition) cup), rounded_time)
unfolding process_edition count_inflight_verifications publish_results award_children
    build_cycle_completed_event fetch_leaderboard leads complete_edition award_cycle_placements
    award_places award_edition_streaks advance_participants reset_others advance_streak ledger_grant
    claim_xp_grant after_claim grant_xp upsert_user_xp
five_is_processed = refl

process_edition-Round_example :
    Round 5 cup_edition (events_of (process_edition (5, cup_edition) cup)) cup rounded_time
process_edition-Round_example =
    process_edition-Round 5 cup_edition (events_of (process_edition (5, cup_edition) cup)) cup
      rounded_time refl five_is_processed
