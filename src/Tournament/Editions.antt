-- ===== src/Tournament/Editions.antt =====
-- What one round of `process_awaiting_results_editions`
-- (apps/api/services/tournament_outbox_service.py) makes of an edition.
use genjishimada.Base.{
  ℕ, ◌<◌, ◌≡◌, ◌⊎◌, refl, ap, ◌∙◌, arith, true, false, some, List, [], ◌∷◌, ◌++◌, ◌==◌,
  if◌then◌else◌, Bool-cases, inl, inr,
}
use genjishimada.Base.Dict.{lookup, insert, lookup-insert_self}
use genjishimada.Economy.Action.{Result, ok}
use genjishimada.Economy.Lootbox.{XpGrantEvent}
use genjishimada.Tournament.Tables.{
  Tournaments, Edition, EditionStatus, Transition, TransitionType, CycleCompleted, Message,
}
use genjishimada.Tournament.Action.{bind_ok, done, changes, ◌>>=◌, ◌>>◌}
use genjishimada.Tournament.EditionRepository.{
  count_inflight_verifications, fetch_edition_child_cycles, complete_edition,
  create_pending_transition,
}
use genjishimada.Tournament.Leaderboard.{fetch_leaderboard}
use genjishimada.Tournament.Rewards.{award_cycle_placements, award_edition_streaks}
use genjishimada.Tournament.Outbox.{
  build_cycle_completed_event, build_events, award_children, rollover, publish_message,
  publish_results, write_drained_results_row, process_edition,
}
use genjishimada.Tournament.Untouched.{SameRest, SameRest-trans, Leaves-placements, Leaves-streaks}

-- The results of an edition: the events of its cycles that are being finalized.
abbrev pub results_of : ℕ → Tournaments → List CycleCompleted
results_of i t = build_events t (fetch_edition_child_cycles i t)

build_events_same :
    (t t' : Tournaments) (cs : List (ℕ × ℕ))
    → SameRest t t'
    → build_events t' cs ≡ build_events t cs
unfolding build_cycle_completed_event fetch_leaderboard
build_events_same t t' [] h = refl
build_events_same t t' ((c, k) ∷ cs) h =
    let runs : t'.completions ≡ t.completions = ap (λ (x : Tournaments). x.completions) h in
    rw (runs, build_events_same t t' cs h) refl

append_one :
    (xs zs : List CycleCompleted) (y : CycleCompleted) → (xs ++ (y ∷ [])) ++ zs ≡ xs ++ (y ∷ zs)
append_one [] zs y = refl
append_one (x ∷ xs) zs y = ap (λ rest. x ∷ rest) (append_one xs zs y)

append_nil : (xs : List CycleCompleted) → xs ++ [] ≡ xs
append_nil [] = refl
append_nil (x ∷ xs) = ap (λ rest. x ∷ rest) (append_nil xs)

award_children-results :
    (cs : List (ℕ × ℕ)) (results : List CycleCompleted) (pending : List XpGrantEvent)
    (rs : List CycleCompleted) (evs : List XpGrantEvent) (t t' : Tournaments)
    → award_children cs results pending t ≡ ok ((rs, evs), t')
    → SameRest t t' × (rs ≡ results ++ build_events t cs)
unfolding award_children
award_children-results [] results pending rs evs t t' h =
    (ground arith, ground (arith, append_nil results))
award_children-results (child ∷ cs) results pending rs evs t t' h =
    let entry = build_cycle_completed_event t child in
    let (granted, t1, first, rest) =
      bind_ok (award_cycle_placements entry)
        (λ granted. award_children cs (results ++ (entry ∷ [])) (pending ++ granted)) (rs, evs) t t'
        h in
    let same = Leaves-placements entry granted t t1 first in
    let (later, found) =
      award_children-results cs (results ++ (entry ∷ [])) (pending ++ granted) rs evs t1 t' rest in
    (
      SameRest-trans t t1 t' same later,
      found
          ∙ append_one results (build_events t1 cs) entry
          ∙ ap (λ rest. results ++ (entry ∷ rest)) (build_events_same t t1 cs same),
    )

-- The tables after an announcement of the start.
abbrev pub start_announced : ℕ → Edition → Tournaments → Tournaments
start_announced i e t = record t {
  editions = insert i (record e { start_announced = true }) t.editions;
  messages = rollover i [] true ∷ t.messages;
}

-- The row of the outbox with an edition's results.
abbrev pub results_row : ℕ → Tournaments → Transition
results_row i t = record {
  event_type = TransitionType.edition_results;
  edition_id = i;
  results = results_of i t;
  published = false;
}

-- The four ways in which a round ends.
abbrev pub Round : ℕ → Edition → List XpGrantEvent → Tournaments → Tournaments → Type 0
Round i e evs t t' =
    let done_edition = some (record e { status = EditionStatus.completed }) in
    ((0 < count_inflight_verifications i t)
      × (evs ≡ [])
      × (t' ≡ (if e.start_announced then t else start_announced i e t)))
    ⊎ ((count_inflight_verifications i t ≡ 0)
        × (e.start_announced ≡ false)
        × (lookup i t'.editions ≡ done_edition)
        × (t'.messages ≡ rollover i (results_of i t) false ∷ t.messages)
        × (t'.transitions ≡ t.transitions))
    ⊎ ((count_inflight_verifications i t ≡ 0)
        × (e.start_announced ≡ true)
        × (evs ≡ [])
        × (lookup i t'.editions ≡ done_edition)
        × (t'.transitions ≡ insert t.next_transition_id (results_row i t) t.transitions)
        × (t'.messages ≡ t.messages)
        × (t'.economy ≡ t.economy)
        × (t'.xp_grants ≡ t.xp_grants)
        × (t'.streaks ≡ t.streaks))

completed_after :
    (i : ℕ) (e : Edition) (m : Message) (t t2 t' : Tournaments)
    → lookup i t.editions ≡ some e
    → SameRest t t2
    → t' ≡ complete_edition i (publish_message m t2)
    → (lookup i t'.editions ≡ some (record e { status = EditionStatus.completed }))
      × (t'.messages ≡ m ∷ t.messages)
      × (t'.transitions ≡ t.transitions)
unfolding complete_edition
completed_after i e m t t2 t' found same ended =
    let editions : t2.editions ≡ t.editions = ap (λ (x : Tournaments). x.editions) same in
    let messages : t2.messages ≡ t.messages = ap (λ (x : Tournaments). x.messages) same in
    let transitions : t2.transitions ≡ t.transitions =
      ap (λ (x : Tournaments). x.transitions) same in
    rw (ended, editions, messages, transitions, found)
      (lookup-insert_self i (record e { status = EditionStatus.completed }) t.editions, refl, refl)

ok_tables :
    (a b : List XpGrantEvent) (t t' : Tournaments)
    → ◌≡◌ {A = Result (List XpGrantEvent × Tournaments)} (ok (a, t)) (ok (b, t'))
    → t' ≡ t
ok_tables a b t t' h = ground arith

publish_results-outcome :
    (i : ℕ) (e : Edition) (evs : List XpGrantEvent) (t t' : Tournaments)
    → lookup i t.editions ≡ some e
    → publish_results i t ≡ ok (evs, t')
    → (lookup i t'.editions ≡ some (record e { status = EditionStatus.completed }))
      × (t'.messages ≡ rollover i (results_of i t) false ∷ t.messages)
      × (t'.transitions ≡ t.transitions)
unfolding publish_results complete_edition
publish_results-outcome i e evs t t' found h =
    let children = fetch_edition_child_cycles i t in
    let ((rs, granted), t1, first, then_streaks) =
      bind_ok (award_children children [] [])
        (λ awarded. award_edition_streaks (awarded.0) >>= λ streaks.
          changes (publish_message (rollover i (awarded.0) false))
          >> changes (complete_edition i)
          >> done (awarded.1 ++ streaks))
        evs t t' h in
    let (streaks, t2, second, ended) =
      bind_ok (award_edition_streaks rs)
        (λ streaks.
          changes (publish_message (rollover i rs false))
          >> changes (complete_edition i)
          >> done (granted ++ streaks))
        evs t1 t' then_streaks in
    let (same, built) = award_children-results children [] [] rs granted t t1 first in
    let (edition, messages, transitions) =
      completed_after i e (rollover i rs false) t t2 t' found
        (SameRest-trans t t1 t2 same (Leaves-streaks rs streaks t1 t2 second))
        (ok_tables (granted ++ streaks) evs
          (complete_edition i (publish_message (rollover i rs false) t2)) t' ended) in
    (edition, messages ∙ ap (λ x. rollover i x false ∷ t.messages) built, transitions)

drained-outcome :
    (i : ℕ) (e : Edition) (evs : List XpGrantEvent) (t t' : Tournaments)
    → lookup i t.editions ≡ some e
    → (write_drained_results_row i >> done []) t ≡ ok (evs, t')
    → (evs ≡ [])
      × (lookup i t'.editions ≡ some (record e { status = EditionStatus.completed }))
      × (t'.transitions ≡ insert t.next_transition_id (results_row i t) t.transitions)
      × (t'.messages ≡ t.messages)
      × (t'.economy ≡ t.economy)
      × (t'.xp_grants ≡ t.xp_grants)
      × (t'.streaks ≡ t.streaks)
unfolding write_drained_results_row create_pending_transition complete_edition
drained-outcome i e evs t t' found h =
    ground (arith, lookup-insert_self i (record e { status = EditionStatus.completed }) t.editions)

-- One round of the poll over an edition that awaits its results. While runs are in flight nothing is
-- granted: the start is announced once, without results, and later rounds change nothing. Once none
-- is in flight the edition is completed: with its results in one message where nothing was announced
-- before, and otherwise with one unpublished outbox row that holds them, and nothing granted yet.
pub process_edition-Round :
    (i : ℕ) (e : Edition) (evs : List XpGrantEvent) (t t' : Tournaments)
    → lookup i t.editions ≡ some e
    → process_edition (i, e) t ≡ ok (evs, t')
    → Round i e evs t t'
unfolding process_edition
process_edition-Round i e evs t t' found h =
    elim (Bool-cases (count_inflight_verifications i t == 0)) [
      | inr waiting ↦ elim (Bool-cases e.start_announced) [
        | inr first ↦ inl (ground arith, ground (arith, first), ground (arith, first, found))
        | inl later ↦ inl (ground arith, ground (arith, later), ground (arith, later))
      ]
      | inl drained ↦ elim (Bool-cases e.start_announced) [
        | inr first ↦
            let ran : publish_results i t ≡ ok (evs, t') = ground (arith, first, drained) in
            let (edition, messages, rows) = publish_results-outcome i e evs t t' found ran in
            inr (inl (ground arith, first, edition, messages, rows))
        | inl later ↦
            let ran : (write_drained_results_row i >> done []) t ≡ ok (evs, t') =
              ground (arith, later, drained) in
            let (nothing, edition, row, messages, economy, ledger, streaks) =
              drained-outcome i e evs t t' found ran in
            inr
              (inr (ground arith, later, nothing, edition, row, messages, economy, ledger, streaks))
      ]
    ]
