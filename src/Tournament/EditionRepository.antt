-- ===== src/Tournament/EditionRepository.antt =====
-- The statements of apps/api/repository/tournaments_repository.py on editions, cycles and the outbox.
use genjishimada.Base.{
  ℕ, suc, Bool, true, false, ◌&&◌, Option, none, some, List, [], ◌∷◌, ◌==◌, leb, if◌then◌else◌,
}
use genjishimada.Base.Dict.{Dict, lookup, insert, contains}
use genjishimada.Economy.Action.{foreign_key_violation}
use genjishimada.Tournament.Tables.{
  Tournaments, Cycle, CycleStatus, Edition, EditionStatus, RunStatus, Completion, CycleCompleted,
  TransitionType, Transition,
}
use genjishimada.Tournament.Action.{Step, done, fail}

abbrev pub is_pending : RunStatus → Bool
is_pending RunStatus.pending = true
is_pending RunStatus.verified = false
is_pending RunStatus.rejected = false

abbrev pub is_open : CycleStatus → Bool
is_open CycleStatus.pending = false
is_open CycleStatus.active = true
is_open CycleStatus.finalizing = true
is_open CycleStatus.completed = false

abbrev pub is_finalizing : CycleStatus → Bool
is_finalizing CycleStatus.pending = false
is_finalizing CycleStatus.active = false
is_finalizing CycleStatus.finalizing = true
is_finalizing CycleStatus.completed = false

abbrev pub is_awaiting : EditionStatus → Bool
is_awaiting EditionStatus.active = false
is_awaiting EditionStatus.awaiting_results = true
is_awaiting EditionStatus.completed = false

abbrev pub open_cycle_of : ℕ → Option Cycle → Bool
open_cycle_of i none = false
open_cycle_of i (some cy) = (i == cy.edition_id) && is_open cy.status

abbrev pub count_pending : ℕ → Dict Cycle → List Completion → ℕ
count_pending i cycles [] = 0
count_pending i cycles (x ∷ xs) =
    if is_pending x.status && open_cycle_of i (lookup x.cycle_id cycles)
    then suc (count_pending i cycles xs)
    else count_pending i cycles xs

-- `count_inflight_verifications`
unfoldable pub count_inflight_verifications : ℕ → Tournaments → ℕ
count_inflight_verifications i t = count_pending i t.cycles t.completions

abbrev pub insert_edition : ℕ × Edition → List (ℕ × Edition) → List (ℕ × Edition)
insert_edition e [] = e ∷ []
insert_edition e (f ∷ fs) =
    if leb e.1.ends_at f.1.ends_at then e ∷ f ∷ fs else f ∷ insert_edition e fs

abbrev pub awaiting : Dict Edition → List (ℕ × Edition)
awaiting [] = []
awaiting (e ∷ d) = if is_awaiting e.1.status then insert_edition e (awaiting d) else awaiting d

-- `fetch_awaiting_results_editions`, by the moment of their end
abbrev pub fetch_awaiting_results_editions : Tournaments → List (ℕ × Edition)
fetch_awaiting_results_editions t = awaiting t.editions

abbrev pub insert_child : ℕ × ℕ → List (ℕ × ℕ) → List (ℕ × ℕ)
insert_child e [] = e ∷ []
insert_child e (f ∷ fs) = if leb e.0 f.0 then e ∷ f ∷ fs else f ∷ insert_child e fs

abbrev pub children_of : ℕ → Dict Cycle → List (ℕ × ℕ)
children_of i [] = []
children_of i (e ∷ d) =
    if (i == e.1.edition_id) && is_finalizing e.1.status
    then insert_child (e.0, e.1.category_id) (children_of i d)
    else children_of i d

-- `fetch_edition_child_cycles`: id and category of each finalizing cycle, by the id
abbrev pub fetch_edition_child_cycles : ℕ → Tournaments → List (ℕ × ℕ)
fetch_edition_child_cycles i t = children_of i t.cycles

abbrev pub announced : Option Edition → ℕ → Dict Edition → Dict Edition
announced none i d = d
announced (some e) i d = insert i (record e { start_announced = true }) d

-- `mark_edition_start_announced`
abbrev pub mark_edition_start_announced : ℕ → Tournaments → Tournaments
mark_edition_start_announced i t = record t {
  editions = announced (lookup i t.editions) i t.editions;
}

abbrev pub complete_cycles : ℕ → Dict Cycle → Dict Cycle
complete_cycles i [] = []
complete_cycles i (e ∷ d) =
    (if i == e.1.edition_id then (e.0, record e.1 { status = CycleStatus.completed }) else e)
    ∷ complete_cycles i d

abbrev pub completed_edition : Option Edition → ℕ → Dict Edition → Dict Edition
completed_edition none i d = d
completed_edition (some e) i d = insert i (record e { status = EditionStatus.completed }) d

-- `complete_edition`
unfoldable pub complete_edition : ℕ → Tournaments → Tournaments
complete_edition i t = record t {
  cycles = complete_cycles i t.cycles;
  editions = completed_edition (lookup i t.editions) i t.editions;
}

-- `create_pending_transition` of an edition
unfoldable pub create_pending_transition :
    TransitionType → ℕ → List CycleCompleted → Step (Unit {0})
create_pending_transition k i results t =
    let row : Transition = record {
      event_type = k;
      edition_id = i;
      results = results;
      published = false;
    } in
    if contains i t.editions
    then done tt (record t {
      transitions = insert t.next_transition_id row t.transitions;
      next_transition_id = suc t.next_transition_id;
    })
    else fail foreign_key_violation t

abbrev pub unpublished : Dict Transition → List (ℕ × Transition)
unpublished [] = []
unpublished (e ∷ d) = if e.1.published then unpublished d else e ∷ unpublished d

-- `fetch_unpublished_transitions`, in the order of their creation
abbrev pub fetch_unpublished_transitions : Tournaments → List (ℕ × Transition)
fetch_unpublished_transitions t = unpublished t.transitions

abbrev pub published_row : Option Transition → ℕ → Dict Transition → Dict Transition
published_row none i d = d
published_row (some r) i d = insert i (record r { published = true }) d

-- `mark_transition_published`
abbrev pub mark_transition_published : ℕ → Tournaments → Tournaments
mark_transition_published i t = record t {
  transitions = published_row (lookup i t.transitions) i t.transitions;
}
