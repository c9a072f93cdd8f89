-- ===== src/Playtest/Tests.antt =====
-- Runs of playtests on concrete tables, and instances of the theorems about them.
use genjishimada.Base.{◌≡◌, refl, true, false, none, some, List, [], ◌∷◌, arith}
use genjishimada.Base.Dict.{lookup}
use genjishimada.Base.Int.{pos}
use genjishimada.Base.Outcome.{returned, raised, state_of}
use genjishimada.Base.Text.{Text, codes}
use genjishimada.Difficulty.{ranges_all, convert_raw, convert_raw_all}
use genjishimada.Playtest.Tables.{Map, Playtests, approved, in_progress, creator_not_found}
use genjishimada.Playtest.Repository.{
  Average, rounded, get_map_id_from_thread, get_average_difficulty, insert_vote, check_vote_exists,
  remove_vote, approve_playtest, get_map_code, get_primary_creator,
}
use genjishimada.Playtest.Service.{
  PlaytestEvent, vote_cast, vote_removed, playtest_approved, convert_average, cast_vote,
  delete_vote, approve,
}
use genjishimada.Playtest.Votes.{cast_vote_last}
use genjishimada.Playtest.Promise.{
  PlaytestWf, Call, casts, approves, denies, resets, handle_all, handle_all-PlaytestWf,
}
use genjishimada.Playtest.Decisions.{
  Approved, ApprovedWithout, approve_sound, approve_names_agree, approve_raises_after_commit,
}

-- A map in playtesting on thread 10, which users 7 and 8 have completed; 8 has voted 3.00.
abbrev garden : Map
garden = record {
  code = codes "ABC12";
  playtesting = in_progress;
  hidden = false;
  raw_difficulty = 500;
  difficulty = codes "Hard";
}

abbrev start : Playtests
start = record {
  maps = (1, garden) ∷ [];
  creators = record { map_id = 1; user_id = 5; is_primary = true } ∷ [];
  meta =
      record {
        id = 3;
        thread_id = some 10;
        map_id = 1;
        verification_id = none;
        initial_difficulty = 500;
        created_at = 40;
        completed = false;
      }
      ∷ [];
  votes = record { user_id = 8; map_id = 1; playtest_thread_id = 10; difficulty = 300 } ∷ [];
  completions =
      record { map_id = 1; user_id = 7; verified = true; legacy = false; inserted_at = 50 }
      ∷ record { map_id = 1; user_id = 8; verified = true; legacy = false; inserted_at = 60 }
      ∷ [];
}

abbrev voted : Playtests
voted = state_of (cast_vote 10 7 (pos 150) start)

abbrev voted_again : Playtests
voted_again = state_of (cast_vote 10 7 (pos 200) voted)

abbrev voted_once : Playtests
voted_once = state_of (cast_vote 10 7 (pos 200) start)

first_vote : cast_vote 10 7 (pos 150) start ≡ returned (vote_cast 10 7 (pos 150)) voted
unfolding cast_vote insert_vote get_map_id_from_thread
first_vote = refl

second_vote : cast_vote 10 7 (pos 200) voted ≡ returned (vote_cast 10 7 (pos 200)) voted_again
unfolding cast_vote insert_vote get_map_id_from_thread
second_vote = refl

only_vote : cast_vote 10 7 (pos 200) start ≡ returned (vote_cast 10 7 (pos 200)) voted_once
unfolding cast_vote insert_vote get_map_id_from_thread
only_vote = refl

cast_vote_last_example : voted_again ≡ voted_once
cast_vote_last_example =
    cast_vote_last 10 7 (pos 150) (pos 200) start voted voted_again voted_once
      (vote_cast 10 7 (pos 150)) (vote_cast 10 7 (pos 200)) (vote_cast 10 7 (pos 200)) first_vote
      second_vote only_vote

abbrev unvoted : Playtests
unvoted = state_of (delete_vote 10 8 start)

vote_gone : delete_vote 10 8 start ≡ returned (vote_removed 10 8) unvoted
unfolding delete_vote remove_vote check_vote_exists
vote_gone = refl

start-PlaytestWf : PlaytestWf start
unfolding convert_raw_all convert_raw
start-PlaytestWf = ((omega arith, tt), ((omega arith, refl), tt))

abbrev calls : List Call
calls = casts 10 7 (pos 200) ∷ approves 10 99 ∷ denies 10 99 ∷ resets 10 99 true false ∷ []

handle_all-PlaytestWf_example : PlaytestWf (handle_all calls start)
handle_all-PlaytestWf_example = handle_all-PlaytestWf calls start start-PlaytestWf

abbrev approval_event : PlaytestEvent
approval_event = playtest_approved (codes "ABC12") 10 (codes "Medium -") 99 5

abbrev decided : Playtests
decided = state_of (approve 10 99 voted_once)

garden_approved : approve 10 99 voted_once ≡ returned approval_event decided
unfolding cast_vote insert_vote get_map_id_from_thread approve get_average_difficulty
    approve_playtest get_map_code get_primary_creator convert_average
garden_approved = refl

approve_sound_example : Approved 10 99 voted_once approval_event decided
approve_sound_example = approve_sound 10 99 voted_once decided approval_event garden_approved

abbrev votes_average : Average
votes_average = record { sum = 500; terms = 2 }

abbrev approved_garden : Map
approved_garden = record garden {
  playtesting = approved;
  raw_difficulty = 250;
  difficulty = codes "Medium -";
}

garden_found : get_map_id_from_thread 10 voted_once ≡ some 1
unfolding cast_vote insert_vote get_map_id_from_thread
garden_found = refl

average_found : get_average_difficulty 10 voted_once ≡ some votes_average
unfolding cast_vote insert_vote get_map_id_from_thread get_average_difficulty
average_found = refl

garden_after : lookup 1 decided.maps ≡ some approved_garden
unfolding cast_vote insert_vote get_map_id_from_thread approve get_average_difficulty
    approve_playtest get_map_code get_primary_creator convert_average convert_raw_all convert_raw
garden_after = refl

approve_names_agree_example : ◌≡◌ {A = Text} (codes "Medium -") (codes "Medium -")
approve_names_agree_example =
    approve_names_agree 10 99 1 250 votes_average approved_garden (codes "ABC12") (codes "Medium -")
      5 voted_once decided garden_approved garden_found average_found refl garden_after

-- Votes of 1.17 and 1.18: the average 1.175 is approval_event as `Easy -`, and stored as 1.18, `Easy`.
abbrev close : Average
close = record { sum = 235; terms = 2 }

names_apart :
    (convert_average ranges_all close ≡ some (codes "Easy -"))
    × (convert_raw_all (rounded close) ≡ some (codes "Easy"))
unfolding convert_average convert_raw_all convert_raw
names_apart = (refl, refl)

abbrev orphan : Playtests
orphan = record start { creators = [] }

orphan_raises : approve 10 99 orphan ≡ raised creator_not_found (state_of (approve 10 99 orphan))
unfolding get_map_id_from_thread approve get_average_difficulty approve_playtest get_map_code
    get_primary_creator
orphan_raises = refl

approve_raises_after_commit_example : ApprovedWithout 10 orphan (state_of (approve 10 99 orphan))
approve_raises_after_commit_example =
    approve_raises_after_commit 10 99 orphan (state_of (approve 10 99 orphan)) orphan_raises
