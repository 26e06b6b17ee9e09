-- ===== src/Hub/Unrun.antt =====
-- What a solution that was not run for want of space in the queue gets in its room.
use rogue_learn_code_battle.Base.{◌+◌, ◌≡◌, refl, false, ◌&&◌, some, any, find, leb, ◌==◌}
use rogue_learn_code_battle.Store.Models.{Submission, accepted}
use rogue_learn_code_battle.Store.Db.{IsUp}
use rogue_learn_code_battle.Store.Players.{at_key, int4_limit}
use rogue_learn_code_battle.Store.Players.Points.{Gained}
use rogue_learn_code_battle.Events.{SolutionSubmitted}
use rogue_learn_code_battle.Executor.Containers.{Docker, Manager}
use rogue_learn_code_battle.Executor.Pool
use rogue_learn_code_battle.Executor.Pool.{Result, Job, Others, run_job, has_room, empty_result}
use rogue_learn_code_battle.Hub.Exec.{Hub, done}
use rogue_learn_code_battle.Hub.Defs.{generate_solution_result, process_solution_result}
use rogue_learn_code_battle.Hub.Accepted.{status_of, process_solution_result-scores}

-- A job that finds the queue full is answered without a success, and no container is touched. The
-- room hands this result to processSolutionResult; with the connection up, the submission in the
-- table and the new score an integer of four bytes, that adds 50 points to the submitter's score in
-- the room, leaves every other score, and marks the submission accepted.
pub run_job_full-Gained :
    {W : Type 0} (docker : Docker) (q : Pool.Queue) (others : Others docker) (job : Job)
    (d : Manager docker.World) (s : SolutionSubmitted) (h : Hub W) (row : Submission)
    → has_room q ≡ false
    → IsUp h.db
    → any (λ p. at_key s.room_id s.player_id p && leb int4_limit (p.score + 50)) h.db.room_players
      ≡ false
    → find (λ t. t.id == s.submission_id) h.db.submissions ≡ some row
    → (r : Result) × (h' : Hub W) × (run_job docker q others job d ≡ some (r, d))
      × (r.success ≡ false)
      × (process_solution_result (generate_solution_result s r) h ≡ done tt h')
      × Gained 50 s.room_id s.player_id h.db.room_players h'.db.room_players
      × (status_of s.submission_id h'.db.submissions ≡ some accepted)
unfolding run_job generate_solution_result
run_job_full-Gained docker q others job d s h row full up fits there =
    let (h', ran, rewarded) =
      process_solution_result-scores (generate_solution_result s empty_result) h up refl fits row
        there in
    (empty_result, h', rw (full, run_job) refl, refl, ran, rewarded.points, rewarded.status)
