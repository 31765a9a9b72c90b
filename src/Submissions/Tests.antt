-- ===== src/Submissions/Tests.antt =====
-- Submissions to src/domain/submissions on a concrete table.
use box_fraise_server.Prelude.{ℕ, true, some, none, arith, [], ◌∷◌}
use box_fraise_server.Prelude.Text.{codes}
use box_fraise_server.Server.{Env}
use box_fraise_server.Table.{count}
use box_fraise_server.Members.Repository.{new_member}
use box_fraise_server.Members.Repository as MemberTable
use box_fraise_server.Submissions.Types.{pending, SubmissionUpload, Submissions, SubmitResponse}
use box_fraise_server.Submissions.Repository.{pending_count}
use box_fraise_server.Submissions.Service.{submitting, accepting, rejecting, pruning, run}
use box_fraise_server.Submissions.Review.{IsManaged, run-IsManaged}

abbrev at_time : ℕ → Env
at_time t = record {
  now = t;
  later = t;
  db_now = t;
  uuid = t;
  other_uuid = t;
  nonce = [];
  audit_up = true;
}

-- User 1 is member 7, and was at a run at time 1.
abbrev table : Submissions
table = record {
  submissions = [];
  members = record {
    users = new_member 1 1 5 0 7 ∷ [];
    user_sessions = [];
    attendances =
        record { id = 3; user_id = 1; event_id = 5; recorded_by_admin_id = some 0; recorded_at = 1 }
        ∷ [];
    events = [];
    admins = 0 ∷ [];
    member_no_seq = 8;
    audit_events = [];
  };
}

abbrev upload : SubmissionUpload
upload = record {
  title = some (codes "Rain");
  body = some (codes "  It rained on Sunday and nobody minded; we ran. ");
  image_bytes = none;
  prompt = codes "run_away";
}

abbrev reply : SubmitResponse
reply = record { id = 20; status = pending }

empty-IsManaged : IsManaged []
unfolding pending_count count
empty-IsManaged = record { backlog = omega arith; proper = tt }

run-IsManaged_example :
    IsManaged
      (run
        ((at_time 20, submitting 1 upload)
          ∷ (at_time 21, accepting 0 20)
          ∷ (at_time 22, rejecting 0 20)
          ∷ (at_time 23, pruning)
          ∷ [])
        table).submissions
run-IsManaged_example =
    run-IsManaged
      ((at_time 20, submitting 1 upload)
        ∷ (at_time 21, accepting 0 20)
        ∷ (at_time 22, rejecting 0 20)
        ∷ (at_time 23, pruning)
        ∷ [])
      table empty-IsManaged
