-- ===== src/Runaway/Tests.antt =====
-- Answers to src/domain/runaway on a concrete table.
use box_fraise_server.Prelude.{ℕ, ◌≡◌, true, none, arith, [], ◌∷◌}
use box_fraise_server.Server.{Env}
use box_fraise_server.Table.{count}
use box_fraise_server.Runaway.Service.{
  pending, Answer, Answers, AnswerUpload, pending_count, list_published, submit, submitting,
  accepting, run,
}
use box_fraise_server.Runaway.Review.{IsManageable, IsProper, run-IsManageable}
use box_fraise_server.Runaway.Publishing.{submit-list_published}

abbrev at_time : ℕ → Env
at_time t = record {
  now = t;
  later = t;
  db_now = t;
  uuid = 5;
  other_uuid = 6;
  nonce = [];
  audit_up = true;
}

-- Twenty-one letters.
abbrev upload : AnswerUpload
upload = record {
  body =
      97 ∷ 97 ∷ 97 ∷ 97 ∷ 97 ∷ 97 ∷ 97 ∷ 97 ∷ 97 ∷ 97 ∷ 97 ∷ 97 ∷ 97 ∷ 97 ∷ 97 ∷ 97 ∷ 97 ∷ 97 ∷ 97
      ∷ 97 ∷ 97 ∷ [];
}

abbrev waiting : Answer
waiting = record {
  id = 4;
  body = upload.body;
  status = pending;
  submitted_at = 1;
  reviewed_at = none;
  reviewed_by_admin_id = none;
}

abbrev table : Answers
table = record { answers = waiting ∷ []; audit_events = [] }

waiting-IsProper : IsProper waiting
waiting-IsProper = record { sized = (omega arith, omega arith); dated = λ e. cc }

one-IsManageable : IsManageable (waiting ∷ [])
unfolding pending_count count
one-IsManageable = record { backlog = omega arith; proper = (waiting-IsProper, tt) }

run-IsManageable_example :
    IsManageable
      (run ((at_time 2, submitting upload) ∷ (at_time 3, accepting 0 4) ∷ []) table).answers
run-IsManageable_example =
    run-IsManageable ((at_time 2, submitting upload) ∷ (at_time 3, accepting 0 4) ∷ []) table
      one-IsManageable

submit-list_published_example :
    list_published (submit (at_time 2) upload table).1 ≡ list_published table
submit-list_published_example = submit-list_published (at_time 2) upload table
