-- ===== src/Runaway/Service.antt =====
-- src/domain/runaway/service.rs, repository.rs and types.rs, and migrations/0032_runaway_answers.sql.
use box_fraise_server.Prelude.{
  ℕ, suc, String, Bool, true, false, not, ◌&&◌, ◌||◌, Option, none, some, List, [], ◌∷◌, ◌++◌, map,
  length, leb, ltb, ◌==◌, if◌then◌else◌,
}
use box_fraise_server.Prelude.Text.{Text, trim}
use box_fraise_server.Errors.{
  AppError, Result, ok, err, not_found, conflict, bad_request, too_many_requests, db, ◌>>◌, fail_if,
}
use box_fraise_server.Server.{Env, Json, AuditEvent, write_audit}
use box_fraise_server.Table.{select, exists, count, update, delete, order_desc, order_asc, limit}

pub data AnswerStatus : Type 0 where
  pending accepted : AnswerStatus

abbrev pub is_waiting : AnswerStatus → Bool
is_waiting pending = true
is_waiting accepted = false

-- A row of `runaway_answers`.
pub record Answer : Type 0 where
  pub id : ℕ
  pub body : Text
  pub status : AnswerStatus
  pub submitted_at : ℕ
  pub reviewed_at : Option ℕ
  pub reviewed_by_admin_id : Option ℕ

pub record Answers : Type 0 where
  pub answers : List Answer
  pub audit_events : List AuditEvent

pub record AnswerUpload : Type 0 where
  pub body : Text

pub record PublishedAnswer : Type 0 where
  pub id : ℕ
  pub body : Text
  pub published_at : Option ℕ

pub record PendingAnswer : Type 0 where
  pub id : ℕ
  pub body : Text
  pub submitted_at : ℕ

abbrev pub min_chars : ℕ
min_chars = 20

abbrev pub max_chars : ℕ
max_chars = 2000

abbrev pub max_pending : ℕ
max_pending = 300

abbrev pub page_limit : ℕ
page_limit = 40

-- `bf_pending_runaway_count`
unfoldable pub pending_count : List Answer → ℕ
pending_count answers = count (λ a. is_waiting a.status) answers

abbrev pub new_answer : ℕ → ℕ → Text → Answer
new_answer now id body = record {
  id = id;
  body = body;
  status = pending;
  submitted_at = now;
  reviewed_at = none;
  reviewed_by_admin_id = none;
}

-- `none` is a refusal by the primary key or by the CHECK on the length.
unfoldable pub insert_answer : ℕ → ℕ → Text → List Answer → Option (List Answer)
insert_answer now id body answers =
    if exists (λ a. a.id == id) answers || not (leb 20 (length body) && leb (length body) 2000)
    then none
    else some (answers ++ new_answer now id body ∷ [])

-- NULL, which comes first in descending order, is on no accepted row.
abbrev reviewed : Option ℕ → ℕ
reviewed none = 0
reviewed (some t) = suc t

unfoldable pub list_published : Answers → Result (List PublishedAnswer)
list_published t = ok (
    limit page_limit (
      map (λ a. record { id = a.id; body = a.body; published_at = a.reviewed_at })
        (order_desc (λ a. reviewed a.reviewed_at)
          (select (λ a. not (is_waiting a.status)) t.answers))))

unfoldable pub list_pending : Answers → Result (List PendingAnswer)
list_pending t = ok (
    map (λ a. record { id = a.id; body = a.body; submitted_at = a.submitted_at })
      (order_asc (λ a. a.submitted_at) (select (λ a. is_waiting a.status) t.answers)))

abbrev audited :
    Env → String → Option ℕ → String → ℕ → List (String × Json) → List Answer → Answers → Answers
audited env actor_type actor_id action target metadata answers t = record {
  answers = answers;
  audit_events =
      write_audit env
        (record {
          actor_type = actor_type;
          actor_id = actor_id;
          action = action;
          target = some (Json.num target);
          metadata = metadata;
        })
        t.audit_events;
}

-- The early returns of `submit`.
unfoldable pub check_submit : AnswerUpload → Answers → Result (Unit {0})
check_submit upload t = do
  fail_if (ltb (length (trim upload.body)) min_chars)
      (bad_request "an answer needs at least 20 characters")
  fail_if (ltb max_chars (length (trim upload.body)))
      (bad_request "an answer has to fit in 2000 characters")
  fail_if (leb max_pending (pending_count t.answers)) (
      too_many_requests "there is a backlog of answers waiting to be read; try again in a few days")
  ok tt

unfoldable pub conclude_submit :
    Env → ℕ → Option (List Answer) → Answers → Result AnswerStatus × Answers
conclude_submit env chars none t = (err db, t)
conclude_submit env chars (some answers) t = (
  ok pending,
  audited env "public" none "runaway.answered" env.uuid (("chars", Json.num chars) ∷ []) answers t,
)

-- The reply is `AnswerReceived`, whose status is always "pending".
unfoldable pub submit : Env → AnswerUpload → Answers → Result AnswerStatus × Answers
submit env upload t = elim (check_submit upload t) [
  | err e ↦ (err e, t)
  | ok _ ↦
      let body = trim upload.body in
      conclude_submit env (length body) (insert_answer env.db_now env.uuid body t.answers) t
]

abbrev pub is_acceptable : ℕ → Answer → Bool
is_acceptable id a = a.id == id && is_waiting a.status

-- The reply to a change of one row by an admin, from whether there was such a row.
unfoldable pub conclude_review :
    Env → ℕ → String → ℕ → AppError → Bool → List Answer → Answers → Result (Unit {0}) × Answers
conclude_review env admin action id failure false answers t =
    (err failure, record t { answers = answers })
conclude_review env admin action id failure true answers t =
    (ok tt, audited env "admin" (some admin) action id [] answers t)

unfoldable pub accept : Env → ℕ → ℕ → Answers → Result (Unit {0}) × Answers
unfolding conclude_review
accept env admin id t =
    conclude_review env admin "runaway.published" id conflict (exists (is_acceptable id) t.answers)
      (update (is_acceptable id)
        (λ a. record a {
          status = accepted;
          reviewed_at = some env.db_now;
          reviewed_by_admin_id = some admin;
        })
        t.answers)
      t

unfoldable pub reject : Env → ℕ → ℕ → Answers → Result (Unit {0}) × Answers
unfolding conclude_review
reject env admin id t =
    conclude_review env admin "runaway.rejected" id not_found (exists (λ a. a.id == id) t.answers)
      (delete (λ a. a.id == id) t.answers) t

-- The requests that write, one after another.
pub data Request : Type 0 where
  submitting : AnswerUpload → Request
  accepting rejecting : ℕ → ℕ → Request

unfoldable pub serve : Env → Request → Answers → Answers
serve env (submitting upload) t = (submit env upload t).1
serve env (accepting admin id) t = (accept env admin id t).1
serve env (rejecting admin id) t = (reject env admin id t).1

unfoldable pub run : List (Env × Request) → Answers → Answers
run [] t = t
run ((env, req) ∷ rest) t = run rest (serve env req t)
