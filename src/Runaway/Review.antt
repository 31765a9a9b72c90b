-- ===== src/Runaway/Review.antt =====
-- The backlog that an editor of src/domain/runaway is up against.
use box_fraise_server.Prelude.{
  ℕ, ◌≡◌, ◌≤◌, ◌<◌, refl, inl, inr, Bool, true, false, Option, none, some, arith, List, [], ◌∷◌,
  ◌++◌, All, All-append, length, is_some, String, ◌==◌, Bool-cases,
}
use box_fraise_server.Prelude.Text.{Text, trim}
use box_fraise_server.Errors.{AppError, ok, conflict, not_found, Result-cases}
use box_fraise_server.Server.{Env}
use box_fraise_server.Table.{exists, count}
use box_fraise_server.Table.Laws.{changed}
use box_fraise_server.Table.Distinct.{All-update}
use box_fraise_server.Table.Counting.{count-append}
use box_fraise_server.Table.Removal.{All-delete, count-delete_le, count-update_le}
use box_fraise_server.Runaway.Service.{
  accepted, is_waiting, Answer, Answers, AnswerUpload, max_pending, pending_count, new_answer,
  insert_answer, check_submit, conclude_submit, submit, is_acceptable, conclude_review, accept,
  reject, Request, submitting, accepting, rejecting, serve, run,
}

-- The CHECK on the length, and a date on whatever is published.
pub record IsProper (a : Answer) : Type 0 where
  pub sized : (20 ≤ length a.body) × (length a.body ≤ 2000)
  pub dated : is_waiting a.status ≡ false → is_some a.reviewed_at ≡ true

pub record IsManageable (answers : List Answer) : Type 0 where
  pub backlog : pending_count answers ≤ max_pending
  pub proper : All IsProper answers

pub insert_answer-some :
    (now id : ℕ) (body : Text) (answers : List Answer) {new : List Answer}
    → insert_answer now id body answers ≡ some new
    → (new ≡ answers ++ new_answer now id body ∷ []) × (20 ≤ length body) × (length body ≤ 2000)
unfolding insert_answer
insert_answer-some now id body answers h = ground arith

inserted-IsManageable :
    (now id : ℕ) (body : Text) (answers new : List Answer)
    → pending_count answers < max_pending
    → insert_answer now id body answers ≡ some new
    → IsManageable answers
    → IsManageable new
unfolding pending_count count
inserted-IsManageable now id body answers new room h m =
    let (made, low, high) = insert_answer-some now id body answers h in
    let a = new_answer now id body in
    let more = count-append (λ x. is_waiting x.status) answers (a ∷ []) in
    rw made (record {
      backlog = ground (arith, more, room);
      proper = All-append IsProper answers (a ∷ []) m.proper (proper low high, tt);
    })
  where
    proper : 20 ≤ length body → length body ≤ 2000 → IsProper (new_answer now id body)
    proper low high = record { sized = (low, high); dated = λ e. cc }

conclude_submit-IsManageable :
    (env : Env) (chars : ℕ) (o : Option (List Answer)) (t : Answers)
    → ((answers : List Answer) → o ≡ some answers → IsManageable answers)
    → IsManageable t.answers
    → IsManageable (conclude_submit env chars o t).1.answers
unfolding conclude_submit
conclude_submit-IsManageable env chars none t k m = m
conclude_submit-IsManageable env chars (some answers) t k m = k answers refl

check_submit-room :
    (upload : AnswerUpload) (t : Answers)
    → check_submit upload t ≡ ok tt
    → pending_count t.answers < max_pending
unfolding check_submit
check_submit-room upload t h = ground arith

submit-IsManageable :
    (env : Env) (upload : AnswerUpload) (t : Answers)
    → IsManageable t.answers
    → IsManageable (submit env upload t).1.answers
unfolding submit
submit-IsManageable env upload t m = elim (Result-cases (check_submit upload t)) [
  | inr (x, e) ↦ rw (e, submit) m
  | inl (_, e) ↦
      rw (e, submit)
        (conclude_submit-IsManageable env _ _ t
          (λ answers made.
            inserted-IsManageable env.db_now env.uuid (trim upload.body) t.answers answers
              (check_submit-room upload t e) made m)
          m)
]

pub conclude_review-answers :
    (env : Env) (admin id : ℕ) (action : String) (failure : AppError) (b : Bool)
    (answers : List Answer) (t : Answers)
    → (conclude_review env admin action id failure b answers t).1.answers ≡ answers
unfolding conclude_review
conclude_review-answers env admin id action failure true answers t = refl
conclude_review-answers env admin id action failure false answers t = refl

accepted-IsProper :
    (id now admin : ℕ) (a : Answer)
    → IsProper a
    → IsProper (
        changed
          (is_acceptable id)
          (λ x. record x {
            status = accepted;
            reviewed_at = some now;
            reviewed_by_admin_id = some admin;
          })
          a)
accepted-IsProper id now admin a h = elim (Bool-cases (is_acceptable id a)) [
  | inl e ↦ rw e (record { sized = h.sized; dated = λ _. refl })
  | inr e ↦ rw e h
]

serve-IsManageable :
    (env : Env) (req : Request) (t : Answers)
    → IsManageable t.answers
    → IsManageable (serve env req t).answers
unfolding serve accept reject pending_count
serve-IsManageable env (submitting upload) t m = submit-IsManageable env upload t m
serve-IsManageable env (accepting admin id) t m =
    rw
      (conclude_review-answers env admin id "runaway.published" conflict
        (exists (is_acceptable id) t.answers) _ t)
      (record {
        backlog = omega (
          arith,
          count-update_le (λ a. is_waiting a.status) (is_acceptable id)
              (λ a. record a {
                status = accepted;
                reviewed_at = some env.db_now;
                reviewed_by_admin_id = some admin;
              })
              t.answers (λ a _ e. cc e),
          m.backlog,
        );
        proper =
            All-update IsProper IsProper (is_acceptable id)
              (λ a. record a {
                status = accepted;
                reviewed_at = some env.db_now;
                reviewed_by_admin_id = some admin;
              })
              t.answers (accepted-IsProper id env.db_now admin) m.proper;
      })
serve-IsManageable env (rejecting admin id) t m =
    rw
      (conclude_review-answers env admin id "runaway.rejected" not_found
        (exists (λ a. a.id == id) t.answers) _ t)
      (record {
        backlog = omega (
          arith,
          count-delete_le (λ a. is_waiting a.status) (λ a. a.id == id) t.answers,
          m.backlog,
        );
        proper = All-delete IsProper (λ a. a.id == id) t.answers m.proper;
      })

-- If at most 300 answers wait for an editor, every answer has between 20 and 2000 characters,
-- and whatever is published has the date of its review, then so it is after any sequence of
-- submissions, acceptances and rejections.
pub run-IsManageable :
    (requests : List (Env × Request)) (t : Answers)
    → IsManageable t.answers
    → IsManageable (run requests t).answers
unfolding run
run-IsManageable [] t m = m
run-IsManageable ((env, req) ∷ rest) t m =
    run-IsManageable rest (serve env req t) (serve-IsManageable env req t m)
