-- ===== src/Runaway/Publishing.antt =====
-- What the public sees of src/domain/runaway, and when.
use box_fraise_server.Prelude.{
  ℕ, ◌≡◌, refl, ap, ◌∙◌, inl, inr, false, not, Option, none, some, arith, List, [], ◌∷◌,
}
use box_fraise_server.Prelude.Text.{trim}
use box_fraise_server.Errors.{err, conflict, Result-cases}
use box_fraise_server.Server.{Env}
use box_fraise_server.Table.{select, exists, update}
use box_fraise_server.Table.Search.{update-none}
use box_fraise_server.Table.Removal.{select-append_refused}
use box_fraise_server.Runaway.Service.{
  accepted, is_waiting, Answer, Answers, AnswerUpload, new_answer, list_published, check_submit,
  conclude_submit, submit, is_acceptable, conclude_review, accept,
}
use box_fraise_server.Runaway.Review.{insert_answer-some, conclude_review-answers}

conclude_submit-published :
    (env : Env) (chars : ℕ) (o : Option (List Answer)) (t : Answers)
    → ((answers : List Answer)
        → o ≡ some answers
        → select (λ x. not (is_waiting x.status)) answers
          ≡ select (λ x. not (is_waiting x.status)) t.answers)
    → list_published (conclude_submit env chars o t).1 ≡ list_published t
unfolding conclude_submit list_published
conclude_submit-published env chars none t k = refl
conclude_submit-published env chars (some answers) t k = rw (k answers refl)

-- Nothing that a stranger sends appears by itself: whatever the submission, and whether it is
-- taken or not, the published page stays what it was.
pub submit-list_published :
    (env : Env) (upload : AnswerUpload) (t : Answers)
    → list_published (submit env upload t).1 ≡ list_published t
unfolding submit
submit-list_published env upload t = elim (Result-cases (check_submit upload t)) [
  | inr (x, e) ↦ rw (e, submit)
  | inl (_, e) ↦
      rw (e, submit)
        (conclude_submit-published env _ _ t (λ answers made.
          let (same, _, _) =
            insert_answer-some env.db_now env.uuid (trim upload.body) t.answers made in
          ap (select (λ x. not (is_waiting x.status))) same
          ∙ select-append_refused (λ x. not (is_waiting x.status)) t.answers
              (new_answer env.db_now env.uuid (trim upload.body)) refl))
]

accepted-none :
    (id now admin : ℕ) (answers : List Answer)
    → exists (is_acceptable id) (
        update
          (is_acceptable id)
          (λ a. record a {
            status = accepted;
            reviewed_at = some now;
            reviewed_by_admin_id = some admin;
          })
          answers)
      ≡ false
unfolding exists update
accepted-none id now admin [] = refl
accepted-none id now admin (a ∷ answers) =
    let rest = accepted-none id now admin answers in ground (arith, rest)

nothing_to_accept :
    (env : Env) (admin id : ℕ) (t : Answers)
    → exists (is_acceptable id) t.answers ≡ false
    → accept env admin id t ≡ (err conflict, t)
unfolding accept conclude_review
nothing_to_accept env admin id t h =
    rw (h, accept)
      (ap (λ answers. (err conflict, record t { answers = answers }))
        (update-none (is_acceptable id)
          (λ a. record a {
            status = accepted;
            reviewed_at = some env.db_now;
            reviewed_by_admin_id = some admin;
          })
          t.answers h))

-- An answer is published once: whatever the first editor was told, a second acceptance of it
-- right after, by the same editor or another, is a conflict that changes nothing, the date of
-- the first review included.
accept-once :
    (env env' : Env) (admin admin' id : ℕ) (t : Answers)
    → let s = (accept env admin id t).1 in accept env' admin' id s ≡ (err conflict, s)
unfolding accept
accept-once env env' admin admin' id t =
    nothing_to_accept env' admin' id (accept env admin id t).1 (
      ap (exists (is_acceptable id)) (
        conclude_review-answers env admin id "runaway.published" conflict
          (exists (is_acceptable id) t.answers) _ t)
      ∙ accepted-none id env.db_now admin t.answers)
