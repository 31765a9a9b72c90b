-- ===== src/Submissions/Review.antt =====
-- What every submission of src/domain/submissions is, and how many wait.
use box_fraise_server.Prelude.{
  String, ℕ, ◌≤◌, ◌≡◌, refl, inl, inr, Bool, true, false, ◌&&◌, ◌||◌, Option, some, none, arith,
  List, [], ◌∷◌, All, All-append, length, is_some, is_none, Bool-cases,
}
use box_fraise_server.Prelude.Text.{Text, text_eq}
use box_fraise_server.Errors.{Result-cases}
use box_fraise_server.Server.{Bytes, Env}
use box_fraise_server.Table.{exists, count, update, delete}
use box_fraise_server.Table.Laws.{changed}
use box_fraise_server.Table.Counting.{count-append}
use box_fraise_server.Table.Distinct.{All-update}
use box_fraise_server.Table.Removal.{All-delete, count-delete_le, count-update_le}
use box_fraise_server.Submissions.Types.{
  ContentType, is_pending, is_accepted, all_prompts, SubmissionUpload, Submission, Submissions,
}
use box_fraise_server.Submissions.Content.{max_image_bytes, min_image_bytes, sniff_content_type}
use box_fraise_server.Submissions.Repository.{
  meets_checks, bytes_of, type_of, size_of, at_most, insert_submission, pending_count, waits,
  accepted_row, prune_submissions,
}
use box_fraise_server.Submissions.Repository
use box_fraise_server.Submissions.Service.{
  max_pending, Draft, check_submit, conclude_submit, submit, row_of, conclude_review, accept,
  reject, Request, submitting, accepting, rejecting, pruning, serve, run,
}
use box_fraise_server.Submissions.Inversion.{
  IsColumn, IsPicture, IsDraft, check_submit-ok, insert_submission-some,
}

-- The three columns of a photograph.
abbrev pub IsPhoto : Option Bytes → Option ContentType → Option ℕ → Type 0
IsPhoto none none none = Unit
IsPhoto (some b) (some c) (some n) =
    (min_image_bytes ≤ length b)
    × (length b ≤ max_image_bytes)
    × (n ≡ length b)
    × (sniff_content_type b ≡ some c)
IsPhoto none none (some n) = true ≡ false
IsPhoto none (some c) n = true ≡ false
IsPhoto (some b) none n = true ≡ false
IsPhoto (some b) (some c) none = true ≡ false

pub record IsProper (s : Submission) : Type 0 where
  pub column : IsColumn s.body
  pub photo : IsPhoto s.image_bytes s.content_type s.byte_size
  pub something : (is_some s.body || is_some s.image_bytes) ≡ true
  pub titled : is_some s.title ≡ true → is_some s.body ≡ true
  pub asked : exists (λ p. text_eq p s.prompt) all_prompts ≡ true
  pub dated : is_accepted s.status ≡ true → is_some s.reviewed_at ≡ true

pub record IsManaged (submissions : List Submission) : Type 0 where
  pub backlog : pending_count submissions ≤ max_pending
  pub proper : All IsProper submissions

picture-IsPhoto :
    (o : Option (Bytes × ContentType)) → IsPicture o → IsPhoto (bytes_of o) (type_of o) (size_of o)
picture-IsPhoto none p = tt
picture-IsPhoto (some (b, c)) (low, high, kind) = (low, high, refl, kind)

titled-body :
    (title body : Option Text)
    → (is_none body && is_some title) ≡ false
    → is_some title ≡ true
    → is_some body ≡ true
titled-body title none h k = ground arith
titled-body title (some s) h k = refl

row_of-IsProper :
    (env : Env) (user : ℕ) (upload : SubmissionUpload) (t : Submissions) (d : Draft)
    → IsDraft user upload t d
    → meets_checks (row_of env user d) ≡ true
    → IsProper (row_of env user d)
row_of-IsProper env user upload t d w h = record {
  column = w.column;
  photo = picture-IsPhoto d.image w.picture;
  something = ground arith;
  titled = titled-body d.title d.body w.titled;
  asked = ground arith;
  dated = λ e. cc e;
}

inserted-IsManaged :
    (env : Env) (user : ℕ) (upload : SubmissionUpload) (t u : Submissions) (d : Draft)
    → IsDraft user upload t d
    → insert_submission env.db_now (row_of env user d) t ≡ some u
    → IsManaged t.submissions
    → IsManaged u.submissions
unfolding pending_count count
inserted-IsManaged env user upload t u d w h m =
    let (checks, _, made) = insert_submission-some env.db_now (row_of env user d) t h in
    let more = count-append (λ s. is_pending s.status) t.submissions (row_of env user d ∷ []) in
    let room = w.room in
    rw made (record {
      backlog = ground (arith, more, room);
      proper =
          All-append IsProper t.submissions (row_of env user d ∷ []) m.proper
            (row_of-IsProper env user upload t d w checks, tt);
    })

conclude_submit-IsManaged :
    (env : Env) (user : ℕ) (d : Draft) (o : Option Submissions) (t : Submissions)
    → ((u : Submissions) → o ≡ some u → IsManaged u.submissions)
    → IsManaged t.submissions
    → IsManaged (conclude_submit env user d o t).1.submissions
unfolding conclude_submit
conclude_submit-IsManaged env user d none t k m = m
conclude_submit-IsManaged env user d (some u) t k m = k u refl

submit-IsManaged :
    (env : Env) (user : ℕ) (upload : SubmissionUpload) (t : Submissions)
    → IsManaged t.submissions
    → IsManaged (submit env user upload t).1.submissions
unfolding submit
submit-IsManaged env user upload t m = elim (Result-cases (check_submit user upload t)) [
  | inr (x, e) ↦ rw (e, submit) m
  | inl (d, e) ↦
      let w = check_submit-ok user upload t e in
      rw (e, submit)
        (conclude_submit-IsManaged env user d _ t
          (λ u made. inserted-IsManaged env user upload t u d w made m) m)
]

accepted-IsManaged :
    (id now admin : ℕ) (submissions : List Submission)
    → IsManaged submissions
    → IsManaged (update (waits id) (accepted_row now admin) submissions)
unfolding pending_count
accepted-IsManaged id now admin submissions m = record {
  backlog = omega (
    arith,
    count-update_le (λ s. is_pending s.status) (waits id) (accepted_row now admin) submissions
        (λ s _ e. cc e),
    m.backlog,
  );
  proper =
      All-update IsProper IsProper (waits id) (accepted_row now admin) submissions kept m.proper;
}
  where
    kept : (s : Submission) → IsProper s → IsProper (changed (waits id) (accepted_row now admin) s)
    kept s w = elim (Bool-cases (waits id s)) [
      | inr e ↦ rw e w
      | inl e ↦ rw e (record {
        column = w.column;
        photo = w.photo;
        something = w.something;
        titled = w.titled;
        asked = w.asked;
        dated = λ _. refl;
      })
    ]

deleted-IsManaged :
    (w : Submission → Bool) (submissions : List Submission)
    → IsManaged submissions
    → IsManaged (delete w submissions)
unfolding pending_count
deleted-IsManaged w submissions m = record {
  backlog = omega (arith, count-delete_le (λ s. is_pending s.status) w submissions, m.backlog);
  proper = All-delete IsProper w submissions m.proper;
}

conclude_review-IsManaged :
    (env : Env) (admin id : ℕ) (action : String) (found : Bool) (rows : List Submission)
    (t : Submissions)
    → IsManaged rows
    → IsManaged (conclude_review env admin action id (found, rows) t).1.submissions
unfolding conclude_review
conclude_review-IsManaged env admin id action true rows t m = m
conclude_review-IsManaged env admin id action false rows t m = m

serve-IsManaged :
    (env : Env) (req : Request) (t : Submissions)
    → IsManaged t.submissions
    → IsManaged (serve env req t).submissions
unfolding serve accept reject Repository.accept Repository.delete_pending prune_submissions
serve-IsManaged env (submitting user upload) t m = submit-IsManaged env user upload t m
serve-IsManaged env (accepting admin id) t m =
    conclude_review-IsManaged env admin id "submission.accepted" _ _ t
      (accepted-IsManaged id env.db_now admin t.submissions m)
serve-IsManaged env (rejecting admin id) t m =
    conclude_review-IsManaged env admin id "submission.rejected" _ _ t
      (deleted-IsManaged (waits id) t.submissions m)
serve-IsManaged env pruning t m = deleted-IsManaged _ t.submissions m

-- If at most 200 submissions wait for an editor, and every one is a column of 40 to 20000
-- characters, or a photograph of 512 bytes to 8 MiB stored with its size and the type that its
-- first bytes say, or both, answers one of the three prompts, has a title only above a column,
-- and has the date of its review once it is accepted, then so it is after any sequence of
-- submissions, acceptances, rejections and prunings.
pub run-IsManaged :
    (requests : List (Env × Request)) (t : Submissions)
    → IsManaged t.submissions
    → IsManaged (run requests t).submissions
unfolding run
run-IsManaged [] t m = m
run-IsManaged ((env, req) ∷ rest) t m =
    run-IsManaged rest (serve env req t) (serve-IsManaged env req t m)
