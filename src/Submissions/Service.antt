-- ===== src/Submissions/Service.antt =====
-- The handlers of src/domain/submissions/service.rs.
use box_fraise_server.Prelude.{
  ℕ, String, Bool, true, false, ◌&&◌, Option, none, some, List, [], ◌∷◌, length, leb, is_some,
  is_none,
}
use box_fraise_server.Prelude.Text.{Text, codes}
use box_fraise_server.Errors.{
  Result, ok, err, bad_request, too_many_requests, not_found, conflict, db, ◌>>=◌, ◌>>◌, fail_if,
  ok_or,
}
use box_fraise_server.Server.{Bytes, Env, Json, write_audit}
use box_fraise_server.Members.Repository as MemberTable
use box_fraise_server.Submissions.Types.{
  ContentType, image_jpeg, image_png, image_webp, pending, parse_prompt, SubmissionUpload,
  Submission, Submissions, SubmitResponse, PendingSubmission, SubmissionImage, PublishedSubmission,
}
use box_fraise_server.Submissions.Content.{
  max_title_chars, max_body_chars, clean_optional_text, check_body, check_image,
}
use box_fraise_server.Submissions.Repository.{new_submission}
use box_fraise_server.Submissions.Repository

abbrev pub max_pending : ℕ
max_pending = 200

abbrev pub feed_limit : ℕ
feed_limit = 60

-- What a submission has become when every check has passed.
pub record Draft : Type 0 where
  pub title : Option Text
  pub body : Option Text
  pub image : Option (Bytes × ContentType)
  pub member_no : ℕ
  pub prompt : Text

-- The early returns of `submit`.
unfoldable pub check_submit : ℕ → SubmissionUpload → Submissions → Result Draft
check_submit user upload t = do
  prompt ← ok_or (parse_prompt upload.prompt) (bad_request "that is not one of the three")
  title ← clean_optional_text upload.title max_title_chars "text exceeds 140 characters"
  body ← clean_optional_text upload.body max_body_chars "text exceeds 20000 characters"
  check_body body
  image ← check_image upload.image_bytes
  fail_if (is_none body && is_none image) (bad_request "send a column, a photograph, or both")
  fail_if (is_none body && is_some title) (bad_request "a title needs a column under it")
  member_no ←
      ok_or (MemberTable.member_no user t.members.users)
        (bad_request "this account is not a member")
  fail_if (leb max_pending (Repository.pending_count t.submissions)) (
      too_many_requests
        "there is a backlog of submissions awaiting review; try again in a few days")
  ok (record { title = title; body = body; image = image; member_no = member_no; prompt = prompt })

abbrev chars_json : Option Text → Json
chars_json none = Json.null
chars_json (some s) = Json.num (length s)

abbrev mime : ContentType → Json
mime image_jpeg = Json.text (codes "image/jpeg")
mime image_png = Json.text (codes "image/png")
mime image_webp = Json.text (codes "image/webp")

abbrev size_json : Option (Bytes × ContentType) → Json
size_json none = Json.null
size_json (some (b, c)) = Json.num (length b)

abbrev type_json : Option (Bytes × ContentType) → Json
type_json none = Json.null
type_json (some (b, c)) = mime c

abbrev audited : Env → String → ℕ → String → ℕ → List (String × Json) → Submissions → Submissions
audited env actor_type actor action target metadata t = record t {
  members = record t.members {
    audit_events =
        write_audit env
          (record {
            actor_type = actor_type;
            actor_id = some actor;
            action = action;
            target = some (Json.num target);
            metadata = metadata;
          })
          t.members.audit_events;
  };
}

unfoldable pub conclude_submit :
    Env → ℕ → Draft → Option Submissions → Submissions → Result SubmitResponse × Submissions
conclude_submit env user d none t = (err db, t)
conclude_submit env user d (some s) t = (
  ok (record { id = env.uuid; status = pending }),
  audited env "user" user "submission.received" env.uuid
      (("has_column", Json.bool (is_some d.body))
        ∷ ("has_image", Json.bool (is_some d.image))
        ∷ ("body_chars", chars_json d.body)
        ∷ ("byte_size", size_json d.image)
        ∷ ("content_type", type_json d.image)
        ∷ [])
      s,
)

abbrev pub row_of : Env → ℕ → Draft → Submission
row_of env user d =
    new_submission env.db_now env.uuid user d.title d.body d.image d.member_no d.prompt

unfoldable pub submit :
    Env → ℕ → SubmissionUpload → Submissions → Result SubmitResponse × Submissions
submit env user upload t = elim (check_submit user upload t) [
  | err e ↦ (err e, t)
  | ok d ↦
      conclude_submit env user d (Repository.insert_submission env.db_now (row_of env user d) t) t
]

unfoldable pub list_published : Submissions → Result (List PublishedSubmission)
list_published t = ok (Repository.list_published feed_limit t.submissions)

unfoldable pub draw_taste : ℕ → Submissions → Result PublishedSubmission
draw_taste random t = ok_or (Repository.draw_taste random t.submissions) not_found

unfoldable pub published_image : ℕ → Submissions → Result SubmissionImage
published_image id t = ok_or (Repository.published_image id t.submissions) not_found

unfoldable pub list_pending : Submissions → Result (List PendingSubmission)
list_pending t = ok (Repository.list_pending t.submissions)

unfoldable pub image_admin : ℕ → Submissions → Result SubmissionImage
image_admin id t = ok_or (Repository.image id t.submissions) not_found

-- The end of `accept` and of `reject`, from whether a row was touched.
unfoldable pub conclude_review :
    Env → ℕ → String → ℕ → Bool × List Submission → Submissions → Result (Unit {0}) × Submissions
conclude_review env admin action id (false, submissions) t =
    (err conflict, record t { submissions = submissions })
conclude_review env admin action id (true, submissions) t =
    (ok tt, audited env "admin" admin action id [] (record t { submissions = submissions }))

unfoldable pub accept : Env → ℕ → ℕ → Submissions → Result (Unit {0}) × Submissions
accept env admin id t =
    conclude_review env admin "submission.accepted" id
      (Repository.accept env.db_now admin id t.submissions) t

unfoldable pub reject : Env → ℕ → ℕ → Submissions → Result (Unit {0}) × Submissions
reject env admin id t =
    conclude_review env admin "submission.rejected" id (Repository.delete_pending id t.submissions)
      t

-- The requests that write, one after another, and the maintenance that prunes.
pub data Request : Type 0 where
  submitting : ℕ → SubmissionUpload → Request
  accepting rejecting : ℕ → ℕ → Request
  pruning : Request

unfoldable pub serve : Env → Request → Submissions → Submissions
serve env (submitting user upload) t = (submit env user upload t).1
serve env (accepting admin id) t = (accept env admin id t).1
serve env (rejecting admin id) t = (reject env admin id t).1
serve env pruning t = record t {
  submissions = Repository.prune_submissions env.db_now t.submissions;
}

unfoldable pub run : List (Env × Request) → Submissions → Submissions
run [] t = t
run ((env, req) ∷ rest) t = run rest (serve env req t)
