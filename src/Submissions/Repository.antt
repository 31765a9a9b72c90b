-- ===== src/Submissions/Repository.antt =====
-- The statements of src/domain/submissions/repository.rs.
use Prim.Native.Nat.{◌%◌}
use box_fraise_server.Prelude.{
  ℕ, zero, suc, ◌+◌, Bool, true, not, ◌&&◌, ◌||◌, Option, none, some, List, [], ◌∷◌, ◌++◌, map,
  length, leb, ltb, ◌==◌, if◌then◌else◌, is_some,
}
use box_fraise_server.Prelude.Text.{Text, text_eq}
use box_fraise_server.Server.{Bytes}
use box_fraise_server.Table.{
  find, select, exists, count, update, delete, order_desc, order_asc, limit,
}
use box_fraise_server.Members.Repository.{days, bf_member_is_current}
use box_fraise_server.Submissions.Types.{
  ContentType, pending, accepted, is_pending, is_accepted, all_prompts, better_taste, Submission,
  Submissions, PendingSubmission, SubmissionImage, PublishedSubmission,
}
use box_fraise_server.Submissions.Content.{max_image_bytes, max_title_chars, max_body_chars}

abbrev pub bytes_of : Option (Bytes × ContentType) → Option Bytes
bytes_of none = none
bytes_of (some (b, c)) = some b

abbrev pub type_of : Option (Bytes × ContentType) → Option ContentType
type_of none = none
type_of (some (b, c)) = some c

abbrev pub size_of : Option (Bytes × ContentType) → Option ℕ
size_of none = none
size_of (some (b, c)) = some (length b)

abbrev pub new_submission :
    ℕ → ℕ → ℕ → Option Text → Option Text → Option (Bytes × ContentType) → ℕ → Text → Submission
new_submission now id user title body image member_no prompt = record {
  id = id;
  title = title;
  body = body;
  image_bytes = bytes_of image;
  content_type = type_of image;
  byte_size = size_of image;
  member_no = member_no;
  user_id = user;
  prompt = prompt;
  status = pending;
  submitted_at = now;
  reviewed_at = none;
  reviewed_by_admin_id = none;
}

abbrev pub at_most : ℕ → Option Text → Bool
at_most n none = true
at_most n (some s) = leb (length s) n

abbrev pub is_size : Option ℕ → Bool
is_size none = true
is_size (some n) = ltb 0 n && leb n max_image_bytes

-- The CHECK constraints that the columns of an INSERT can break.
abbrev pub meets_checks : Submission → Bool
meets_checks s =
    (is_some s.body || is_some s.image_bytes)
    && is_size s.byte_size
    && at_most max_title_chars s.title
    && at_most max_body_chars s.body
    && exists (λ p. text_eq p s.prompt) all_prompts

-- `none` is a refusal by the key, by a CHECK, or by the policy `submissions_member_insert`, which
-- asks that the member is current.
unfoldable pub insert_submission : ℕ → Submission → Submissions → Option Submissions
insert_submission now s t =
    if exists (λ x. x.id == s.id) t.submissions
      || not (meets_checks s)
      || not (bf_member_is_current now s.user_id t.members.attendances)
    then none
    else some (record t { submissions = t.submissions ++ s ∷ [] })

-- `bf_pending_submission_count`
unfoldable pub pending_count : List Submission → ℕ
pending_count submissions = count (λ s. is_pending s.status) submissions

abbrev pending_view : Submission → PendingSubmission
pending_view s = record {
  id = s.id;
  prompt = s.prompt;
  title = s.title;
  body = s.body;
  has_image = is_some s.image_bytes;
  byte_size = s.byte_size;
  member_no = s.member_no;
  submitted_at = s.submitted_at;
}

unfoldable pub list_pending : List Submission → List PendingSubmission
list_pending submissions =
    map pending_view
      (order_asc (λ s. s.submitted_at) (select (λ s. is_pending s.status) submissions))

abbrev pub both : Option Bytes → Option ContentType → Option SubmissionImage
both none c = none
both (some b) none = none
both (some b) (some c) = some (record { bytes = b; content_type = c })

abbrev pub image_of : Option Submission → Option SubmissionImage
image_of none = none
image_of (some s) = both s.image_bytes s.content_type

unfoldable pub image : ℕ → List Submission → Option SubmissionImage
image id submissions = image_of (find (λ s. s.id == id) submissions)

abbrev pub waits : ℕ → Submission → Bool
waits id s = s.id == id && is_pending s.status

abbrev pub accepted_row : ℕ → ℕ → Submission → Submission
accepted_row now admin s = record s {
  status = accepted;
  reviewed_at = some now;
  reviewed_by_admin_id = some admin;
}

-- Whether one row was changed, and the table.
unfoldable pub accept : ℕ → ℕ → ℕ → List Submission → Bool × List Submission
accept now admin id submissions =
    (exists (waits id) submissions, update (waits id) (accepted_row now admin) submissions)

unfoldable pub delete_pending : ℕ → List Submission → Bool × List Submission
delete_pending id submissions = (exists (waits id) submissions, delete (waits id) submissions)

abbrev pub published_view : Submission → PublishedSubmission
published_view s = record {
  id = s.id;
  prompt = s.prompt;
  title = s.title;
  body = s.body;
  member_no = s.member_no;
  has_image = is_some s.image_bytes;
  published_at = s.reviewed_at;
}

-- NULL is filtered out before the ordering.
abbrev reviewed : Option ℕ → ℕ
reviewed none = 0
reviewed (some t) = t

unfoldable pub list_published : ℕ → List Submission → List PublishedSubmission
list_published n submissions = limit n (
    map published_view (
      order_desc (λ s. reviewed s.reviewed_at)
        (select (λ s. is_accepted s.status && is_some s.reviewed_at) submissions)))

unfoldable pub published_image : ℕ → List Submission → Option SubmissionImage
published_image id submissions =
    image_of (find (λ s. s.id == id && is_accepted s.status) submissions)

-- The row at a position.
abbrev pick : ℕ → List PublishedSubmission → Option PublishedSubmission
pick n [] = none
pick zero (s ∷ rows) = some s
pick (suc n) (s ∷ rows) = pick n rows

abbrev picked : ℕ → List PublishedSubmission → Option PublishedSubmission
picked random rows = pick (random % length rows) rows

-- The remainder of `random` is the position that ORDER BY random() puts first.
unfoldable pub draw_taste : ℕ → List Submission → Option PublishedSubmission
draw_taste random submissions = picked random (
    map published_view
      (select (λ s. is_accepted s.status && text_eq s.prompt better_taste) submissions))

-- The third DELETE of src/maintenance.rs: submissions that nobody has reviewed in 180 days.
unfoldable pub prune_submissions : ℕ → List Submission → List Submission
prune_submissions now submissions =
    delete (λ s. is_pending s.status && ltb (s.submitted_at + days 180) now) submissions
