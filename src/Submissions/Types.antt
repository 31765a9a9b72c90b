-- ===== src/Submissions/Types.antt =====
-- src/domain/submissions/types.rs, and the table of migrations/0018_submissions.sql as
-- 0022 to 0024 and 0028 leave it.
use box_fraise_server.Prelude.{ℕ, Bool, true, false, Option, List, [], ◌∷◌}
use box_fraise_server.Prelude.Text.{Text, codes, text_eq, trim}
use box_fraise_server.Server.{Bytes}
use box_fraise_server.Table.{find}
use box_fraise_server.Members.Types.{Members}

pub record SubmissionUpload : Type 0 where
  pub title : Option Text
  pub body : Option Text
  pub image_bytes : Option Bytes
  pub prompt : Text

abbrev pub run_country : Text
run_country = codes "run_country"

abbrev pub run_away : Text
run_away = codes "run_away"

abbrev pub better_taste : Text
better_taste = codes "better_taste"

abbrev pub all_prompts : List Text
all_prompts = run_country ∷ run_away ∷ better_taste ∷ []

-- `Prompt::parse`
unfoldable pub parse_prompt : Text → Option Text
parse_prompt raw = find (λ p. text_eq p (trim raw)) all_prompts

-- "image/jpeg", "image/png" and "image/webp"
pub data ContentType : Type 0 where
  image_jpeg image_png image_webp : ContentType

pub data SubmissionStatus : Type 0 where
  pending accepted : SubmissionStatus

abbrev pub is_pending : SubmissionStatus → Bool
is_pending pending = true
is_pending accepted = false

abbrev pub is_accepted : SubmissionStatus → Bool
is_accepted pending = false
is_accepted accepted = true

-- A row of `submissions`.
pub record Submission : Type 0 where
  pub id : ℕ
  pub title : Option Text
  pub body : Option Text
  pub image_bytes : Option Bytes
  pub content_type : Option ContentType
  pub byte_size : Option ℕ
  pub member_no : ℕ
  pub user_id : ℕ
  pub prompt : Text
  pub status : SubmissionStatus
  pub submitted_at : ℕ
  pub reviewed_at : Option ℕ
  pub reviewed_by_admin_id : Option ℕ

-- The table, beside those of src/domain/members, which also hold the audit trail.
pub record Submissions : Type 0 where
  pub submissions : List Submission
  pub members : Members

pub record SubmitResponse : Type 0 where
  pub id : ℕ
  pub status : SubmissionStatus

pub record PendingSubmission : Type 0 where
  pub id : ℕ
  pub prompt : Text
  pub title : Option Text
  pub body : Option Text
  pub has_image : Bool
  pub byte_size : Option ℕ
  pub member_no : ℕ
  pub submitted_at : ℕ

pub record SubmissionImage : Type 0 where
  pub bytes : Bytes
  pub content_type : ContentType

pub record PublishedSubmission : Type 0 where
  pub id : ℕ
  pub prompt : Text
  pub title : Option Text
  pub body : Option Text
  pub member_no : ℕ
  pub has_image : Bool
  pub published_at : Option ℕ
