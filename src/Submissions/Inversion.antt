-- ===== src/Submissions/Inversion.antt =====
-- What the checks of src/domain/submissions/service.rs let through.
use box_fraise_server.Prelude.{
  ℕ, ◌≤◌, ◌<◌, ◌≡◌, inl, inr, true, false, ◌&&◌, Option, some, none, String, arith, [], ◌∷◌, ◌++◌,
  length, is_some, is_none, Bool-cases, ltb, leb,
}
use box_fraise_server.Prelude.Text.{Text, trim, is_empty}
use box_fraise_server.Errors.{ok, bind-ok, fail_if-ok, ok_or-ok, ok-injective, ok_or, fail_if}
use box_fraise_server.Server.{Bytes}
use box_fraise_server.Members.Repository.{bf_member_is_current}
use box_fraise_server.Members.Repository as MemberTable
use box_fraise_server.Submissions.Types.{
  ContentType, parse_prompt, SubmissionUpload, Submission, Submissions,
}
use box_fraise_server.Submissions.Content.{
  max_image_bytes, min_image_bytes, max_title_chars, max_body_chars, min_body_chars,
  sniff_content_type, clean_optional_text, check_body, sniffed, check_image,
}
use box_fraise_server.Submissions.Repository.{meets_checks, insert_submission, pending_count}
use box_fraise_server.Submissions.Service.{max_pending, Draft, check_submit}

-- A column of the right size, or none.
abbrev pub IsColumn : Option Text → Type 0
IsColumn none = Unit
IsColumn (some s) = (min_body_chars ≤ length s) × (length s ≤ max_body_chars)

-- A photograph of the right size and of the type that its first bytes say, or none.
abbrev pub IsPicture : Option (Bytes × ContentType) → Type 0
IsPicture none = Unit
IsPicture (some (b, c)) =
    (min_image_bytes ≤ length b) × (length b ≤ max_image_bytes) × (sniff_content_type b ≡ some c)

-- What has passed every check.
pub record IsDraft (user : ℕ) (upload : SubmissionUpload) (t : Submissions) (d : Draft)
    : Type 0 where
  pub asked : parse_prompt upload.prompt ≡ some d.prompt
  pub headed :
      clean_optional_text upload.title max_title_chars "text exceeds 140 characters" ≡ ok d.title
  pub written :
      clean_optional_text upload.body max_body_chars "text exceeds 20000 characters" ≡ ok d.body
  pub pictured : check_image upload.image_bytes ≡ ok d.image
  pub column : IsColumn d.body
  pub picture : IsPicture d.image
  pub something : (is_none d.body && is_none d.image) ≡ false
  pub titled : (is_none d.body && is_some d.title) ≡ false
  pub number : MemberTable.member_no user t.members.users ≡ some d.member_no
  pub room : pending_count t.submissions < max_pending

-- A cleaned text is within its limit.
clean-length :
    (o : Option Text) (n : ℕ) (message : String) {s : Text}
    → clean_optional_text o n message ≡ ok (some s)
    → length s ≤ n
unfolding clean_optional_text
clean-length none n message h = cc h
clean-length (some raw) n message {s} h = elim (Bool-cases (is_empty (trim raw))) [
  | inl e ↦ cc (rw e at h)
  | inr e ↦ elim (Bool-cases (ltb n (length (trim raw)))) [
    | inl f ↦ cc (rw (e, f) at h)
    | inr f ↦ let same : trim raw ≡ s = cc (rw (e, f) at h) in rw (← same) (ground arith)
  ]
]

check_body-IsColumn :
    (o body : Option Text) (message : String)
    → clean_optional_text o max_body_chars message ≡ ok body
    → check_body body ≡ ok tt
    → IsColumn body
unfolding check_body
check_body-IsColumn o none message h k = tt
check_body-IsColumn o (some s) message h k =
    let long = fail_if-ok (ltb (length s) min_body_chars) _ k in
    (ground arith, clean-length o max_body_chars message h)

sniffed-IsPicture :
    (bytes : Bytes) {image : Option (Bytes × ContentType)}
    → sniffed bytes ≡ ok image
    → IsPicture image
sniffed-IsPicture bytes {image} h =
    let (_, e, h1) = bind-ok (fail_if (ltb (length bytes) min_image_bytes) _) _ h in
    let (_, f, h2) = bind-ok (fail_if (ltb max_image_bytes (length bytes)) _) _ h1 in
    let (c, g, h3) = bind-ok (ok_or (sniff_content_type bytes) _) _ h2 in
    let low = fail_if-ok (ltb (length bytes) min_image_bytes) _ e in
    let high = fail_if-ok (ltb max_image_bytes (length bytes)) _ f in
    let kind = ok_or-ok (sniff_content_type bytes) _ g in
    let same = ok-injective (some (bytes, c)) image h3 in
    rw (← same) (ground arith, ground arith, kind)

check_image-IsPicture :
    (o : Option Bytes) {image : Option (Bytes × ContentType)}
    → check_image o ≡ ok image
    → IsPicture image
unfolding check_image
check_image-IsPicture none {image} h = let same = ok-injective none image h in rw (← same) tt
check_image-IsPicture (some []) {image} h = let same = ok-injective none image h in rw (← same) tt
check_image-IsPicture (some (b ∷ bytes)) h = sniffed-IsPicture (b ∷ bytes) h

pub check_submit-ok :
    (user : ℕ) (upload : SubmissionUpload) (t : Submissions) {d : Draft}
    → check_submit user upload t ≡ ok d
    → IsDraft user upload t d
unfolding check_submit
check_submit-ok user upload t {d} h =
    let (prompt, e1, h1) = bind-ok (ok_or (parse_prompt upload.prompt) _) _ h in
    let (title, e2, h2) = bind-ok (clean_optional_text upload.title max_title_chars _) _ h1 in
    let (body, e3, h3) = bind-ok (clean_optional_text upload.body max_body_chars _) _ h2 in
    let (_, e4, h4) = bind-ok (check_body body) _ h3 in
    let (image, e5, h5) = bind-ok (check_image upload.image_bytes) _ h4 in
    let (_, e6, h6) = bind-ok (fail_if (is_none body && is_none image) _) _ h5 in
    let (_, e7, h7) = bind-ok (fail_if (is_none body && is_some title) _) _ h6 in
    let (number, e8, h8) = bind-ok (ok_or (MemberTable.member_no user t.members.users) _) _ h7 in
    let (_, e9, h9) = bind-ok (fail_if (leb max_pending (pending_count t.submissions)) _) _ h8 in
    let room = fail_if-ok (leb max_pending (pending_count t.submissions)) _ e9 in
    let same = ok-injective _ d h9 in
    rw (← same) (record {
      asked = ok_or-ok (parse_prompt upload.prompt) _ e1;
      headed = e2;
      written = e3;
      pictured = e5;
      column = check_body-IsColumn upload.body body _ e3 e4;
      picture = check_image-IsPicture upload.image_bytes e5;
      something = fail_if-ok (is_none body && is_none image) _ e6;
      titled = fail_if-ok (is_none body && is_some title) _ e7;
      number = ok_or-ok (MemberTable.member_no user t.members.users) _ e8;
      room = ground arith;
    })

pub insert_submission-some :
    (now : ℕ) (s : Submission) (t : Submissions) {u : Submissions}
    → insert_submission now s t ≡ some u
    → (meets_checks s ≡ true)
      × (bf_member_is_current now s.user_id t.members.attendances ≡ true)
      × (u ≡ record t { submissions = t.submissions ++ s ∷ [] })
unfolding insert_submission
insert_submission-some now s t h = ground arith
