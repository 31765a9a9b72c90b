-- ===== src/Members/Service.antt =====
-- The handlers of src/domain/members/service.rs.
use box_fraise_server.Prelude.{
  ℕ, suc, ◌+◌, String, Bool, true, false, Option, none, some, List, [], ◌∷◌,
}
use box_fraise_server.Prelude.Integers.{ℤ, pos, negsuc}
use box_fraise_server.Prelude.Text.{Text}
use box_fraise_server.Errors.{Result, ok, err, not_found, db, ◌>>=◌, ok_or}
use box_fraise_server.Server.{Env, Json, Hashing, write_audit}
use box_fraise_server.Members.Types.{
  Members, CreateMemberRequest, CreatedMember, RecordAttendanceRequest, AttendanceRecorded,
  ReissueRequest, ReissuedCredential, MembershipStatus, Reach,
}
use box_fraise_server.Members.Repository.{days}
use box_fraise_server.Members.Repository

-- The raw token, of 32 random bytes, and the hash of it that is kept.
unfoldable pub new_session_token : Env → Hashing → Text × Text
new_session_token env h = (env.nonce, h.sha256_hex env.nonce)

abbrev pub audited : Env → ℕ → String → ℕ → List (String × Json) → Members → Members
audited env admin action target metadata t = record t {
  audit_events =
      write_audit env
        (record {
          actor_type = "admin";
          actor_id = some admin;
          action = action;
          target = some (Json.num target);
          metadata = metadata;
        })
        t.audit_events;
}

abbrev then_session : ℕ → ℕ → Text → Option Members → Option Members
then_session now user token_hash none = none
then_session now user token_hash (some t) = Repository.insert_session now user token_hash t

abbrev then_attendance : ℕ → ℕ → ℕ → ℕ → ℕ → Option Members → Option (Bool × Members)
then_attendance now id user event admin none = none
then_attendance now id user event admin (some t) =
    Repository.record_attendance now id user event admin t

-- The transaction of `create`: the member with the number, a session, and the attendance.
unfoldable pub write_member :
    Env → Text → ℕ → CreateMemberRequest → ℕ → Members → Option (Bool × Members)
write_member env token_hash admin req number t =
    then_attendance env.db_now env.other_uuid env.uuid req.event_id admin (
      then_session env.db_now env.uuid token_hash
        (Repository.insert_verified_member env.db_now env.uuid req.event_id admin number t))

unfoldable pub conclude_create :
    Env
    → ℕ
    → CreateMemberRequest
    → ℕ
    → Option (Bool × Members)
    → Members
    → Result CreatedMember × Members
conclude_create env admin req number none t = (err db, t)
conclude_create env admin req number (some (new, s)) t = (
  ok (record { user_id = env.uuid; member_no = number; token = env.nonce }),
  audited env admin "member.created" env.uuid
      (("event_id", Json.num req.event_id) ∷ ("member_no", Json.num number) ∷ []) s,
)

-- `nextval`, which no rollback takes back.
abbrev pub next_number : Members → Members
next_number t = record t { member_no_seq = suc t.member_no_seq }

unfoldable pub create :
    Env → Hashing → ℕ → CreateMemberRequest → Members → Result CreatedMember × Members
create env h admin req t =
    conclude_create env admin req t.member_no_seq
      (write_member env (new_session_token env h).1 admin req t.member_no_seq (next_number t))
      (next_number t)

abbrev number_json : ℤ → Json
number_json (pos n) = Json.num n
number_json (negsuc n) = Json.null

-- The end of `reissue`; `ended` is the number of sessions that were deleted.
unfoldable pub conclude_reissue :
    Env
    → ℕ
    → ReissueRequest
    → ℕ
    → ℕ
    → Option Members
    → Members
    → Result ReissuedCredential × Members
conclude_reissue env admin req user ended none t = (err db, t)
conclude_reissue env admin req user ended (some s) t =
    let standing = Repository.standing env.db_now user s.attendances in
    (
      ok (record {
        user_id = user;
        member_no = req.member_no;
        token = env.nonce;
        sessions_ended = ended;
        current = standing.0;
        last_seen = standing.1;
      }),
      audited env admin "member.reissued" user
          (("member_no", number_json req.member_no) ∷ ("sessions_ended", Json.num ended) ∷ []) s,
    )

unfoldable pub reissue :
    Env → Hashing → ℕ → ReissueRequest → Members → Result ReissuedCredential × Members
reissue env h admin req t =
    elim (ok_or (Repository.id_by_member_no req.member_no t.users) not_found) [
      | err e ↦ (err e, t)
      | ok user ↦
          let deleted = Repository.delete_all_sessions user t in
          conclude_reissue env admin req user deleted.0
            (Repository.insert_session env.db_now user (new_session_token env h).1 deleted.1) t
    ]

unfoldable pub sign_out : ℕ → Text → Members → Result (Unit {0}) × Members
sign_out user token_hash t = (ok tt, (Repository.delete_session user token_hash t).1)

abbrev pub membership_days : ℕ
membership_days = 31

abbrev or_now : ℕ → Option ℕ → ℕ
or_now now none = now
or_now now (some t) = t

unfoldable pub conclude_attendance :
    Env
    → ℕ
    → RecordAttendanceRequest
    → ℕ
    → Option (Bool × Members)
    → Members
    → Result AttendanceRecorded × Members
conclude_attendance env admin req user none t = (err db, t)
conclude_attendance env admin req user (some (was_new, s)) t =
    let last_seen = (Repository.standing env.db_now user s.attendances).1 in
    (
      ok (record {
        member_no = req.member_no;
        was_new = was_new;
        current_until = or_now env.now last_seen + days membership_days;
      }),
      elim was_new [
        | false ↦ s
        | true ↦
            audited env admin "member.attended" user
              (("event_id", Json.num req.event_id) ∷ ("member_no", number_json req.member_no) ∷ [])
              s
      ],
    )

unfoldable pub record_attendance :
    Env → ℕ → RecordAttendanceRequest → Members → Result AttendanceRecorded × Members
record_attendance env admin req t =
    elim (ok_or (Repository.id_by_member_no req.member_no t.users) not_found) [
      | err e ↦ (err e, t)
      | ok user ↦
          conclude_attendance env admin req user
            (Repository.record_attendance env.db_now env.uuid user req.event_id admin t) t
    ]

abbrev until : Option ℕ → Option ℕ
until none = none
until (some t) = some (t + days membership_days)

unfoldable pub standing : Env → ℕ → Members → Result MembershipStatus
standing env user t = do
  number ← ok_or (Repository.member_no user t.users) not_found
  let found = Repository.standing env.db_now user t.attendances
  ok (record {
    member_no = number;
    current = found.0;
    last_seen = found.1;
    current_until = until found.1;
  })

unfoldable pub reach : Env → Members → Result Reach
reach env t =
    let (month, quarter, members) = Repository.reach env.db_now t in
    ok (record {
      people_30d = month;
      people_90d = quarter;
      members_all_time = members;
      runs = Repository.recent_runs t;
    })

-- The requests that write, one after another.
pub data Request : Type 0 where
  creating : ℕ → CreateMemberRequest → Request
  reissuing : ℕ → ReissueRequest → Request
  signing_out : ℕ → Text → Request
  recording : ℕ → RecordAttendanceRequest → Request

module _ (h : Hashing) where
  unfoldable pub serve : Env → Request → Members → Members
  serve env (creating admin req) t = (create env h admin req t).1
  serve env (reissuing admin req) t = (reissue env h admin req t).1
  serve env (signing_out user token_hash) t = (sign_out user token_hash t).1
  serve env (recording admin req) t = (record_attendance env admin req t).1

  unfoldable pub run : List (Env × Request) → Members → Members
  run [] t = t
  run ((env, req) ∷ rest) t = run rest (serve env req t)
