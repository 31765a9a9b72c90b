-- ===== src/Members/Types.antt =====
-- src/domain/members/types.rs, and the tables of migrations/0001_init.sql, 0024_member_numbers.sql
-- and 0025_attendance_keeps_membership.sql.
use box_fraise_server.Prelude.{ℕ, Bool, Option, List}
use box_fraise_server.Prelude.Integers.{ℤ}
use box_fraise_server.Prelude.Text.{Text}
use box_fraise_server.Server.{AuditEvent}

pub data UserStatus : Type 0 where
  pending verified : UserStatus

-- A row of `users`.
pub record User : Type 0 where
  pub id : ℕ
  pub status : UserStatus
  pub registered_at : ℕ
  pub verified_at : Option ℕ
  pub verified_at_event_id : Option ℕ
  pub verified_by_admin_id : Option ℕ
  pub member_no : Option ℕ
  pub display_name : Option Text

-- A row of `user_sessions`.
pub record UserSession : Type 0 where
  pub token_hash : Text
  pub user_id : ℕ
  pub created_at : ℕ

-- A row of `attendances`.
pub record Attendance : Type 0 where
  pub id : ℕ
  pub user_id : ℕ
  pub event_id : ℕ
  pub recorded_by_admin_id : Option ℕ
  pub recorded_at : ℕ

-- What a row of `events` says of a run, its place on the map and its questions aside.
pub record Event : Type 0 where
  pub id : ℕ
  pub name : Text
  pub host_name : Text
  pub address : Text
  pub starts_at : ℕ
  pub published : Bool

-- Of `admins` only the keys matter; `member_no_seq` is the number that `nextval` gives next.
pub record Members : Type 0 where
  pub users : List User
  pub user_sessions : List UserSession
  pub attendances : List Attendance
  pub events : List Event
  pub admins : List ℕ
  pub member_no_seq : ℕ
  pub audit_events : List AuditEvent

pub record CreateMemberRequest : Type 0 where
  pub event_id : ℕ

pub record CreatedMember : Type 0 where
  pub user_id : ℕ
  pub member_no : ℕ
  pub token : Text

pub record RecordAttendanceRequest : Type 0 where
  pub event_id : ℕ
  pub member_no : ℤ

pub record AttendanceRecorded : Type 0 where
  pub member_no : ℤ
  pub was_new : Bool
  pub current_until : ℕ

pub record ReissueRequest : Type 0 where
  pub member_no : ℤ

pub record ReissuedCredential : Type 0 where
  pub user_id : ℕ
  pub member_no : ℤ
  pub token : Text
  pub sessions_ended : ℕ
  pub current : Bool
  pub last_seen : Option ℕ

pub record MembershipStatus : Type 0 where
  pub member_no : ℕ
  pub current : Bool
  pub last_seen : Option ℕ
  pub current_until : Option ℕ

pub record RunCount : Type 0 where
  pub name : Text
  pub starts_at : ℕ
  pub turned_up : ℕ

pub record Reach : Type 0 where
  pub people_30d : ℕ
  pub people_90d : ℕ
  pub members_all_time : ℕ
  pub runs : List RunCount
