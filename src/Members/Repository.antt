-- ===== src/Members/Repository.antt =====
-- The statements of src/domain/members/repository.rs, and the functions of the migrations that
-- they call.
use box_fraise_server.Prelude.{
  ℕ, ◌+◌, ◌*◌, Bool, true, false, not, ◌&&◌, ◌||◌, Option, none, some, List, [], ◌∷◌, ◌++◌, map,
  leb, ltb, ◌==◌, if◌then◌else◌, is_some,
}
use box_fraise_server.Prelude.Integers.{ℤ, pos, negsuc}
use box_fraise_server.Prelude.Text.{Text, text_eq}
use box_fraise_server.Server.{seconds}
use box_fraise_server.Table.{find, select, exists, count, delete, order_desc, limit}
use box_fraise_server.Members.Types.{
  verified, User, UserSession, Attendance, Event, Members, RunCount,
}

abbrev pub days : ℕ → ℕ
days n = seconds (n * 86400)

-- A user whose number is `n`.
abbrev pub numbered : ℕ → Option ℕ → Bool
numbered n none = false
numbered n (some m) = m == n

abbrev pub new_member : ℕ → ℕ → ℕ → ℕ → ℕ → User
new_member now id event admin member_no = record {
  id = id;
  status = verified;
  registered_at = now;
  verified_at = some now;
  verified_at_event_id = some event;
  verified_by_admin_id = some admin;
  member_no = some member_no;
  display_name = none;
}

-- `none` is a refusal by a key, a foreign key or a CHECK.
unfoldable pub insert_verified_member : ℕ → ℕ → ℕ → ℕ → ℕ → Members → Option Members
insert_verified_member now id event admin member_no t =
    if exists (λ u. u.id == id) t.users
      || exists (λ u. numbered member_no u.member_no) t.users
      || not (
          exists (λ e. e.id == event) t.events
          && exists (λ a. a == admin) t.admins
          && ltb 0 member_no)
    then none
    else some (record t { users = t.users ++ new_member now id event admin member_no ∷ [] })

abbrev pub new_session : ℕ → ℕ → Text → UserSession
new_session now user token_hash = record {
  token_hash = token_hash;
  user_id = user;
  created_at = now;
}

unfoldable pub insert_session : ℕ → ℕ → Text → Members → Option Members
insert_session now user token_hash t =
    if exists (λ s. text_eq s.token_hash token_hash) t.user_sessions
      || not (exists (λ u. u.id == user) t.users)
    then none
    else some (record t { user_sessions = t.user_sessions ++ new_session now user token_hash ∷ [] })

-- Under the policy `user_sessions_own_delete`.
abbrev pub is_own_session : ℕ → Text → UserSession → Bool
is_own_session user token_hash s = text_eq s.token_hash token_hash && (s.user_id == user)

unfoldable pub delete_session : ℕ → Text → Members → Bool × Members
delete_session user token_hash t = (
  exists (is_own_session user token_hash) t.user_sessions,
  record t { user_sessions = delete (is_own_session user token_hash) t.user_sessions },
)

unfoldable pub delete_all_sessions : ℕ → Members → ℕ × Members
delete_all_sessions user t = (
  count (λ s. s.user_id == user) t.user_sessions,
  record t { user_sessions = delete (λ s. s.user_id == user) t.user_sessions },
)

abbrev pub number_of : Option User → Option ℕ
number_of none = none
number_of (some u) = u.member_no

unfoldable pub member_no : ℕ → List User → Option ℕ
member_no user users = number_of (find (λ u. u.id == user) users)

abbrev pub has_number : ℤ → User → Bool
has_number (pos n) u = numbered n u.member_no
has_number (negsuc n) u = false

abbrev pub id_of : Option User → Option ℕ
id_of none = none
id_of (some u) = some u.id

unfoldable pub id_by_member_no : ℤ → List User → Option ℕ
id_by_member_no number users = id_of (find (has_number number) users)

abbrev pub new_attendance : ℕ → ℕ → ℕ → ℕ → ℕ → Attendance
new_attendance now id user event admin = record {
  id = id;
  user_id = user;
  event_id = event;
  recorded_by_admin_id = some admin;
  recorded_at = now;
}

abbrev pub attended : ℕ → ℕ → Attendance → Bool
attended user event a = a.user_id == user && (a.event_id == event)

-- Whether a row was inserted, and the table; `none` is a refusal by another constraint than
-- `attendances_once_per_event`.
unfoldable pub record_attendance : ℕ → ℕ → ℕ → ℕ → ℕ → Members → Option (Bool × Members)
record_attendance now id user event admin t =
    if exists (attended user event) t.attendances
    then some (false, t)
    else if exists (λ a. a.id == id) t.attendances
        || not (
            exists (λ u. u.id == user) t.users
            && exists (λ e. e.id == event) t.events
            && exists (λ a. a == admin) t.admins)
    then none
    else some (
      true,
      record t { attendances = t.attendances ++ new_attendance now id user event admin ∷ [] },
    )

unfoldable pub bf_member_is_current : ℕ → ℕ → List Attendance → Bool
bf_member_is_current now user attendances =
    exists (λ a. a.user_id == user && ltb now (a.recorded_at + days 31)) attendances

abbrev latest : ℕ → Option ℕ → Option ℕ
latest t none = some t
latest t (some s) = if ltb s t then some t else some s

-- MAX over no rows is NULL.
unfoldable pub bf_member_last_seen : ℕ → List Attendance → Option ℕ
bf_member_last_seen user [] = none
bf_member_last_seen user (a ∷ attendances) =
    let rest = bf_member_last_seen user attendances in
    if a.user_id == user then latest a.recorded_at rest else rest

unfoldable pub standing : ℕ → ℕ → List Attendance → Bool × Option ℕ
standing now user attendances =
    (bf_member_is_current now user attendances, bf_member_last_seen user attendances)

-- COUNT(DISTINCT user_id) of the rows.
unfoldable pub distinct_users : List Attendance → ℕ
distinct_users [] = 0
distinct_users (a ∷ attendances) =
    (if exists (λ b. b.user_id == a.user_id) attendances then 0 else 1) + distinct_users attendances

-- Since `n` days ago.
abbrev pub recent : ℕ → ℕ → Attendance → Bool
recent now n a = leb now (a.recorded_at + days n)

unfoldable pub reach : ℕ → Members → ℕ × ℕ × ℕ
reach now t = (
  distinct_users (select (recent now 30) t.attendances),
  distinct_users (select (recent now 90) t.attendances),
  count (λ u. is_some u.member_no) t.users,
)

abbrev run_count : List Attendance → Event → RunCount
run_count attendances e = record {
  name = e.name;
  starts_at = e.starts_at;
  turned_up = count (λ a. a.event_id == e.id) attendances;
}

-- The JOIN leaves out the events that nobody attended.
unfoldable pub recent_runs : Members → List RunCount
recent_runs t = limit 8 (
    map (run_count t.attendances) (
      order_desc (λ e. e.starts_at)
        (select (λ e. exists (λ a. a.event_id == e.id) t.attendances) t.events)))
