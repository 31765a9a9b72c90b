-- ===== src/Onboarding/Repository.antt =====
-- The statements of src/domain/onboarding/repository.rs. `none` is a refusal by a key, a foreign
-- key or a CHECK.
use mathlib.Core.Option
use box_fraise_server.Prelude.{
  ℕ, suc, Bool, true, false, not, ◌&&◌, ◌||◌, Option, none, some, List, [], ◌∷◌, ◌++◌, map, ltb,
  ◌==◌, if◌then◌else◌,
}
use box_fraise_server.Prelude.Text.{Text, text_eq}
use box_fraise_server.Server.{Bytes}
use box_fraise_server.Table.{find, select, exists, update}
use box_fraise_server.Members.Types.{UserStatus, pending, verified, User, Event, Members}
use box_fraise_server.Members.Repository.{numbered}
use box_fraise_server.Onboarding.Types.{DeviceKey, Challenge, Onboarding, MeRow, VerifiedEvent}

abbrev pub pending_user : ℕ → ℕ → User
pending_user now id = record {
  id = id;
  status = pending;
  registered_at = now;
  verified_at = none;
  verified_at_event_id = none;
  verified_by_admin_id = none;
  member_no = none;
  display_name = none;
}

unfoldable pub insert_pending_user_with_id : ℕ → ℕ → Members → Option Members
insert_pending_user_with_id now id t =
    if exists (λ u. u.id == id) t.users
    then none
    else some (record t { users = t.users ++ pending_user now id ∷ [] })

abbrev pub new_device_key : ℕ → ℕ → ℕ → Bytes → Text → DeviceKey
new_device_key now id user public_key key_id = record {
  id = id;
  user_id = user;
  public_key = public_key;
  key_id = key_id;
  registered_at = now;
}

unfoldable pub insert_device_key : ℕ → ℕ → ℕ → Bytes → Text → Onboarding → Option Onboarding
insert_device_key now id user public_key key_id t =
    if exists (λ k. k.id == id || text_eq k.public_key public_key) t.device_keys
      || not (exists (λ u. u.id == user) t.members.users)
    then none
    else some (record t {
      device_keys = t.device_keys ++ new_device_key now id user public_key key_id ∷ [];
    })

abbrev pub new_challenge : ℕ → ℕ → Text → ℕ → Challenge
new_challenge now user nonce expires_at = record {
  nonce = nonce;
  user_id = user;
  issued_at = now;
  expires_at = expires_at;
  used_at = none;
}

unfoldable pub insert_challenge : ℕ → ℕ → Text → ℕ → Onboarding → Option Onboarding
insert_challenge now user nonce expires_at t =
    if exists (λ c. text_eq c.nonce nonce) t.challenges
      || not (exists (λ u. u.id == user) t.members.users)
    then none
    else some
        (record t { challenges = t.challenges ++ new_challenge now user nonce expires_at ∷ [] })

unfoldable pub get_challenge_for_verify : Text → Onboarding → Option Challenge
get_challenge_for_verify nonce t = find (λ c. text_eq c.nonce nonce) t.challenges

abbrev pub used : ℕ → Challenge → Challenge
used now c = record c { used_at = some now }

unfoldable pub mark_challenge_used : ℕ → Text → Onboarding → Onboarding
mark_challenge_used now nonce t = record t {
  challenges = update (λ c. text_eq c.nonce nonce) (used now) t.challenges;
}

unfoldable pub get_device_public_keys : ℕ → Onboarding → List Bytes
get_device_public_keys user t =
    map (λ k. k.public_key) (select (λ k. k.user_id == user) t.device_keys)

abbrev is_pending : UserStatus → Bool
is_pending pending = true
is_pending verified = false

abbrev pub is_pending_user : ℕ → User → Bool
is_pending_user user u = u.id == user && is_pending u.status

abbrev pub promoted_user : ℕ → ℕ → ℕ → ℕ → User → User
promoted_user now event admin number u = record u {
  status = verified;
  verified_at = some now;
  verified_at_event_id = some event;
  verified_by_admin_id = some admin;
  member_no = some number;
}

-- What the UPDATE does: it finds no row, a constraint refuses it, or it returns `verified_at`.
pub data Promotion : Type 0 where
  not_pending violation : Promotion
  promoted : ℕ → Members → Promotion

unfoldable pub promote_user_to_verified : ℕ → ℕ → ℕ → ℕ → Members → Promotion
promote_user_to_verified now user event admin t =
    if not (exists (is_pending_user user) t.users)
    then not_pending
    else if exists (λ u. numbered t.member_no_seq u.member_no) t.users
        || not (
            exists (λ e. e.id == event) t.events
            && exists (λ a. a == admin) t.admins
            && ltb 0 t.member_no_seq)
    then violation
    else promoted now (record t {
      users = update (is_pending_user user) (promoted_user now event admin t.member_no_seq) t.users;
      member_no_seq = suc t.member_no_seq;
    })

abbrev verified_event : Event → VerifiedEvent
verified_event e = record {
  id = e.id;
  name = e.name;
  host_name = e.host_name;
  starts_at = e.starts_at;
  address = e.address;
}

-- The LEFT JOIN on `events`, under the policy `events_public_select`.
unfoldable pub joined_event : Option ℕ → List Event → Option VerifiedEvent
joined_event none events = none
joined_event (some id) events =
    Option.map verified_event (find (λ e. e.id == id && e.published) events)

abbrev me_row : List Event → User → MeRow
me_row events u = record {
  status = u.status;
  display_name = u.display_name;
  verified_at = u.verified_at;
  event = joined_event u.verified_at_event_id events;
}

unfoldable pub get_user_me : ℕ → Members → Option MeRow
get_user_me user t = Option.map (me_row t.events) (find (λ u. u.id == user) t.users)
