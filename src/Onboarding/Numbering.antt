-- ===== src/Onboarding/Numbering.antt =====
-- The members' numbers, whatever is asked of src/domain/members and src/domain/onboarding.
use box_fraise_server.Prelude.{
  ℕ, suc, ◌≡◌, ◌<◌, ◌⊎◌, inl, inr, false, arith, List, [], ◌∷◌, ◌++◌, ◌==◌,
}
use box_fraise_server.Prelude.Text.{Text}
use box_fraise_server.Server.{Env, Crypto, Hashing}
use box_fraise_server.Table.{exists, update}
use box_fraise_server.Members.Types.{
  Members, CreateMemberRequest, ReissueRequest, RecordAttendanceRequest,
}
use box_fraise_server.Members.Repository.{
  new_member, insert_verified_member, insert_session, delete_all_sessions, delete_session,
}
use box_fraise_server.Members.Repository as MemberTable
use box_fraise_server.Members.Service as MembersService
use box_fraise_server.Onboarding.Types.{Onboarding, RegisterRequest, VerifyRequest}
use box_fraise_server.Onboarding.Repository.{
  pending_user, is_pending_user, promoted_user, insert_pending_user_with_id, insert_device_key,
  insert_challenge, mark_challenge_used, promote_user_to_verified,
}
use box_fraise_server.Onboarding.Service.{
  write_register, conclude_register, register, issue_challenge, conclude_verify, verify, Request,
  registering, issuing, verifying, managing, serve, run,
}
use box_fraise_server.Onboarding.Cases.{verify-conclude_verify}
use box_fraise_server.Onboarding.Numbers.{
  IsNumbered, Draw, kept, burned, joined, registered, scanned, Draw-IsNumbered,
}

create-users :
    (env : Env) (h : Hashing) (admin : ℕ) (req : CreateMemberRequest) (t : Members)
    → let s = (MembersService.create env h admin req t).1 in
      (s.member_no_seq ≡ suc t.member_no_seq)
      × ((s.users ≡ t.users)
          ⊎ ((s.users
                ≡ t.users ++ new_member env.db_now env.uuid req.event_id admin t.member_no_seq ∷ [])
              × (exists (λ u. u.id == env.uuid) t.users ≡ false)
              × (0 < t.member_no_seq)))
unfolding MembersService.create MembersService.conclude_create MembersService.write_member
    insert_verified_member insert_session MemberTable.record_attendance
create-users env h admin req t = ground arith

reissue-users :
    (env : Env) (h : Hashing) (admin : ℕ) (req : ReissueRequest) (t : Members)
    → let s = (MembersService.reissue env h admin req t).1 in
      (s.member_no_seq ≡ t.member_no_seq) × (s.users ≡ t.users)
unfolding MembersService.reissue MembersService.conclude_reissue insert_session delete_all_sessions
reissue-users env h admin req t = ground arith

record_attendance-users :
    (env : Env) (admin : ℕ) (req : RecordAttendanceRequest) (t : Members)
    → let s = (MembersService.record_attendance env admin req t).1 in
      (s.member_no_seq ≡ t.member_no_seq) × (s.users ≡ t.users)
unfolding MembersService.record_attendance MembersService.conclude_attendance
    MemberTable.record_attendance
record_attendance-users env admin req t = ground arith

sign_out-users :
    (user : ℕ) (token_hash : Text) (t : Members)
    → let s = (MembersService.sign_out user token_hash t).1 in
      (s.member_no_seq ≡ t.member_no_seq) × (s.users ≡ t.users)
unfolding MembersService.sign_out delete_session
sign_out-users user token_hash t = ground arith

register-users :
    (c : Crypto) (h : Hashing) (env : Env) (req : RegisterRequest) (t : Onboarding)
    → let s = (register c h env req t).1 in
      (s.members.member_no_seq ≡ t.members.member_no_seq)
      × ((s.members.users ≡ t.members.users)
          ⊎ ((s.members.users ≡ t.members.users ++ pending_user env.db_now env.uuid ∷ [])
              × (exists (λ u. u.id == env.uuid) t.members.users ≡ false)))
unfolding register conclude_register write_register insert_pending_user_with_id insert_device_key
    insert_session
register-users c h env req t = ground arith

issue_challenge-users :
    (env : Env) (ttl user : ℕ) (t : Onboarding)
    → let s = (issue_challenge env ttl user t).1 in
      (s.members.member_no_seq ≡ t.members.member_no_seq) × (s.members.users ≡ t.members.users)
unfolding issue_challenge insert_challenge
issue_challenge-users env ttl user t = ground arith

conclude_verify-Draw :
    (env : Env) (admin : ℕ) (req : VerifyRequest) (user : ℕ) (t : Onboarding)
    → let p = promote_user_to_verified env.db_now user req.event_id admin t.members in
      let s = (conclude_verify env admin req user p t).1 in
      ((s.members.users ≡ t.members.users) × (s.members.member_no_seq ≡ t.members.member_no_seq))
      ⊎ ((s.members.users ≡ t.members.users)
          × (s.members.member_no_seq ≡ suc t.members.member_no_seq))
      ⊎ ((s.members.users
            ≡ update
                (is_pending_user user)
                (promoted_user env.db_now req.event_id admin t.members.member_no_seq)
                t.members.users)
          × (s.members.member_no_seq ≡ suc t.members.member_no_seq)
          × (0 < t.members.member_no_seq))
unfolding conclude_verify promote_user_to_verified mark_challenge_used
conclude_verify-Draw env admin req user t = ground arith

-- The users and the sequence after a request, from those before.
abbrev IsDraw : Members → Members → Type 0
IsDraw t s = Draw t.users t.member_no_seq s.users s.member_no_seq

module _ (c : Crypto) (h : Hashing) (ttl : ℕ) where
  verify-IsDraw :
      (env : Env) (admin : ℕ) (req : VerifyRequest) (t : Onboarding)
      → IsDraw t.members (verify c env admin req t).1.members
  verify-IsDraw env admin req t = elim (verify-conclude_verify c env admin req t) [
    | inr (e, k) ↦ rw k kept
    | inl (ch, g, k) ↦ rw k (elim (conclude_verify-Draw env admin req ch.user_id t) [
      | inl (users, seq) ↦ rw (users, seq) kept
      | inr (inl (users, seq)) ↦ rw (users, seq) burned
      | inr (inr (users, seq, positive)) ↦
          rw (users, seq) (scanned env.db_now ch.user_id req.event_id admin positive)
    ])
  ]

  members-IsDraw :
      (env : Env) (req : MembersService.Request) (t : Members)
      → IsDraw t (MembersService.serve h env req t)
  unfolding MembersService.serve
  members-IsDraw env (MembersService.Request.creating admin req) t =
      let (seq, users) = create-users env h admin req t in
      elim users [
        | inl same ↦ rw (seq, same) burned
        | inr (more, fresh, positive) ↦
            rw (seq, more) (joined env.db_now env.uuid req.event_id admin fresh positive)
      ]
  members-IsDraw env (MembersService.Request.reissuing admin req) t =
      let (seq, users) = reissue-users env h admin req t in rw (seq, users) kept
  members-IsDraw env (MembersService.Request.signing_out user token_hash) t =
      let (seq, users) = sign_out-users user token_hash t in rw (seq, users) kept
  members-IsDraw env (MembersService.Request.recording admin req) t =
      let (seq, users) = record_attendance-users env admin req t in rw (seq, users) kept

  serve-IsDraw :
      (env : Env) (req : Request) (t : Onboarding)
      → IsDraw t.members (serve c h ttl env req t).members
  unfolding serve
  serve-IsDraw env (registering req) t =
      let (seq, users) = register-users c h env req t in
      elim users [
        | inl same ↦ rw (seq, same) kept
        | inr (more, fresh) ↦ rw (seq, more) (registered env.db_now env.uuid fresh)
      ]
  serve-IsDraw env (issuing user) t =
      let (seq, users) = issue_challenge-users env ttl user t in rw (seq, users) kept
  serve-IsDraw env (verifying admin req) t = verify-IsDraw env admin req t
  serve-IsDraw env (managing req) t = members-IsDraw env req t.members

  -- If no two users share an id or a member number, every number is positive and below the next
  -- of the sequence, and exactly the verified users have one, then this is so after any requests
  -- to members and to onboarding: members made in person and members made by a scan draw from
  -- one sequence, and numbers lost by rollbacks and pending users come in between.
  pub run-IsNumbered :
      (requests : List (Env × Request)) (t : Onboarding)
      → IsNumbered t.members.users t.members.member_no_seq
      → let s = run c h ttl requests t in IsNumbered s.members.users s.members.member_no_seq
  unfolding run
  run-IsNumbered [] t w = w
  run-IsNumbered ((env, req) ∷ rest) t w =
      run-IsNumbered rest (serve c h ttl env req t)
        (Draw-IsNumbered t.members.users t.members.member_no_seq (serve-IsDraw env req t) w)
