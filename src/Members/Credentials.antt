-- ===== src/Members/Credentials.antt =====
-- Whom a token of src/domain/members speaks for, before and after a credential is reissued.
use box_fraise_server.Prelude.{
  ℕ, ◌≡◌, ◌≢◌, ◌↔◌, refl, ap, sym, ◌∙◌, inl, inr, false, Option, none, some, arith, List, [], ◌∷◌,
  ◌++◌, ◌==◌, Option-cases,
}
use box_fraise_server.Prelude.Text.{Text, text_eq, text_eq_refl, eq_of_text_eq}
use box_fraise_server.Errors.{ok, ok-injective}
use box_fraise_server.Server.{Env, Hashing}
use box_fraise_server.Table.{exists, delete}
use box_fraise_server.Table.Search.{find-append}
use box_fraise_server.Table.Removal.{find-delete, find-delete_spares, find-last, find-append_cases}
use box_fraise_server.Members.Types.{UserSession, Members, ReissueRequest, ReissuedCredential}
use box_fraise_server.Members.Repository.{
  new_session, insert_session, delete_all_sessions, id_by_member_no,
}
use box_fraise_server.Members.Service.{new_session_token, conclude_reissue, reissue}
use box_fraise_server.Http.Cookies.{Headers}
use box_fraise_server.Http.Middleware.{AdminSession, token_from, resolve_bearer}
use box_fraise_server.Http.Resolving.{user_of, session_of, resolve_bearer-user}
use box_fraise_server.Running.Types.{RunnerSession}

insert_session-some :
    (now user : ℕ) (token_hash : Text) (t : Members) {s : Members}
    → insert_session now user token_hash t ≡ some s
    → (exists (λ x. text_eq x.token_hash token_hash) t.user_sessions ≡ false)
      × (s ≡ record t { user_sessions = t.user_sessions ++ new_session now user token_hash ∷ [] })
unfolding insert_session
insert_session-some now user token_hash t h = ground arith

conclude_reissue-ok :
    (env : Env) (admin : ℕ) (req : ReissueRequest) (user ended : ℕ) (o : Option Members)
    (t : Members) {r : ReissuedCredential}
    → (conclude_reissue env admin req user ended o t).0 ≡ ok r
    → (s : Members) × (o ≡ some s)
      × (r.user_id ≡ user)
      × (r.token ≡ env.nonce)
      × ((conclude_reissue env admin req user ended o t).1.user_sessions ≡ s.user_sessions)
      × ((conclude_reissue env admin req user ended o t).1.users ≡ s.users)
      × ((conclude_reissue env admin req user ended o t).1.attendances ≡ s.attendances)
unfolding conclude_reissue
conclude_reissue-ok env admin req user ended none t h = cc h
conclude_reissue-ok env admin req user ended (some s) t {r} h =
    let same = ok-injective _ r h in
    (s, refl, ap (λ x. x.user_id) (sym same), ap (λ x. x.token) (sym same), refl, refl, refl)

-- The sessions after a credential has been reissued: those of others, and the new one.
reissue-sessions :
    (env : Env) (h : Hashing) (admin : ℕ) (req : ReissueRequest) (t : Members)
    {r : ReissuedCredential}
    → (reissue env h admin req t).0 ≡ ok r
    → let others = delete (λ s. s.user_id == r.user_id) t.user_sessions in
      let new = new_session env.db_now r.user_id (h.sha256_hex r.token) in
      let s = (reissue env h admin req t).1 in
      (s.user_sessions ≡ others ++ new ∷ [])
      × (exists (λ x. text_eq x.token_hash (h.sha256_hex r.token)) others ≡ false)
      × (id_by_member_no req.member_no t.users ≡ some r.user_id)
      × (s.users ≡ t.users)
      × (s.attendances ≡ t.attendances)
unfolding reissue delete_all_sessions new_session_token
reissue-sessions env h admin req t e = elim (Option-cases (id_by_member_no req.member_no t.users)) [
  | inl f ↦ cc (rw (f, reissue) at e)
  | inr (user, f) ↦
      let rest = record t { user_sessions = delete (λ s. s.user_id == user) t.user_sessions } in
      let made = insert_session env.db_now user (h.sha256_hex env.nonce) rest in
      let (s, g, who, token, sessions, users, attendances) =
        conclude_reissue-ok env admin req user _ made t (rw (f, reissue) at e) in
      let (fresh, rows) = insert_session-some env.db_now user (h.sha256_hex env.nonce) rest g in
      rw (f, reissue, who, token)
        (
          sessions ∙ ap (λ x. x.user_sessions) rows,
          fresh,
          refl,
          users ∙ ap (λ x. x.users) rows,
          attendances ∙ ap (λ x. x.attendances) rows,
        )
]

user_of-some :
    (o : Option UserSession) {user : ℕ}
    → user_of o ≡ some user
    → (s : UserSession) × (o ≡ some s) × (s.user_id ≡ user)
user_of-some none h = cc h
user_of-some (some s) h = (s, refl, cc h)

-- Among the sessions after a reissue, a hash speaks for the member exactly if it is the new one.
speaks_for :
    (now user : ℕ) (new_hash token_hash : Text) (sessions : List UserSession)
    → let others = delete (λ s. s.user_id == user) sessions in
      exists (λ x. text_eq x.token_hash new_hash) others ≡ false
      → (user_of (session_of token_hash (others ++ new_session now user new_hash ∷ [])) ≡ some user)
        ↔ (token_hash ≡ new_hash)
speaks_for now user new_hash token_hash sessions fresh = (old_or_new, latest)
  where
    rows : List UserSession
    rows = delete (λ s. s.user_id == user) sessions

    new : UserSession
    new = new_session now user new_hash

    old_or_new :
        user_of (session_of token_hash (rows ++ new ∷ [])) ≡ some user → token_hash ≡ new_hash
    old_or_new h =
        let (s, found, who) = user_of-some (session_of token_hash (rows ++ new ∷ [])) h in
        elim (find-append_cases (λ x. text_eq x.token_hash token_hash) rows new found) [
          | inr (same, hit) ↦ sym (eq_of_text_eq new_hash token_hash hit)
          | inl old ↦
              let spared =
                find-delete_spares (λ x. text_eq x.token_hash token_hash) (λ x. x.user_id == user)
                  sessions old in
              absurd (ground (arith, who, spared))
        ]

    latest : token_hash ≡ new_hash → user_of (session_of token_hash (rows ++ new ∷ [])) ≡ some user
    latest same = rw same (
        rw (find-last (λ x. text_eq x.token_hash new_hash) rows new fresh (text_eq_refl new_hash))
          refl)

-- A hash that speaks for somebody else goes on doing so.
speaks_for_others :
    (now user other : ℕ) (new_hash token_hash : Text) (sessions : List UserSession)
    → other ≢ user
    → user_of (session_of token_hash sessions) ≡ some other
    → let others = delete (λ s. s.user_id == user) sessions in
      user_of (session_of token_hash (others ++ new_session now user new_hash ∷ [])) ≡ some other
speaks_for_others now user other new_hash token_hash sessions apart h =
    let (s, found, who) = user_of-some (session_of token_hash sessions) h in
    let spared : (s.user_id == user) ≡ false = ground (arith, who, apart) in
    let kept =
      find-delete (λ x. text_eq x.token_hash token_hash) (λ x. x.user_id == user) sessions found
        spared in
    rw
      (find-append (λ x. text_eq x.token_hash token_hash) _ (new_session now user new_hash ∷ [])
        kept)
      (ap some who)

-- After a credential has been reissued, and whatever the request and the other sessions: a
-- request with a token is taken for the member exactly if the hash of its token is that of the
-- new token; whoever else a token spoke for before, it speaks for now; and the member is the one
-- whose number was read out, with the users and the attendances as they were.
pub reissue-resolve_bearer :
    (env : Env) (h : Hashing) (admin : ℕ) (req : ReissueRequest) (t : Members)
    (admins : List AdminSession) (runners : List RunnerSession) (now : ℕ) (headers : Headers)
    (token : Text) {r : ReissuedCredential}
    → (reissue env h admin req t).0 ≡ ok r
    → token_from headers ≡ some token
    → let s = (reissue env h admin req t).1 in
      let authed = λ (m : Members).
        (resolve_bearer h now headers (record {
          user_sessions = m.user_sessions;
          admin_sessions = admins;
          runner_sessions = runners;
        })).authed_user in
      ((authed s ≡ some r.user_id) ↔ (h.sha256_hex token ≡ h.sha256_hex r.token))
      × ((other : ℕ) → other ≢ r.user_id → authed t ≡ some other → authed s ≡ some other)
      × (id_by_member_no req.member_no t.users ≡ some r.user_id)
      × (s.users ≡ t.users)
      × (s.attendances ≡ t.attendances)
reissue-resolve_bearer env h admin req t admins runners now headers token {r} e f =
    let (sessions, fresh, who, users, attendances) = reissue-sessions env h admin req t e in
    let hash = h.sha256_hex token in
    let new = h.sha256_hex r.token in
    let here =
      resolve_bearer-user h now headers
        (record {
          user_sessions = (reissue env h admin req t).1.user_sessions;
          admin_sessions = admins;
          runner_sessions = runners;
        })
        token f in
    let before =
      resolve_bearer-user h now headers
        (record {
          user_sessions = t.user_sessions;
          admin_sessions = admins;
          runner_sessions = runners;
        })
        token f in
    rw (here, before, sessions)
      (
        speaks_for env.db_now r.user_id new hash t.user_sessions fresh,
        λ other apart. speaks_for_others env.db_now r.user_id other new hash t.user_sessions apart,
        who,
        users,
        attendances,
      )
