-- ===== src/Pairings/Service.antt =====
-- src/domain/pairings/service.rs. A handler takes the request's environment and the tables, and
-- returns its reply with the tables as committed: what a failed transaction wrote is dropped.
use box_fraise_server.Prelude.{
  ℕ, ◌+◌, String, Bool, true, false, not, ◌||◌, Option, none, some, List, [], ◌∷◌, map, is_some,
  leb, ltb, ◌==◌, if◌then◌else◌, length,
}
use box_fraise_server.Prelude.Text.{Text, text_eq, codes, is_empty, trim}
use box_fraise_server.Errors.{
  Result, ok, err, not_found, conflict, bad_request, too_many_requests, invalid_signature, db,
  ◌>>=◌, ◌>>◌, fail_if, ok_or, is_ok,
}
use box_fraise_server.Server.{
  Env, Bytes, Json, write_audit, seconds, Crypto, b64_decode, verify_p256_signature,
}
use box_fraise_server.Pairings.Types.{
  Decision, says_yes, says_no, PairingNonce, PairingRow, Status, waiting, deciding, opened, lapsed,
  closed, PairingView, is_lower, status, to_view, PairingNonceResponse, ClaimRequest,
  ClaimInPersonRequest, ClaimResponse, DecisionRequest, AuthorizedResponse, SetDisplayNameRequest,
}
use box_fraise_server.Pairings.Repository.{
  Conn, Db, Insert, inserted, unique_violation, refused, insert_nonce, get_nonce, burn_nonce,
  insert_pairing, list_for_user, get_for_user, set_decision, open_if_mutual, is_authorized,
  pending_count_for, public_keys_for,
}
use box_fraise_server.Pairings.Repository

abbrev pub nonce_ttl_secs : ℕ
nonce_ttl_secs = 120

abbrev pub max_pending_per_user : ℕ
max_pending_per_user = 25

abbrev pub max_display_name_chars : ℕ
max_display_name_chars = 40

-- `RlsTransaction::begin`
abbrev pub begin : Env → ℕ → Conn
begin env me = record { user = me; now = env.db_now }

abbrev audited : Env → ℕ → String → Option Json → List (String × Json) → Db → Db
audited env me action target metadata tables = record tables {
  audit_events =
      write_audit env
        (record {
          actor_type = "user";
          actor_id = some me;
          action = action;
          target = target;
          metadata = metadata;
        })
        tables.audit_events;
}

unfoldable pub issue_nonce : Env → ℕ → Db → Result PairingNonceResponse × Db
issue_nonce env me tables =
    let expires_at = env.now + seconds nonce_ttl_secs in
    elim (insert_nonce (begin env me) env.nonce me none expires_at tables) [
      | none ↦ (err db, tables)
      | some t ↦ (
        ok (record { nonce = env.nonce; expires_at = expires_at }),
        audited env me "pairing.nonce_issued" none [] t,
      )
    ]

-- `Iterator::any`
abbrev any_verifies : Crypto → Text → Bytes → List Bytes → Bool
any_verifies c nonce sig [] = false
any_verifies c nonce sig (pk ∷ pks) =
    is_ok (verify_p256_signature c pk nonce sig) || any_verifies c nonce sig pks

unfoldable pub check_signature : Crypto → ℕ → Text → Option Bytes → Db → Result (Unit {0})
check_signature c me nonce none tables = ok tt
check_signature c me nonce (some sig) tables =
    fail_if (not (any_verifies c nonce sig (public_keys_for me tables))) invalid_signature

-- The reads of `finish_claim` and their early returns, which roll back.
unfoldable pub check_claim : Crypto → Env → ℕ → Text → Option Bytes → Db → Result PairingNonce
check_claim c env me nonce signature tables = do
  n ← ok_or (get_nonce nonce tables) not_found
  fail_if (is_some n.used_at) conflict
  fail_if (leb n.expires_at env.now) (bad_request "that code has expired — ask for a new one")
  fail_if (n.initiator_id == me) (bad_request "that is your own code")
  check_signature c me nonce signature tables
  fail_if (leb max_pending_per_user (pending_count_for (begin env me) me tables))
      (too_many_requests "you have a lot of connections waiting — decide on those first")
  ok n

-- What becomes of the writes. After a unique violation Postgres answers COMMIT with a rollback, so
-- the nonce that was burned in the same transaction is whole again.
unfoldable pub conclude_claim : Env → ℕ → ℕ → Bool → Insert → Db → Result ClaimResponse × Db
conclude_claim env me opens_at false outcome tables = (err conflict, tables)
conclude_claim env me opens_at true refused tables = (err db, tables)
conclude_claim env me opens_at true unique_violation tables = (err conflict, tables)
conclude_claim env me opens_at true (inserted t) tables = (
  ok (record { pairing_id = env.uuid; opens_at = opens_at }),
  audited env me "pairing.created" (some (Json.num env.uuid)) (("opens_at", Json.num opens_at) ∷ [])
      t,
)

-- The writes.
unfoldable pub write_claim : Env → ℕ → ℕ → ℕ → Text → PairingNonce → Db → Result ClaimResponse × Db
unfolding conclude_claim
write_claim env me cooling window nonce n tables =
    let (burned, t) = burn_nonce (begin env me) nonce tables in
    let opens_at = env.later + cooling in
    conclude_claim env me opens_at burned
      (insert_pairing (begin env me) env.uuid me n.initiator_id n.event_id opens_at
        (opens_at + window) t)
      tables

unfoldable pub finish_claim :
    Crypto → Env → ℕ → ℕ → ℕ → Text → Option Bytes → Db → Result ClaimResponse × Db
finish_claim c env me cooling window nonce signature tables =
    elim (check_claim c env me nonce signature tables) [
      | err e ↦ (err e, tables)
      | ok n ↦ write_claim env me cooling window nonce n tables
    ]

unfoldable pub claim : Crypto → Env → ℕ → ℕ → ℕ → ClaimRequest → Db → Result ClaimResponse × Db
claim c env me cooling window req tables = elim (b64_decode c req.signature_b64) [
  | err e ↦ (err e, tables)
  | ok sig ↦ finish_claim c env me cooling window req.nonce (some sig) tables
]

unfoldable pub claim_in_person :
    Crypto → Env → ℕ → ℕ → ℕ → ClaimInPersonRequest → Db → Result ClaimResponse × Db
claim_in_person c env me cooling window req tables =
    finish_claim c env me cooling window req.nonce none tables

unfoldable pub list : Env → ℕ → Db → Result (List PairingView)
list env me tables = ok (map (λ r. to_view r me env.now) (list_for_user me tables))

unfoldable pub parse_decision : Text → Option Decision
parse_decision raw =
    if text_eq (trim raw) (codes "yes")
    then some says_yes
    else if text_eq (trim raw) (codes "no")
    then some says_no
    else none

unfoldable pub check_status : Status → Result (Unit {0})
check_status waiting = err (bad_request "not yet — you can decide once the waiting period is over")
check_status lapsed = err (bad_request "this one has expired")
check_status closed = err conflict
check_status deciding = ok tt
check_status opened = ok tt

unfoldable pub check_decide : Env → ℕ → ℕ → DecisionRequest → Db → Result (Decision × PairingRow)
unfolding check_status
check_decide env me id req tables = do
  d ← ok_or (parse_decision req.decision) (bad_request "decision must be 'yes' or 'no'")
  row ← ok_or (get_for_user me id tables) not_found
  check_status (status row env.now)
  ok (d, row)

unfoldable pub write_decide : Env → ℕ → ℕ → Decision → PairingRow → Db → Db
write_decide env me id d row tables =
    open_if_mutual (begin env me) id (set_decision (begin env me) id (is_lower row me) d tables)

-- The reply, from the row as it is read back.
unfoldable pub conclude_decide : Env → ℕ → ℕ → Option PairingRow → Db → Db → Result PairingView × Db
conclude_decide env me id none t tables = (err not_found, tables)
conclude_decide env me id (some updated) t tables =
    (ok (to_view updated me env.later), audited env me "pairing.decided" (some (Json.num id)) [] t)

unfoldable pub decide : Env → ℕ → ℕ → DecisionRequest → Db → Result PairingView × Db
unfolding conclude_decide
decide env me id req tables = elim (check_decide env me id req tables) [
  | err e ↦ (err e, tables)
  | ok (d, row) ↦
      let t = write_decide env me id d row tables in
      conclude_decide env me id (get_for_user me id t) t tables
]

-- Closing nothing is a conflict: it was closed before.
unfoldable pub conclude_block : Env → ℕ → ℕ → Bool → Db → Result (Unit {0}) × Db
conclude_block env me id true t =
    (ok tt, audited env me "pairing.blocked" (some (Json.num id)) [] t)
conclude_block env me id false t = (err conflict, t)

unfoldable pub block : Env → ℕ → ℕ → Db → Result (Unit {0}) × Db
unfolding conclude_block
block env me id tables = elim (get_for_user me id tables) [
  | none ↦ (err not_found, tables)
  | some row ↦
      let (done, t) = Repository.close (begin env me) row.id me tables in
      conclude_block env me id done t
]

unfoldable pub authorized : ℕ → ℕ → Db → Result AuthorizedResponse
authorized me peer tables =
    if me == peer
    then ok (record { authorized = false })
    else ok (record { authorized = is_authorized me peer tables })

unfoldable pub set_display_name : ℕ → SetDisplayNameRequest → Db → Result (Unit {0}) × Db
set_display_name me req tables =
    let name = trim req.display_name in
    if is_empty name
    then (err (bad_request "name required"), tables)
    else if ltb max_display_name_chars (length name)
    then (err (bad_request "name must be 40 characters or fewer"), tables)
    else (ok tt, Repository.set_display_name me name tables)
