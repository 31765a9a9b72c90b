-- ===== src/Pairings/Inversion.antt =====
-- What a successful check of a handler of src/domain/pairings/service.rs says of the tables.
use box_fraise_server.Prelude.{
  ℕ, ◌≡◌, ◌≢◌, ◌<◌, ◌⊎◌, true, false, Option, none, some, arith, ◌==◌, ◌||◌, ◌++◌, [], ◌∷◌,
}
use box_fraise_server.Prelude.Text.{Text}
use box_fraise_server.Errors.{ok}
use box_fraise_server.Server.{Env, Bytes, Crypto}
use box_fraise_server.Table.{exists}
use box_fraise_server.Pairings.Types.{
  Decision, PairingNonce, PairingRow, Status, status, opened, deciding, DecisionRequest,
}
use box_fraise_server.Pairings.Repository.{
  Conn, Db, inserted, involves, between, new_pairing, insert_pairing, lower_of, upper_of,
  get_for_user, get_nonce, pending_count_for,
}
use box_fraise_server.Pairings.Service.{
  begin, parse_decision, check_status, check_decide, check_claim, check_signature,
  max_pending_per_user,
}

pub check_status-ok : (s : Status) → check_status s ≡ ok tt → (s ≡ opened) ⊎ (s ≡ deciding)
unfolding check_status
check_status-ok s h = ground arith

pub check_decide-ok :
    (env : Env) (u id : ℕ) (req : DecisionRequest) (db : Db) {d : Decision} {row : PairingRow}
    → check_decide env u id req db ≡ ok (d, row)
    → (parse_decision req.decision ≡ some d)
      × (get_for_user u id db ≡ some row)
      × (check_status (status row env.now) ≡ ok tt)
unfolding check_decide
check_decide-ok env u id req db h = ground arith

pub check_claim-ok :
    (c : Crypto) (env : Env) (u : ℕ) (nonce : Text) (sig : Option Bytes) (db : Db)
    {n : PairingNonce}
    → check_claim c env u nonce sig db ≡ ok n
    → (get_nonce nonce db ≡ some n)
      × (n.used_at ≡ none)
      × (env.now < n.expires_at)
      × (n.initiator_id ≢ u)
      × (check_signature c u nonce sig db ≡ ok tt)
      × (pending_count_for (begin env u) u db < max_pending_per_user)
unfolding check_claim
check_claim-ok c env u nonce sig db h = ground arith

pub insert_pairing-inserted :
    (conn : Conn) (id a b : ℕ) (event_id : Option ℕ) (opens_at expires_at : ℕ) (db t : Db)
    → insert_pairing conn id a b event_id opens_at expires_at db ≡ inserted t
    → let p = new_pairing conn id (lower_of a b) (upper_of a b) event_id opens_at expires_at in
      (t ≡ record db { pairings = db.pairings ++ p ∷ [] })
      × (involves conn.user p ≡ true)
      × (lower_of a b < upper_of a b)
      × (opens_at < expires_at)
      × (exists (λ q. q.id == id || between (lower_of a b) (upper_of a b) q) db.pairings ≡ false)
unfolding insert_pairing
insert_pairing-inserted conn id a b event_id opens_at expires_at db t h = ground arith
