-- ===== src/Pairings/Claims/Paired.antt =====
-- Claims between people who have a pairing: the unique index of `pairings`.
use box_fraise_server.Prelude.{
  ℕ, ◌+◌, ◌≡◌, ◌≢◌, ◌<◌, refl, Bool, true, false, not, ◌&&◌, ◌||◌, Option, arith, List, [], ◌∷◌,
  ltb, ◌==◌,
}
use box_fraise_server.Prelude.Text.{Text}
use box_fraise_server.Errors.{ok, err, conflict}
use box_fraise_server.Server.{Env, Bytes, Crypto}
use box_fraise_server.Table.{exists}
use box_fraise_server.Pairings.Types.{Pairing, PairingNonce}
use box_fraise_server.Pairings.Repository.{
  Conn, Db, unique_violation, insert_pairing, new_pairing, burn_nonce, between, involves, lower_of,
  upper_of,
}
use box_fraise_server.Pairings.Service.{
  begin, check_claim, conclude_claim, write_claim, finish_claim,
}
use box_fraise_server.Pairings.Inversion.{check_claim-ok}

or-exists :
    (id lower upper : ℕ) (ps : List Pairing)
    → exists (between lower upper) ps ≡ true
    → exists (λ q. q.id == id || between lower upper q) ps ≡ true
unfolding exists
or-exists id lower upper [] h = cc
or-exists id lower upper (p ∷ ps) h = ground (arith, or-exists id lower upper ps)

insert_pairing-violation :
    (conn : Conn) (id b : ℕ) (event_id : Option ℕ) (opens_at window : ℕ) (db : Db)
    → b ≢ conn.user
    → 0 < window
    → exists (between (lower_of conn.user b) (upper_of conn.user b)) db.pairings ≡ true
    → insert_pairing conn id conn.user b event_id opens_at (opens_at + window) db ≡ unique_violation
unfolding insert_pairing new_pairing
insert_pairing-violation conn id b event_id opens_at window db apart later paired =
    let taken = or-exists id (lower_of conn.user b) (upper_of conn.user b) db.pairings paired in
    rw (taken, admitted)
  where
    admitted :
        not (
          involves conn.user (
            new_pairing conn id
              (lower_of conn.user b)
              (upper_of conn.user b)
              event_id
              opens_at
              (opens_at + window))
          && ltb (lower_of conn.user b) (upper_of conn.user b)
          && ltb opens_at (opens_at + window))
        ≡ false
    admitted = ground arith

conclude_claim-violation :
    (env : Env) (u opens_at : ℕ) (b : Bool) (db : Db)
    → conclude_claim env u opens_at b unique_violation db ≡ (err conflict, db)
unfolding conclude_claim
conclude_claim-violation env u opens_at true db = refl
conclude_claim-violation env u opens_at false db = refl

-- Where the window is not empty, a claim that passes every check but is made by somebody who is
-- paired with the issuer already, whatever became of that pairing, is a conflict that changes
-- nothing: the nonce is not even spent.
pub claim-paired :
    (c : Crypto) (env : Env) (u cooling window : ℕ) (nonce : Text) (sig : Option Bytes) (db : Db)
    {n : PairingNonce}
    → check_claim c env u nonce sig db ≡ ok n
    → 0 < window
    → exists (between (lower_of u n.initiator_id) (upper_of u n.initiator_id)) db.pairings ≡ true
    → finish_claim c env u cooling window nonce sig db ≡ (err conflict, db)
unfolding finish_claim write_claim burn_nonce
claim-paired c env u cooling window nonce sig db {n} e later paired =
    let (_, _, _, apart, _, _) = check_claim-ok c env u nonce sig db e in
    let (burned, t) = burn_nonce (begin env u) nonce db in
    rw (e, finish_claim)
      (rw
        (insert_pairing-violation (begin env u) env.uuid n.initiator_id n.event_id
          (env.later + cooling) window t apart later paired)
        (conclude_claim-violation env u (env.later + cooling) burned db))
