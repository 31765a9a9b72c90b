-- ===== src/Pairings/Claims.antt =====
-- Claiming a nonce: `finish_claim`, which the two handlers `claim` and `claim_in_person` share.
pub mod Replay
pub mod Paired
use mathlib.Core.Option
use box_fraise_server.Prelude.{
  ℕ, ◌+◌, ◌≡◌, ◌≢◌, ◌<◌, refl, sym, ap, subst, ◌∙◌, ◌⊎◌, inl, inr, Bool, true, false, ◌||◌, Option,
  none, some, arith, List, [], ◌∷◌, ◌++◌, is_some, ◌==◌, Bool-cases,
}
use box_fraise_server.Prelude.Text.{Text, text_eq}
use box_fraise_server.Errors.{Result, ok, err, conflict, AppError, Result-cases}
use box_fraise_server.Server.{Env, Bytes, Crypto}
use box_fraise_server.Table.{find, exists, update}
use box_fraise_server.Table.Laws.{changed}
use box_fraise_server.Table.Search.{find-update, find-append}
use box_fraise_server.Pairings.Types.{Pairing, PairingNonce, ClaimResponse}
use box_fraise_server.Pairings.Repository.{
  Db, Insert, inserted, unique_violation, refused, get_nonce, burn_nonce, is_unused, insert_pairing,
  new_pairing, lower_of, upper_of, between, pending_count_for,
}
use box_fraise_server.Pairings.Service.{
  begin, check_signature, check_claim, conclude_claim, write_claim, finish_claim,
  max_pending_per_user,
}
use box_fraise_server.Pairings.Trace.{Request, Config, serve, run}
use box_fraise_server.Pairings.Inversion.{check_claim-ok, insert_pairing-inserted}
use box_fraise_server.Pairings.Lifecycle.Cases.{serve-cases, burning, new_nonce}

-- What a claim that succeeds has found and made.
pub record IsClaim (c : Crypto) (env : Env) (u cooling window : ℕ) (nonce : Text)
    (sig : Option Bytes) (db t : Db) (n : PairingNonce) (r : ClaimResponse) : Type 0 where
  -- somebody else's nonce, issued, unused, and still valid, with a signature that verifies
  pub issued : get_nonce nonce db ≡ some n
  pub unused : n.used_at ≡ none
  pub valid : env.now < n.expires_at
  pub foreign : n.initiator_id ≢ u
  pub signed : check_signature c u nonce sig db ≡ ok tt
  pub room : pending_count_for (begin env u) u db < max_pending_per_user
  -- the two had no pairing
  pub strangers :
      exists (between (lower_of u n.initiator_id) (upper_of u n.initiator_id)) db.pairings ≡ false
  -- the reply and the tables
  pub reply : r ≡ record { pairing_id = env.uuid; opens_at = env.later + cooling }
  pub nonces : t.pairing_nonces ≡ burning env nonce db.pairing_nonces
  pub pairings :
      t.pairings
      ≡ db.pairings
        ++ new_pairing
            (begin env u)
            env.uuid
            (lower_of u n.initiator_id)
            (upper_of u n.initiator_id)
            n.event_id
            (env.later + cooling)
            (env.later + cooling + window)
          ∷ []

module _ (c : Crypto) (env : Env) (u cooling window : ℕ) (nonce : Text) (sig : Option Bytes)
    (db : Db) where
  exists-or :
      (id lower upper : ℕ) (ps : List Pairing)
      → exists (λ q. q.id == id || between lower upper q) ps ≡ false
      → exists (between lower upper) ps ≡ false
  unfolding exists
  exists-or id lower upper [] h = refl
  exists-or id lower upper (p ∷ ps) h = ground (arith, exists-or id lower upper ps)

  conclude_claim-ok :
      (opens_at : ℕ) (b : Bool) (x : Insert) {r : ClaimResponse}
      → (conclude_claim env u opens_at b x db).0 ≡ ok r
      → (t : Db) × (x ≡ inserted t)
        × (r ≡ record { pairing_id = env.uuid; opens_at = opens_at })
        × ((conclude_claim env u opens_at b x db).1.pairings ≡ t.pairings)
        × ((conclude_claim env u opens_at b x db).1.pairing_nonces ≡ t.pairing_nonces)
  unfolding conclude_claim
  conclude_claim-ok opens_at true (inserted t) h = (t, refl, ground arith, refl, refl)
  conclude_claim-ok opens_at true unique_violation h = cc
  conclude_claim-ok opens_at true refused h = cc
  conclude_claim-ok opens_at false x h = cc

  write_claim-ok :
      (n : PairingNonce) {r : ClaimResponse}
      → check_claim c env u nonce sig db ≡ ok n
      → (write_claim env u cooling window nonce n db).0 ≡ ok r
      → IsClaim c env u cooling window nonce sig db
          (write_claim env u cooling window nonce n db).1
          n
          r
  unfolding write_claim burn_nonce
  write_claim-ok n e h =
      let opens_at = env.later + cooling in
      let (burned, s) = burn_nonce (begin env u) nonce db in
      let (t, made, reply, ps, ns) =
        conclude_claim-ok opens_at burned
          (insert_pairing (begin env u) env.uuid u n.initiator_id n.event_id opens_at
            (opens_at + window) s)
          h in
      let (got, unused, valid, foreign, signed, room) = check_claim-ok c env u nonce sig db e in
      let (same, _, _, _, free) =
        insert_pairing-inserted (begin env u) env.uuid u n.initiator_id n.event_id opens_at
          (opens_at + window) s t made in
      record {
        issued = got;
        unused = unused;
        valid = valid;
        foreign = foreign;
        signed = signed;
        room = room;
        strangers =
            exists-or env.uuid (lower_of u n.initiator_id) (upper_of u n.initiator_id) db.pairings
              free;
        reply = reply;
        nonces = ns ∙ ap (λ d. d.pairing_nonces) same;
        pairings = ps ∙ ap (λ d. d.pairings) same;
      }

  -- A claim succeeds only on a nonce of somebody else that was issued, is unused and has not
  -- expired, with a signature of one of the claimer's keys where one is given, by a claimer with
  -- fewer than 25 undecided pairings who has no pairing with the issuer; it then marks the nonce
  -- as used and adds the one pairing of the two, to open after the cooling period, and returns
  -- it.
  pub finish_claim-ok :
      {r : ClaimResponse}
      → (finish_claim c env u cooling window nonce sig db).0 ≡ ok r
      → (n : PairingNonce) × IsClaim c env u cooling window nonce sig db
          (finish_claim c env u cooling window nonce sig db).1
          n
          r
  unfolding finish_claim
  finish_claim-ok h = elim (Result-cases (check_claim c env u nonce sig db)) [
    | inr (x, e) ↦ cc (rw (e, finish_claim) at h)
    | inl (n, e) ↦ rw (e, finish_claim) (n, write_claim-ok n e (rw (e, finish_claim) at h))
  ]
