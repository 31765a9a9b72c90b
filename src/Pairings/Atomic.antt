-- ===== src/Pairings/Atomic.antt =====
-- The tables after a request to src/domain/pairings that fails.
use box_fraise_server.Prelude.{
  ℕ, ◌≡◌, refl, ap, inl, inr, Bool, true, false, Option, none, some, arith, Option-cases,
}
use box_fraise_server.Prelude.Text.{Text}
use box_fraise_server.Errors.{Result, ok, err, Result-cases}
use box_fraise_server.Server.{Env, Bytes, Crypto, b64_decode}
use box_fraise_server.Table.Search.{update-none}
use box_fraise_server.Pairings.Types.{
  PairingRow, ClaimRequest, DecisionRequest, SetDisplayNameRequest,
}
use box_fraise_server.Pairings.Repository.{
  Db, Insert, inserted, unique_violation, refused, is_closable, get_for_user, close, insert_nonce,
}
use box_fraise_server.Pairings.Service.{
  begin, issue_nonce, check_claim, conclude_claim, write_claim, finish_claim, claim,
  claim_in_person, check_decide, conclude_decide, decide, conclude_block, block, set_display_name,
}
use box_fraise_server.Pairings.Trace.{
  Request, issuing, listing, claiming, claiming_in_person, authorizing, blocking, decision,
  display_name, Reply, nonce_reply, list_reply, claim_reply, authorized_reply, view_reply,
  empty_reply, Config, serve,
}

abbrev pub failed {ℓ} : {A : Type ℓ} → Result A → Bool
failed (ok a) = false
failed (err e) = true

-- An HTTP status of 400 or more.
abbrev pub is_error : Reply → Bool
is_error (nonce_reply r) = failed r
is_error (list_reply r) = failed r
is_error (claim_reply r) = failed r
is_error (authorized_reply r) = failed r
is_error (view_reply r) = failed r
is_error (empty_reply r) = failed r

module _ (c : Crypto) (cfg : Config) (env : Env) (u : ℕ) (db : Db) where
  -- The handler returned this, and it left the tables alone if it failed.
  abbrev IsAtomic {ℓ} : {A : Type ℓ} → Result A × Db → Type 0
  IsAtomic (r, t) = failed r ≡ true → t ≡ db

  conclude_claim-IsAtomic :
      (opens_at : ℕ) (b : Bool) (x : Insert) → IsAtomic (conclude_claim env u opens_at b x db)
  unfolding conclude_claim
  conclude_claim-IsAtomic opens_at true (inserted t) h = cc
  conclude_claim-IsAtomic opens_at true unique_violation h = refl
  conclude_claim-IsAtomic opens_at true refused h = refl
  conclude_claim-IsAtomic opens_at false x h = refl

  finish_claim-IsAtomic :
      (cooling window : ℕ) (nonce : Text) (sig : Option Bytes)
      → IsAtomic (finish_claim c env u cooling window nonce sig db)
  unfolding finish_claim write_claim
  finish_claim-IsAtomic cooling window nonce sig =
      elim (Result-cases (check_claim c env u nonce sig db)) [
        | inr (x, e) ↦ rw (e, finish_claim) (λ _. refl)
        | inl (n, e) ↦ rw (e, finish_claim) (conclude_claim-IsAtomic _ _ _)
      ]

  claim-IsAtomic :
      (req : ClaimRequest) → IsAtomic (claim c env u cfg.pairing_cooling cfg.pairing_window req db)
  unfolding claim
  claim-IsAtomic req = elim (Result-cases (b64_decode c req.signature_b64)) [
    | inr (x, e) ↦ rw (e, claim) (λ _. refl)
    | inl (sig, e) ↦
        rw (e, claim)
          (finish_claim-IsAtomic cfg.pairing_cooling cfg.pairing_window req.nonce (some sig))
  ]

  conclude_decide-IsAtomic :
      (id : ℕ) (o : Option PairingRow) (t : Db) → IsAtomic (conclude_decide env u id o t db)
  unfolding conclude_decide
  conclude_decide-IsAtomic id none t h = refl
  conclude_decide-IsAtomic id (some row) t h = cc

  decide-IsAtomic : (id : ℕ) (req : DecisionRequest) → IsAtomic (decide env u id req db)
  unfolding decide
  decide-IsAtomic id req = elim (Result-cases (check_decide env u id req db)) [
    | inr (x, e) ↦ rw (e, decide) (λ _. refl)
    | inl ((d, row), e) ↦ rw (e, decide) (conclude_decide-IsAtomic id _ _)
  ]

  -- A failed block has closed nothing.
  conclude_block-IsAtomic :
      (id : ℕ) (b : Bool) (t : Db) → (b ≡ false → t ≡ db) → IsAtomic (conclude_block env u id b t)
  unfolding conclude_block
  conclude_block-IsAtomic id true t k h = cc
  conclude_block-IsAtomic id false t k h = k refl

  block-IsAtomic : (id : ℕ) → IsAtomic (block env u id db)
  unfolding block close
  block-IsAtomic id = elim (Option-cases (get_for_user u id db)) [
    | inl e ↦ rw (e, block) (λ _. refl)
    | inr (row, e) ↦
        rw (e, block)
          (conclude_block-IsAtomic id _ _ (λ none_open.
            ap (λ ps. record db { pairings = ps })
              (update-none (is_closable (begin env u) row.id)
                (λ p. record p { closed_at = some env.db_now; closed_by = some u }) db.pairings
                none_open)))
  ]

  issue_nonce-IsAtomic : IsAtomic (issue_nonce env u db)
  unfolding issue_nonce insert_nonce
  issue_nonce-IsAtomic = ground arith

  set_display_name-IsAtomic : (req : SetDisplayNameRequest) → IsAtomic (set_display_name u req db)
  unfolding set_display_name
  set_display_name-IsAtomic req = ground arith

  -- A request that is answered with an error leaves every table as it was, the audit trail
  -- included.
  pub serve-atomic :
      (req : Request)
      → is_error (serve c cfg env u req db).0 ≡ true
      → (serve c cfg env u req db).1 ≡ db
  unfolding serve claim_in_person
  serve-atomic issuing = issue_nonce-IsAtomic
  serve-atomic listing = λ _. refl
  serve-atomic (claiming req) = claim-IsAtomic req
  serve-atomic (claiming_in_person req) =
      finish_claim-IsAtomic cfg.pairing_cooling cfg.pairing_window req.nonce none
  serve-atomic (authorizing peer) = λ _. refl
  serve-atomic (blocking id) = block-IsAtomic id
  serve-atomic (decision id req) = decide-IsAtomic id req
  serve-atomic (display_name req) = set_display_name-IsAtomic req
