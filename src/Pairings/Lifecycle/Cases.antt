-- ===== src/Pairings/Lifecycle/Cases.antt =====
-- The ways in which a request to src/domain/pairings can change the table `pairings`.
use box_fraise_server.Prelude.{
  ℕ, ◌+◌, ◌≡◌, refl, sym, ap, subst, inl, inr, Bool, true, false, not, ◌++◌, [], ◌∷◌, Option, none,
  some, ltb, length, arith, List, Option-cases, Bool-cases, ◌==◌,
}
use box_fraise_server.Table.{exists, update}
use box_fraise_server.Server.{seconds, Env, Bytes, Crypto, b64_decode}
use box_fraise_server.Prelude.Text.{text_eq, is_empty, trim, Text}
use box_fraise_server.Pairings.Inversion.{insert_pairing-inserted}
use box_fraise_server.Pairings.Service.{
  nonce_ttl_secs, max_display_name_chars, begin, issue_nonce, check_claim, conclude_claim,
  write_claim, finish_claim, claim, claim_in_person, check_decide, write_decide, conclude_decide,
  decide, conclude_block, block, set_display_name,
}
use box_fraise_server.Pairings.Repository.{
  is_unused, Conn, Db, Insert, inserted, unique_violation, refused, involves, between, is_own,
  is_mutual, is_closable, decide_row, new_pairing, insert_pairing, burn_nonce, pairing_columns,
  get_for_user, set_decision, open_if_mutual, close, insert_nonce, lower_of, upper_of,
}
use box_fraise_server.Pairings.Types.{
  PairingNonce, Decision, Pairing, PairingRow, is_lower, DecisionRequest, ClaimRequest,
  SetDisplayNameRequest,
}
use box_fraise_server.Errors.{ok, Result-cases}
use box_fraise_server.Pairings.Repository
use box_fraise_server.Pairings.Trace.{
  Request, issuing, listing, claiming, claiming_in_person, authorizing, blocking, decision,
  display_name, Config, serve,
}

abbrev pub closing : Env → ℕ → ℕ → List Pairing → List Pairing
closing env u id =
    update (is_closable (begin env u) id)
      (λ q. record q { closed_at = some env.db_now; closed_by = some u })

abbrev pub deciding_row : Env → ℕ → ℕ → Bool → Decision → List Pairing → List Pairing
deciding_row env u id b d ps =
    update (is_mutual (begin env u) id) (λ q. record q { opened_at = some env.db_now })
      (update (is_own u id) (decide_row b d env.db_now) ps)

own_nonce : (u : ℕ) → not (u == u) ≡ false
own_nonce u = ground arith

abbrev pub burning : Env → Text → List PairingNonce → List PairingNonce
burning env nonce = update (is_unused nonce) (λ n. record n { used_at = some env.db_now })

abbrev pub new_nonce : Env → ℕ → PairingNonce
new_nonce env u = record {
  nonce = env.nonce;
  initiator_id = u;
  event_id = none;
  issued_at = env.db_now;
  expires_at = env.now + seconds nonce_ttl_secs;
  used_at = none;
}

-- A property of the two tables holds after a request, if it holds before, after a nonce is issued,
-- after a close, after an admitted decision, and after a claim that inserts.
module _ {ℓ} (c : Crypto) (cfg : Config) (env : Env) (u : ℕ) (db : Db)
    (P : List PairingNonce → List Pairing → Type ℓ) (kept : P db.pairing_nonces db.pairings)
    (issued : exists (λ n. text_eq n.nonce env.nonce) db.pairing_nonces ≡ false
      → P (db.pairing_nonces ++ new_nonce env u ∷ []) db.pairings)
    (closed : (id : ℕ) → P db.pairing_nonces (closing env u id db.pairings))
    (decided : (id : ℕ) (req : DecisionRequest) (d : Decision) (row : PairingRow)
      → check_decide env u id req db ≡ ok (d, row)
      → P db.pairing_nonces (deciding_row env u id (is_lower row u) d db.pairings))
    (added : (nonce : Text) (b : ℕ) (event_id : Option ℕ) (opens_at expires_at : ℕ) (t : Db)
      → insert_pairing
          (begin env u)
          env.uuid
          u
          b
          event_id
          opens_at
          expires_at
          (burn_nonce (begin env u) nonce db).1
        ≡ inserted t
      → P (burning env nonce db.pairing_nonces) t.pairings) where
  abbrev After : Db → Type ℓ
  After t = P t.pairing_nonces t.pairings

  conclude_block-cases :
      (id : ℕ) (b : Bool) (t : Db) → After t → After (conclude_block env u id b t).1
  unfolding conclude_block
  conclude_block-cases id true t h = h
  conclude_block-cases id false t h = h

  block-cases : (id : ℕ) → After (block env u id db).1
  unfolding block close
  block-cases id = elim (Option-cases (get_for_user u id db)) [
    | inl e ↦ rw (e, block) kept
    | inr (row, e) ↦ rw (e, block) (conclude_block-cases id _ _ (closed row.id))
  ]

  conclude_claim-cases :
      (opens_at : ℕ) (b : Bool) (x : Insert)
      → ((t : Db) → x ≡ inserted t → After t)
      → After (conclude_claim env u opens_at b x db).1
  unfolding conclude_claim
  conclude_claim-cases opens_at true (inserted t) h = h t refl
  conclude_claim-cases opens_at true unique_violation h = kept
  conclude_claim-cases opens_at true refused h = kept
  conclude_claim-cases opens_at false x h = kept

  -- An insertion leaves the nonces as the burn has left them.
  inserted-After :
      (nonce : Text) (b : ℕ) (event_id : Option ℕ) (opens_at expires_at : ℕ) (t : Db)
      → insert_pairing
          (begin env u)
          env.uuid
          u
          b
          event_id
          opens_at
          expires_at
          (burn_nonce (begin env u) nonce db).1
        ≡ inserted t
      → After t
  unfolding burn_nonce
  inserted-After nonce b event_id opens_at expires_at t h =
      let s = (burn_nonce (begin env u) nonce db).1 in
      let made =
        insert_pairing-inserted (begin env u) env.uuid u b event_id opens_at expires_at s t h in
      subst (λ ns. P ns t.pairings) (sym (ap (λ d. d.pairing_nonces) made.0))
        (added nonce b event_id opens_at expires_at t h)

  finish_claim-cases :
      (cooling window : ℕ) (nonce : Text) (sig : Option Bytes)
      → After (finish_claim c env u cooling window nonce sig db).1
  unfolding finish_claim write_claim
  finish_claim-cases cooling window nonce sig =
      elim (Result-cases (check_claim c env u nonce sig db)) [
        | inr (x, e) ↦ rw (e, finish_claim) kept
        | inl (n, e) ↦
            rw (e, finish_claim)
              (let opens_at = env.later + cooling in
                let (burned, s) = burn_nonce (begin env u) nonce db in
                conclude_claim-cases opens_at burned
                  (insert_pairing (begin env u) env.uuid u n.initiator_id n.event_id opens_at
                    (opens_at + window) s)
                  (inserted-After nonce n.initiator_id n.event_id opens_at (opens_at + window)))
      ]

  claim-cases :
      (req : ClaimRequest) → After (claim c env u cfg.pairing_cooling cfg.pairing_window req db).1
  unfolding claim
  claim-cases req = elim (Result-cases (b64_decode c req.signature_b64)) [
    | inr (x, e) ↦ rw (e, claim) kept
    | inl (sig, e) ↦
        rw (e, claim)
          (finish_claim-cases cfg.pairing_cooling cfg.pairing_window req.nonce (some sig))
  ]

  conclude_decide-cases :
      (id : ℕ) (o : Option PairingRow) (t : Db)
      → After t
      → After (conclude_decide env u id o t db).1
  unfolding conclude_decide
  conclude_decide-cases id none t h = kept
  conclude_decide-cases id (some row) t h = h

  decide-cases : (id : ℕ) (req : DecisionRequest) → After (decide env u id req db).1
  unfolding decide write_decide set_decision open_if_mutual
  decide-cases id req = elim (Result-cases (check_decide env u id req db)) [
    | inr (x, e) ↦ rw (e, decide) kept
    | inl ((d, row), e) ↦ rw (e, decide) (conclude_decide-cases id _ _ (decided id req d row e))
  ]

  issue_nonce-cases : After (issue_nonce env u db).1
  unfolding issue_nonce insert_nonce
  issue_nonce-cases =
      elim (Bool-cases (exists (λ n. text_eq n.nonce env.nonce) db.pairing_nonces)) [
        | inl taken ↦ rw (taken, issue_nonce, insert_nonce) kept
        | inr fresh ↦ rw (fresh, own_nonce u, issue_nonce, insert_nonce) (issued fresh)
      ]

  set_display_name-cases : (req : SetDisplayNameRequest) → After (set_display_name u req db).1
  unfolding set_display_name Repository.set_display_name
  set_display_name-cases req = elim (Bool-cases (is_empty (trim req.display_name))) [
    | inl e ↦ rw (e, set_display_name) kept
    | inr e ↦ elim (Bool-cases (ltb max_display_name_chars (length (trim req.display_name)))) [
      | inl k ↦ rw (e, k, set_display_name) kept
      | inr k ↦ rw (e, k, set_display_name) kept
    ]
  ]

  pub serve-cases : (req : Request) → After (serve c cfg env u req db).1
  unfolding serve claim_in_person
  serve-cases issuing = issue_nonce-cases
  serve-cases listing = kept
  serve-cases (claiming req) = claim-cases req
  serve-cases (claiming_in_person req) =
      finish_claim-cases cfg.pairing_cooling cfg.pairing_window req.nonce none
  serve-cases (authorizing peer) = kept
  serve-cases (blocking id) = block-cases id
  serve-cases (decision id req) = decide-cases id req
  serve-cases (display_name req) = set_display_name-cases req
