-- ===== src/Pairings/Privacy/Handlers.antt =====
-- Each handler of src/domain/pairings/service.rs over masked tables.
use box_fraise_server.Prelude.{
  ℕ, ◌+◌, ◌≡◌, refl, sym, ap, ◌∙◌, Bool, true, false, Option, none, some, arith, inl, inr,
  Option-cases,
}
use box_fraise_server.Prelude.Text.{Text}
use mathlib.Core.Option
use box_fraise_server.Table.Laws.{map_idem}
use box_fraise_server.Errors.{Result, ok, err, Result-cases}
use box_fraise_server.Server.{Env, Bytes, Crypto, b64_decode}
use box_fraise_server.Pairings.Types.{
  Decision, PairingNonce, PairingRow, is_lower, to_view, ClaimRequest, DecisionRequest,
}
use box_fraise_server.Pairings.Repository.{
  Db, Insert, inserted, unique_violation, refused, get_for_user, set_decision, open_if_mutual,
  burn_nonce, close, get_nonce, insert_nonce, public_keys_for,
}
use box_fraise_server.Pairings.Service.{
  begin, issue_nonce, check_signature, check_claim, conclude_claim, write_claim, finish_claim,
  claim, check_decide, write_decide, conclude_decide, decide, conclude_block, block,
}
use box_fraise_server.Pairings.Privacy.Mask.{
  mask, mask_idem, mask_row-id, mask_db, mask_db_idem, mask_row, status-mask_row, is_lower-mask_row,
  to_view-mask_row,
}
use box_fraise_server.Pairings.Privacy.Reads.{get_for_user-mask, pending_count_for-mask}
use box_fraise_server.Pairings.Privacy.Writes.{
  mask_insert, insert_pairing-mask, set_decision-mask, open_if_mutual-mask, close-mask,
  close-mask_done,
}

module _ (me : ℕ) where
  pub issue_nonce-mask :
      (env : Env) (u : ℕ) (db : Db)
      → (mask_db me (issue_nonce env u (mask_db me db)).1 ≡ mask_db me (issue_nonce env u db).1)
        × ((issue_nonce env u (mask_db me db)).0 ≡ (issue_nonce env u db).0)
  unfolding issue_nonce insert_nonce
  issue_nonce-mask env u db = ground (arith, map_idem (mask me) (mask_idem me) db.pairings)

  check_claim-mask :
      (c : Crypto) (env : Env) (u : ℕ) (nonce : Text) (sig : Option Bytes) (db : Db)
      → check_claim c env u nonce sig (mask_db me db) ≡ check_claim c env u nonce sig db
  unfolding check_claim get_nonce check_signature public_keys_for
  check_claim-mask c env u nonce none db = rw (pending_count_for-mask me (begin env u) u db)
  check_claim-mask c env u nonce (some s) db = rw (pending_count_for-mask me (begin env u) u db)

  conclude_claim-mask :
      (env : Env) (u opens_at : ℕ) (b : Bool) (x y : Insert) (db : Db)
      → mask_insert me x ≡ mask_insert me y
      → (mask_db me (conclude_claim env u opens_at b x (mask_db me db)).1
          ≡ mask_db me (conclude_claim env u opens_at b y db).1)
        × ((conclude_claim env u opens_at b x (mask_db me db)).0
            ≡ (conclude_claim env u opens_at b y db).0)
  unfolding conclude_claim
  conclude_claim-mask env u opens_at false x y db e = (mask_db_idem me db, refl)
  conclude_claim-mask env u opens_at true refused refused db e = (mask_db_idem me db, refl)
  conclude_claim-mask env u opens_at true unique_violation unique_violation db e =
      (mask_db_idem me db, refl)
  conclude_claim-mask env u opens_at true (inserted s) (inserted t) db e = ground arith
  conclude_claim-mask env u opens_at true _ _ db e = cc

  write_claim-mask :
      (env : Env) (u cooling window : ℕ) (nonce : Text) (n : PairingNonce) (db : Db)
      → (mask_db me (write_claim env u cooling window nonce n (mask_db me db)).1
          ≡ mask_db me (write_claim env u cooling window nonce n db).1)
        × ((write_claim env u cooling window nonce n (mask_db me db)).0
            ≡ (write_claim env u cooling window nonce n db).0)
  unfolding write_claim burn_nonce
  write_claim-mask env u cooling window nonce n db =
      conclude_claim-mask env u (env.later + cooling) _ _ _ db (
        insert_pairing-mask me (begin env u) env.uuid u n.initiator_id n.event_id _ _
          (burn_nonce (begin env u) nonce db).1)

  pub finish_claim-mask :
      (c : Crypto) (env : Env) (u cooling window : ℕ) (nonce : Text) (sig : Option Bytes) (db : Db)
      → (mask_db me (finish_claim c env u cooling window nonce sig (mask_db me db)).1
          ≡ mask_db me (finish_claim c env u cooling window nonce sig db).1)
        × ((finish_claim c env u cooling window nonce sig (mask_db me db)).0
            ≡ (finish_claim c env u cooling window nonce sig db).0)
  unfolding finish_claim
  finish_claim-mask c env u cooling window nonce sig db =
      rw (check_claim-mask c env u nonce sig db, finish_claim)
        (elim (Result-cases (check_claim c env u nonce sig db)) [
          | inl (n, e) ↦ rw (e, finish_claim) (write_claim-mask env u cooling window nonce n db)
          | inr (x, e) ↦ rw (e, finish_claim) (mask_db_idem me db, refl)
        ])

  pub claim-mask :
      (c : Crypto) (env : Env) (u cooling window : ℕ) (req : ClaimRequest) (db : Db)
      → (mask_db me (claim c env u cooling window req (mask_db me db)).1
          ≡ mask_db me (claim c env u cooling window req db).1)
        × ((claim c env u cooling window req (mask_db me db)).0
            ≡ (claim c env u cooling window req db).0)
  unfolding claim
  claim-mask c env u cooling window req db = elim (Result-cases (b64_decode c req.signature_b64)) [
    | inl (sig, e) ↦
        rw (e, claim) (finish_claim-mask c env u cooling window req.nonce (some sig) db)
    | inr (x, e) ↦ rw (e, claim) (mask_db_idem me db, refl)
  ]

  abbrev mask_pair : Result (Decision × PairingRow) → Result (Decision × PairingRow)
  mask_pair (ok (d, row)) = ok (d, mask_row me row)
  mask_pair (err e) = err e

  check_decide-mask :
      (env : Env) (u id : ℕ) (req : DecisionRequest) (db : Db)
      → check_decide env u id req (mask_db me db) ≡ mask_pair (check_decide env u id req db)
  unfolding check_decide
  check_decide-mask env u id req db =
      rw (get_for_user-mask me u id db) (elim (Option-cases (get_for_user u id db)) [
        | inl e ↦ rw e (ground arith)
        | inr (row, e) ↦ rw e (ground (arith, status-mask_row me row env.now))
      ])

  write_decide-mask :
      (env : Env) (u id : ℕ) (d : Decision) (row : PairingRow) (db : Db)
      → mask_db me (write_decide env u id d (mask_row me row) (mask_db me db))
        ≡ mask_db me (write_decide env u id d row db)
  unfolding write_decide
  write_decide-mask env u id d row db =
      let b = is_lower row u in
      let conn = begin env u in
      rw (is_lower-mask_row me row u) (
        sym (open_if_mutual-mask me conn id (set_decision conn id b d (mask_db me db)))
        ∙ ap (λ t. mask_db me (open_if_mutual conn id t)) (set_decision-mask me conn id b d db)
        ∙ open_if_mutual-mask me conn id (set_decision conn id b d db))

  view_of-mask_row :
      (x y : PairingRow) (now : ℕ)
      → mask_row me x ≡ mask_row me y
      → to_view x me now ≡ to_view y me now
  view_of-mask_row x y now e =
      sym (to_view-mask_row me x now) ∙ ap (λ r. to_view r me now) e ∙ to_view-mask_row me y now

  abbrev pub Alike : {A : Type 0} → ℕ → Result A × Db → Result A × Db → Type 0
  Alike u x y = (mask_db me x.1 ≡ mask_db me y.1) × (u ≡ me → x.0 ≡ y.0)

  conclude_decide-mask :
      (env : Env) (u id : ℕ) (x y : Option PairingRow) (s t db : Db)
      → Option.map (mask_row me) x ≡ Option.map (mask_row me) y
      → mask_db me s ≡ mask_db me t
      → Alike u (conclude_decide env u id x s (mask_db me db)) (conclude_decide env u id y t db)
  unfolding conclude_decide
  conclude_decide-mask env u id none none s t db e h = (mask_db_idem me db, λ _. refl)
  conclude_decide-mask env u id (some x) (some y) s t db e h = (
    ground arith,
    λ mine. rw mine (ap ok (view_of-mask_row x y env.later (Option.some-injective _ _ e))),
  )
  conclude_decide-mask env u id none (some y) s t db e h = cc
  conclude_decide-mask env u id (some x) none s t db e h = cc

  pub decide-mask :
      (env : Env) (u id : ℕ) (req : DecisionRequest) (db : Db)
      → Alike u (decide env u id req (mask_db me db)) (decide env u id req db)
  unfolding decide
  decide-mask env u id req db =
      rw (check_decide-mask env u id req db, decide)
        (elim (Result-cases (check_decide env u id req db)) [
          | inl (w, e) ↦ rw (e, decide) (after w.0 w.1)
          | inr (x, e) ↦ rw (e, decide) (mask_db_idem me db, λ _. refl)
        ])
    where
      after :
          (d : Decision) (row : PairingRow)
          → let s = write_decide env u id d (mask_row me row) (mask_db me db) in
            let t = write_decide env u id d row db in
            Alike u
              (conclude_decide env u id (get_for_user u id s) s (mask_db me db))
              (conclude_decide env u id (get_for_user u id t) t db)
      after d row =
          let s = write_decide env u id d (mask_row me row) (mask_db me db) in
          let t = write_decide env u id d row db in
          let h = write_decide-mask env u id d row db in
          conclude_decide-mask env u id (get_for_user u id s) (get_for_user u id t) s t db
            (sym (get_for_user-mask me u id s)
              ∙ ap (get_for_user u id) h
              ∙ get_for_user-mask me u id t)
            h

  conclude_block-mask :
      (env : Env) (u id : ℕ) (b : Bool) (s t : Db)
      → mask_db me s ≡ mask_db me t
      → (mask_db me (conclude_block env u id b s).1 ≡ mask_db me (conclude_block env u id b t).1)
        × ((conclude_block env u id b s).0 ≡ (conclude_block env u id b t).0)
  unfolding conclude_block
  conclude_block-mask env u id true s t h = ground arith
  conclude_block-mask env u id false s t h = (h, refl)

  pub block-mask :
      (env : Env) (u id : ℕ) (db : Db)
      → (mask_db me (block env u id (mask_db me db)).1 ≡ mask_db me (block env u id db).1)
        × ((block env u id (mask_db me db)).0 ≡ (block env u id db).0)
  unfolding block
  block-mask env u id db =
      rw (get_for_user-mask me u id db, block)
        (elim (Option-cases (get_for_user u id db)) [
          | inl e ↦ rw (e, block) (mask_db_idem me db, refl)
          | inr (row, e) ↦ rw (e, block) (closing row)
        ])
    where
      closing :
          (row : PairingRow)
          → let (b, s) = close (begin env u) (mask_row me row).id u (mask_db me db) in
            let (b', t) = close (begin env u) row.id u db in
            (mask_db me (conclude_block env u id b s).1
              ≡ mask_db me (conclude_block env u id b' t).1)
            × ((conclude_block env u id b s).0 ≡ (conclude_block env u id b' t).0)
      closing row =
          rw (mask_row-id me row, close-mask_done me (begin env u) row.id u db)
            (conclude_block-mask env u id (close (begin env u) row.id u db).0 _ _
              (close-mask me (begin env u) row.id u db))
