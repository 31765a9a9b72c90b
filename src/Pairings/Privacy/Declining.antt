-- ===== src/Pairings/Privacy/Declining.antt =====
-- Saying no: the handler `decide` on a "no", seen from the other side.
use mathlib.Core.Option
use box_fraise_server.Prelude.{
  ℕ, ◌≡◌, ◌≢◌, refl, sym, ◌∙◌, false, Option, none, some, List, [], ◌∷◌, arith, inl, inr, All,
  Bool-cases, Option-cases, ltb, ◌==◌, ==_iff, if◌then◌else◌,
}
use box_fraise_server.Errors.{Result-cases}
use box_fraise_server.Server.{Env, Crypto}
use box_fraise_server.Table.{find}
use box_fraise_server.Table.Laws.{changed, update-update_hidden, All-find}
use box_fraise_server.Pairings.Types.{
  Decision, says_no, Pairing, PairingRow, is_lower, DecisionRequest,
}
use box_fraise_server.Pairings.Repository.{
  Db, is_own, is_mutual, is_yes, decide_row, lower_of, upper_of, pairing_columns, get_for_user,
  set_decision, open_if_mutual,
}
use box_fraise_server.Pairings.Service.{
  begin, parse_decision, check_decide, write_decide, conclude_decide, decide,
}
use box_fraise_server.Pairings.Trace.{Config, Request, observe}
use box_fraise_server.Pairings.Inversion.{check_decide-ok}
use box_fraise_server.Pairings.Privacy.Mask.{mask, mask_db}
use box_fraise_server.Pairings.Privacy.SilentDecline.{observe-alike}

-- What `u` has answered in a pairing of theirs.
abbrev pub answer : ℕ → Pairing → Option Decision
answer u p = if p.lower_user_id == u then p.lower_decision else p.upper_decision

-- If the row has the id, it is a pairing of `me` and `peer`, and `peer` has not said yes.
abbrev pub IsUnanswered : ℕ → ℕ → ℕ → Pairing → Type 0
IsUnanswered me peer id p =
    p.id ≡ id
    → (p.lower_user_id ≡ lower_of me peer)
      × (p.upper_user_id ≡ upper_of me peer)
      × (is_yes (answer peer p) ≡ false)

module _ (me peer id : ℕ) (apart : me ≢ peer) where
  -- The row after the two updates of `write_decide`.
  decline_row-mask :
      (env : Env) (p : Pairing)
      → IsUnanswered me peer id p
      → let conn = begin env peer in
        mask me (
          changed
            (is_mutual conn id)
            (λ q. record q { opened_at = some conn.now })
            (changed (is_own peer id) (decide_row (ltb peer me) says_no conn.now) p))
        ≡ mask me p
  unfolding is_mutual decide_row
  decline_row-mask env p h = elim (Bool-cases (p.id == id)) [
    | inl e ↦ declined (h ((==_iff p.id id).0 e))
    | inr e ↦ rw e (ground arith)
  ]
    where
      declined :
          (p.lower_user_id ≡ lower_of me peer)
            × (p.upper_user_id ≡ upper_of me peer)
            × (is_yes (answer peer p) ≡ false)
          → mask me (
              changed
                (is_mutual (begin env peer) id)
                (λ q. record q { opened_at = some env.db_now })
                (changed (is_own peer id) (decide_row (ltb peer me) says_no env.db_now) p))
            ≡ mask me p
      declined k = ground arith

  decline_rows :
      (env : Env) (rs : List Pairing)
      → All (IsUnanswered me peer id) rs
      → All
          (λ p.
            mask me (
              changed
                (is_mutual (begin env peer) id)
                (λ q. record q { opened_at = some env.db_now })
                (changed (is_own peer id) (decide_row (ltb peer me) says_no env.db_now) p))
            ≡ mask me p)
          rs
  decline_rows env [] a = tt
  decline_rows env (p ∷ rs) a = (decline_row-mask env p a.0, decline_rows env rs a.1)

  write_decline-mask :
      (env : Env) (db : Db)
      → All (IsUnanswered me peer id) db.pairings
      → mask_db me (
          open_if_mutual
            (begin env peer)
            id
            (set_decision (begin env peer) id (ltb peer me) says_no db))
        ≡ mask_db me db
  unfolding open_if_mutual set_decision
  write_decline-mask env db a = λ i. record db {
    pairings =
        update-update_hidden (mask me) (is_own peer id) (is_mutual (begin env peer) id)
          (decide_row (ltb peer me) says_no env.db_now)
          (λ q. record q { opened_at = some env.db_now }) db.pairings
          (decline_rows env db.pairings a) i;
    audit_events = [];
  }

  -- The row that the handler reads tells it on which side `peer` is.
  side_of :
      (db : Db) (row : PairingRow)
      → All (IsUnanswered me peer id) db.pairings
      → get_for_user peer id db ≡ some row
      → is_lower row peer ≡ ltb peer me
  unfolding get_for_user is_lower pairing_columns
  side_of db row a e = elim (Option-cases (find (is_own peer id) db.pairings)) [
    | inl missing ↦ cc (rw missing at e)
    | inr (p, found) ↦
        let (h, own) = All-find (IsUnanswered me peer id) (is_own peer id) db.pairings a found in
        side p (h (ground arith)) (Option.some-injective _ _ (rw found at e))
  ]
    where
      side :
          (p : Pairing)
          → (p.lower_user_id ≡ lower_of me peer)
            × (p.upper_user_id ≡ upper_of me peer)
            × (is_yes (answer peer p) ≡ false)
          → pairing_columns peer db p ≡ row
          → (row.lower_user_id == peer) ≡ ltb peer me
      side p k same = rw (← same) (ground arith)

  conclude_decide-hidden :
      (env : Env) (o : Option PairingRow) (t db : Db)
      → mask_db me t ≡ mask_db me db
      → mask_db me (conclude_decide env peer id o t db).1 ≡ mask_db me db
  unfolding conclude_decide
  conclude_decide-hidden env none t db h = refl
  conclude_decide-hidden env (some row) t db h = h

  decide_no-mask :
      (env : Env) (req : DecisionRequest) (db : Db)
      → parse_decision req.decision ≡ some says_no
      → All (IsUnanswered me peer id) db.pairings
      → mask_db me (decide env peer id req db).1 ≡ mask_db me db
  unfolding decide write_decide
  decide_no-mask env req db said a = elim (Result-cases (check_decide env peer id req db)) [
    | inr (x, e) ↦ rw (e, decide)
    | inl ((d, row), e) ↦
        let (h, got, _) = check_decide-ok env peer id req db e in
        let is_no : d ≡ says_no = Option.some-injective d says_no (sym h ∙ said) in
        let t = write_decide env peer id d row db in
        rw (e, decide)
          (conclude_decide-hidden env (get_for_user peer id t) t db
            (rw (is_no, side_of db row a got) (write_decline-mask env db a)))
  ]

  -- Answering no tells the other side nothing. If every row with the pairing's id is a pairing
  -- of `me` and another user `peer` in which `peer` has not said yes, then after a request of
  -- `peer` to decide no, in any spelling that the handler takes and at any time, whatever
  -- requests follow and whoever makes them, `me` receives the replies that `me` would receive
  -- had the request never been made.
  pub observe-decide_no :
      (c : Crypto) (cfg : Config) (env : Env) (req : DecisionRequest) (db : Db)
      → parse_decision req.decision ≡ some says_no
      → All (IsUnanswered me peer id) db.pairings
      → (later : List (Env × ℕ × Request))
      → observe c cfg me later (decide env peer id req db).1 ≡ observe c cfg me later db
  observe-decide_no c cfg env req db said a later =
      observe-alike c cfg me later _ db (decide_no-mask env req db said a)
