-- ===== src/Pairings/Deciding.antt =====
-- The handler `decide`: what an accepted decision writes and replies.
use mathlib.Core.Option
use box_fraise_server.Prelude.{
  ℕ, ◌≡◌, ◌≤◌, ◌<◌, refl, sym, ap, subst, ◌∙◌, ◌⊎◌, inl, inr, Bool, true, Option, none, some, arith,
  is_some, ◌==◌, if◌then◌else◌, Option-cases,
}
use box_fraise_server.Errors.{ok, Result-cases}
use box_fraise_server.Server.{Env}
use box_fraise_server.Table.{find, update}
use box_fraise_server.Table.Laws.{changed}
use box_fraise_server.Table.Search.{find-update, find-accepts}
use box_fraise_server.Pairings.Types.{
  Decision, says_yes, Pairing, PairingRow, PairingView, opened, status, is_lower, my_decision,
  peer_of, to_view, DecisionRequest,
}
use box_fraise_server.Pairings.Repository.{
  Db, is_own, is_mutual, decide_row, pairing_columns, get_for_user, set_decision, open_if_mutual,
}
use box_fraise_server.Pairings.Service.{
  begin, parse_decision, check_status, check_decide, write_decide, conclude_decide, decide,
}
use box_fraise_server.Pairings.Inversion.{check_decide-ok}

-- The row after the two updates of an admitted decision.
abbrev pub decided_row : Env → ℕ → ℕ → Bool → Decision → Pairing → Pairing
decided_row env u id side d p =
    changed (is_mutual (begin env u) id) (λ q. record q { opened_at = some env.db_now })
      (changed (is_own u id) (decide_row side d env.db_now) p)

-- The other has said yes, and only the answer of `u` is missing.
pub record IsReady (env : Env) (u : ℕ) (row : PairingRow) : Type 0 where
  pub unclosed : row.closed_at ≡ none
  pub unopened : row.opened_at ≡ none
  pub inside : (row.opens_at ≤ env.now) × (env.now < row.expires_at)
  pub inside_db : (row.opens_at ≤ env.db_now) × (env.db_now < row.expires_at)
  pub other :
      (if row.lower_user_id == u then row.upper_decision else row.lower_decision) ≡ some says_yes

module _ (env : Env) (u id : ℕ) where
  own_kept :
      (side : Bool) (d : Decision) (p : Pairing)
      → is_own u id (changed (is_own u id) (decide_row side d env.db_now) p) ≡ is_own u id p
  unfolding decide_row
  own_kept side d p = ground arith

  own_kept_open :
      (p : Pairing)
      → is_own u id
          (changed (is_mutual (begin env u) id) (λ q. record q { opened_at = some env.db_now }) p)
        ≡ is_own u id p
  own_kept_open p = ground arith

  get_for_user-write_decide :
      (d : Decision) (row : PairingRow) (db : Db) {p : Pairing}
      → find (is_own u id) db.pairings ≡ some p
      → let t = write_decide env u id d row db in
        get_for_user u id t ≡ some (pairing_columns u t (decided_row env u id (is_lower row u) d p))
  unfolding write_decide set_decision open_if_mutual get_for_user
  get_for_user-write_decide d row db {p} e = rw (
    find-update (is_own u id) (is_mutual (begin env u) id)
        (λ q. record q { opened_at = some env.db_now })
        (update (is_own u id) (decide_row (is_lower row u) d env.db_now) db.pairings) own_kept_open,
    find-update (is_own u id) (is_own u id) (decide_row (is_lower row u) d env.db_now) db.pairings
        (own_kept (is_lower row u) d),
    e,
  )

  row_of :
      (db : Db) {row : PairingRow}
      → get_for_user u id db ≡ some row
      → (p : Pairing) × (find (is_own u id) db.pairings ≡ some p)
        × (pairing_columns u db p ≡ row)
        × (is_own u id p ≡ true)
  unfolding get_for_user
  row_of db e = elim (Option-cases (find (is_own u id) db.pairings)) [
    | inl missing ↦ cc (rw missing at e)
    | inr (p, found) ↦ (
      p,
      found,
      Option.some-injective _ _ (rw found at e),
      find-accepts (is_own u id) db.pairings found,
    )
  ]

  my_answer :
      (d : Decision) (db t : Db) (p : Pairing)
      → is_own u id p ≡ true
      → my_decision
          (pairing_columns u t (decided_row env u id (is_lower (pairing_columns u db p) u) d p))
          u
        ≡ some d
  unfolding my_decision is_lower pairing_columns decide_row is_mutual
  my_answer d db t p own = ground arith

  conclude_decide-ok :
      (o : Option PairingRow) (t db : Db) {v : PairingView}
      → (conclude_decide env u id o t db).0 ≡ ok v
      → (r : PairingRow) × (o ≡ some r) × (v ≡ to_view r u env.later)
  unfolding conclude_decide
  conclude_decide-ok none t db h = cc
  conclude_decide-ok (some r) t db h = (r, refl, ground arith)

  accepted_status :
      (row : PairingRow)
      → check_status (status row env.now) ≡ ok tt
      → (row.closed_at ≡ none)
        × ((is_some row.opened_at ≡ true) ⊎ ((row.opens_at ≤ env.now) × (env.now < row.expires_at)))
  unfolding check_status status
  accepted_status row h = ground arith

  -- A decision is accepted only on a pairing of the caller's that nobody has closed, and that is
  -- a channel already or stands inside its window; the reply then carries that very decision.
  pub decide-ok :
      (req : DecisionRequest) (db : Db) {v : PairingView}
      → (decide env u id req db).0 ≡ ok v
      → (row : PairingRow) × (get_for_user u id db ≡ some row)
        × (row.closed_at ≡ none)
        × ((is_some row.opened_at ≡ true) ⊎ ((row.opens_at ≤ env.now) × (env.now < row.expires_at)))
        × (v.my_decision ≡ parse_decision req.decision)
  unfolding decide to_view
  decide-ok req db {v} h = elim (Result-cases (check_decide env u id req db)) [
    | inr (x, e) ↦ cc (rw (e, decide) at h)
    | inl ((d, row), e) ↦
        let (said, got, good) = check_decide-ok env u id req db e in
        let (p, found, same, own) = row_of db got in
        let t = write_decide env u id d row db in
        let (r, read, view) = conclude_decide-ok (get_for_user u id t) t db (rw (e, decide) at h) in
        let written = sym (get_for_user-write_decide d row db found) ∙ read in
        let (unclosed, when) = accepted_status row good in
        (
          row,
          got,
          unclosed,
          when,
          ap (λ w. w.my_decision) view
              ∙ ap (λ q. my_decision q u) (sym (Option.some-injective _ _ written))
              ∙ subst
                  (λ q.
                    my_decision (pairing_columns u t (decided_row env u id (is_lower q u) d p)) u
                    ≡ some d)
                  same (my_answer d db t p own)
              ∙ sym said,
        )
  ]

  second_yes :
      (db t : Db) (p : Pairing)
      → is_own u id p ≡ true
      → IsReady env u (pairing_columns u db p)
      → let r =
          pairing_columns u t
            (decided_row env u id (is_lower (pairing_columns u db p) u) says_yes p) in
        (status r env.later ≡ opened) × (peer_of r u ≡ peer_of (pairing_columns u db p) u)
  unfolding is_lower pairing_columns decide_row is_mutual status peer_of
  second_yes db t p own ready = ground arith

  conclude_decide-some :
      (o : Option PairingRow) (t db : Db) {r : PairingRow}
      → o ≡ some r
      → (conclude_decide env u id o t db).0 ≡ ok (to_view r u env.later)
  unfolding conclude_decide
  conclude_decide-some o t db e = rw e

  ready-check :
      (req : DecisionRequest) (db : Db) (row : PairingRow)
      → parse_decision req.decision ≡ some says_yes
      → get_for_user u id db ≡ some row
      → IsReady env u row
      → check_decide env u id req db ≡ ok (says_yes, row)
  unfolding check_decide check_status status
  ready-check req db row said got ready = rw (said, got, check_decide) (ground arith)

  -- The second yes opens the channel: on a pairing of the caller's that is neither opened nor
  -- closed, if the other has said yes and both clocks are inside the window, a yes is accepted,
  -- and its reply says that the channel is open and who the other is.
  pub decide-opens :
      (req : DecisionRequest) (db : Db) (row : PairingRow)
      → parse_decision req.decision ≡ some says_yes
      → get_for_user u id db ≡ some row
      → IsReady env u row
      → (v : PairingView) × ((decide env u id req db).0 ≡ ok v)
        × (v.status ≡ opened)
        × (v.peer_id ≡ some (peer_of row u))
  unfolding decide to_view
  decide-opens req db row said got ready =
      let (p, found, same, own) = row_of db got in
      let t = write_decide env u id says_yes row db in
      let r = pairing_columns u t (decided_row env u id (is_lower row u) says_yes p) in
      let (now_open, peer) =
        subst
          (λ q.
            (status (pairing_columns u t (decided_row env u id (is_lower q u) says_yes p)) env.later
              ≡ opened)
            × (peer_of (pairing_columns u t (decided_row env u id (is_lower q u) says_yes p)) u
                ≡ peer_of q u))
          same (second_yes db t p own (subst (IsReady env u) (sym same) ready)) in
      (
        to_view r u env.later,
        rw (ready-check req db row said got ready, decide)
            (conclude_decide-some (get_for_user u id t) t db
              (get_for_user-write_decide says_yes row db found)),
        now_open,
        rw (now_open, peer),
      )
