-- ===== src/Pairings/Privacy/Mask.antt =====
-- The tables as one user may know them: in every pairing of theirs the other side's decision is
-- kept only if it is a yes, and the audit trail, which no participant reads, is left out.
use box_fraise_server.Prelude.{
  ℕ, ◌≡◌, Bool, true, false, Option, none, some, [], map, arith, ◌==◌, if◌then◌else◌,
}
use box_fraise_server.Table.Laws.{map_idem}
use box_fraise_server.Pairings.Types.{
  Decision, says_yes, says_no, Pairing, PairingRow, is_lower, status, to_view,
}
use box_fraise_server.Pairings.Repository.{
  Conn, Db, involves, is_own, is_mutual, is_closable, is_pending, decide_row,
}

abbrev pub soften : Option Decision → Option Decision
soften (some says_yes) = some says_yes
soften (some says_no) = none
soften none = none

abbrev pub mask : ℕ → Pairing → Pairing
mask me p =
    if p.lower_user_id == me
    then record p { upper_decision = soften p.upper_decision; upper_decided_at = none }
    else if p.upper_user_id == me
    then record p { lower_decision = soften p.lower_decision; lower_decided_at = none }
    else p

abbrev pub mask_db : ℕ → Db → Db
mask_db me db = record db { pairings = map (mask me) db.pairings; audit_events = [] }

abbrev pub mask_row : ℕ → PairingRow → PairingRow
mask_row me r =
    if r.lower_user_id == me
    then record r { upper_decision = soften r.upper_decision }
    else if r.upper_user_id == me
    then record r { lower_decision = soften r.lower_decision }
    else r

module _ (me : ℕ) where
  pub mask_idem : (p : Pairing) → mask me (mask me p) ≡ mask me p
  mask_idem p = ground arith

  pub mask_db_idem : (db : Db) → mask_db me (mask_db me db) ≡ mask_db me db
  mask_db_idem db =
      λ i. record db { pairings = map_idem (mask me) mask_idem db.pairings i; audit_events = [] }

  pub is_own-mask : (u id : ℕ) (p : Pairing) → is_own u id (mask me p) ≡ is_own u id p
  is_own-mask u id p = ground arith

  pub involves-mask : (u : ℕ) (p : Pairing) → involves u (mask me p) ≡ involves u p
  involves-mask u p = ground arith

  pub is_closable-mask :
      (conn : Conn) (id : ℕ) (p : Pairing) → is_closable conn id (mask me p) ≡ is_closable conn id p
  is_closable-mask conn id p = ground arith

  pub is_pending-mask :
      (conn : Conn) (u : ℕ) (p : Pairing) → is_pending conn u (mask me p) ≡ is_pending conn u p
  is_pending-mask conn u p = ground arith

  -- Opening asks only whether both have said yes, which the mask keeps.
  pub is_mutual-mask :
      (conn : Conn) (id : ℕ) (p : Pairing) → is_mutual conn id (mask me p) ≡ is_mutual conn id p
  unfolding is_mutual
  is_mutual-mask conn id p = ground arith

  pub decide_row-mask :
      (b : Bool) (d : Decision) (now : ℕ) (p : Pairing)
      → mask me (decide_row b d now (mask me p)) ≡ mask me (decide_row b d now p)
  unfolding decide_row
  decide_row-mask true d now p = ground arith
  decide_row-mask false d now p = ground arith

  pub status-mask_row : (r : PairingRow) (now : ℕ) → status (mask_row me r) now ≡ status r now
  unfolding status
  status-mask_row r now = ground arith

  pub is_lower-mask_row : (r : PairingRow) (u : ℕ) → is_lower (mask_row me r) u ≡ is_lower r u
  unfolding is_lower
  is_lower-mask_row r u = ground arith

  pub mask_row-id : (r : PairingRow) → (mask_row me r).id ≡ r.id
  mask_row-id r = ground arith

  -- The view of a pairing has no place for what the mask hides.
  pub to_view-mask_row :
      (r : PairingRow) (now : ℕ) → to_view (mask_row me r) me now ≡ to_view r me now
  unfolding to_view
  to_view-mask_row r now = ground arith
