-- ===== src/Pairings/Privacy/Writes.antt =====
-- The writes of the pairing tables over masked tables.
use box_fraise_server.Prelude.{ℕ, ◌≡◌, Bool, Option, List, [], ◌∷◌, arith, ◌==◌, ◌||◌}
use box_fraise_server.Table.Laws.{exists-map, update-map, map-append_masked}
use box_fraise_server.Pairings.Types.{Decision, Pairing}
use box_fraise_server.Pairings.Repository.{
  Conn, Db, Insert, inserted, unique_violation, refused, between, is_own, is_mutual, is_closable,
  decide_row, new_pairing, insert_pairing, set_decision, open_if_mutual, close, lower_of, upper_of,
}
use box_fraise_server.Pairings.Privacy.Mask.{
  mask, mask_db, mask_idem, is_own-mask, is_mutual-mask, is_closable-mask, decide_row-mask,
}

abbrev pub mask_insert : ℕ → Insert → Insert
mask_insert me (inserted db) = inserted (mask_db me db)
mask_insert me unique_violation = unique_violation
mask_insert me refused = refused

module _ (me : ℕ) where
  with_pairings :
      (db : Db) {ps qs : List Pairing}
      → ps ≡ qs
      → record db { pairings = ps; audit_events = [] }
        ≡ record db { pairings = qs; audit_events = [] }
  with_pairings db e = λ i. record db { pairings = e i; audit_events = [] }

  pub insert_pairing-mask :
      (conn : Conn) (id a b : ℕ) (event_id : Option ℕ) (opens_at expires_at : ℕ) (db : Db)
      → mask_insert me (insert_pairing conn id a b event_id opens_at expires_at (mask_db me db))
        ≡ mask_insert me (insert_pairing conn id a b event_id opens_at expires_at db)
  unfolding insert_pairing
  insert_pairing-mask conn id a b event_id opens_at expires_at db = ground (
    arith,
    exists-map (λ q. q.id == id || between (lower_of a b) (upper_of a b) q) (mask me)
        (λ q. ground arith) db.pairings,
    map-append_masked (mask me) (mask_idem me) db.pairings
        (new_pairing conn id (lower_of a b) (upper_of a b) event_id opens_at expires_at ∷ []),
  )

  pub set_decision-mask :
      (conn : Conn) (id : ℕ) (b : Bool) (d : Decision) (db : Db)
      → mask_db me (set_decision conn id b d (mask_db me db))
        ≡ mask_db me (set_decision conn id b d db)
  unfolding set_decision
  set_decision-mask conn id b d db = with_pairings db (
      update-map (is_own conn.user id) (mask me) (is_own-mask me conn.user id)
        (decide_row b d conn.now) (mask_idem me) (decide_row-mask me b d conn.now) db.pairings)

  pub open_if_mutual-mask :
      (conn : Conn) (id : ℕ) (db : Db)
      → mask_db me (open_if_mutual conn id (mask_db me db)) ≡ mask_db me (open_if_mutual conn id db)
  unfolding open_if_mutual
  open_if_mutual-mask conn id db = with_pairings db (
      update-map (is_mutual conn id) (mask me) (is_mutual-mask me conn id) _ (mask_idem me)
        (λ p. ground arith) db.pairings)

  pub close-mask :
      (conn : Conn) (id by : ℕ) (db : Db)
      → mask_db me (close conn id by (mask_db me db)).1 ≡ mask_db me (close conn id by db).1
  unfolding close
  close-mask conn id by db = with_pairings db (
      update-map (is_closable conn id) (mask me) (is_closable-mask me conn id) _ (mask_idem me)
        (λ p. ground arith) db.pairings)

  pub close-mask_done :
      (conn : Conn) (id by : ℕ) (db : Db)
      → (close conn id by (mask_db me db)).0 ≡ (close conn id by db).0
  unfolding close
  close-mask_done conn id by db =
      exists-map (is_closable conn id) (mask me) (is_closable-mask me conn id) db.pairings
