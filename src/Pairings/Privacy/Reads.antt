-- ===== src/Pairings/Privacy/Reads.antt =====
-- The reads of the pairing tables over masked tables.
use box_fraise_server.Prelude.{
  ℕ, ◌≡◌, refl, ap, some, List, [], ◌∷◌, map, arith, ◌||◌, Option-cases, inl, inr,
}
use mathlib.Core.Option
use box_fraise_server.Table.{find, select}
use box_fraise_server.Table.Laws.{find-map, exists-map, count-map, select-map, order_desc-map}
use box_fraise_server.Pairings.Types.{Pairing, to_view}
use box_fraise_server.Pairings.Repository.{
  Conn, Db, between, involves, is_own, bf_peer_display_name, pairing_columns, get_for_user,
  list_for_user, pending_count_for, is_authorized,
}
use box_fraise_server.Pairings.Privacy.Mask.{
  mask, mask_db, mask_row, is_own-mask, involves-mask, is_pending-mask, to_view-mask_row,
}

module _ (me : ℕ) where
  bf_peer_display_name-mask :
      (u peer : ℕ) (db : Db)
      → bf_peer_display_name u peer (mask_db me db) ≡ bf_peer_display_name u peer db
  unfolding bf_peer_display_name
  bf_peer_display_name-mask u peer db = rw (
      exists-map (λ p. between u peer p || between peer u p) (mask me) (λ p. ground arith)
        db.pairings)

  pub pairing_columns-mask :
      (u : ℕ) (db : Db) (p : Pairing)
      → pairing_columns u (mask_db me db) (mask me p) ≡ mask_row me (pairing_columns u db p)
  unfolding pairing_columns
  pairing_columns-mask u db p = ground (
    arith,
    bf_peer_display_name-mask u p.upper_user_id db,
    bf_peer_display_name-mask u p.lower_user_id db,
  )

  pub get_for_user-mask :
      (u id : ℕ) (db : Db)
      → get_for_user u id (mask_db me db) ≡ Option.map (mask_row me) (get_for_user u id db)
  unfolding get_for_user
  get_for_user-mask u id db =
      rw (find-map (is_own u id) (mask me) (is_own-mask me u id) db.pairings)
        (elim (Option-cases (find (is_own u id) db.pairings)) [
          | inl e ↦ rw e
          | inr (p, e) ↦ rw e (ap some (pairing_columns-mask u db p))
        ])

  pub pending_count_for-mask :
      (conn : Conn) (u : ℕ) (db : Db)
      → pending_count_for conn u (mask_db me db) ≡ pending_count_for conn u db
  unfolding pending_count_for
  pending_count_for-mask conn u db = count-map _ (mask me) (is_pending-mask me conn u) db.pairings

  pub is_authorized-mask :
      (a b : ℕ) (db : Db) → is_authorized a b (mask_db me db) ≡ is_authorized a b db
  unfolding is_authorized
  is_authorized-mask a b db = exists-map _ (mask me) (λ p. ground arith) db.pairings

  views-mask :
      (db : Db) (now : ℕ) (ps : List Pairing)
      → map (λ r. to_view r me now) (map (pairing_columns me (mask_db me db)) (map (mask me) ps))
        ≡ map (λ r. to_view r me now) (map (pairing_columns me db) ps)
  views-mask db now [] = refl
  views-mask db now (p ∷ ps) = rw (
    pairing_columns-mask me db p,
    to_view-mask_row me (pairing_columns me db p) now,
    views-mask db now ps,
  )

  pub list_for_user-mask :
      (db : Db) (now : ℕ)
      → map (λ r. to_view r me now) (list_for_user me (mask_db me db))
        ≡ map (λ r. to_view r me now) (list_for_user me db)
  unfolding list_for_user
  list_for_user-mask db now =
      rw
        (
          select-map (involves me) (mask me) (involves-mask me me) db.pairings,
          order_desc-map (λ p. p.met_at) (mask me) (λ p. ground arith)
              (select (involves me) db.pairings),
        )
        (views-mask db now _)
