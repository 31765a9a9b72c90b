-- ===== src/Pairings/Lifecycle/Final.antt =====
-- Pairings that have been closed, under later requests.
use mathlib.Core.Option
use box_fraise_server.Prelude.{
  ℕ, ◌≡◌, refl, sym, subst, ◌<◌, ◌⊎◌, inl, inr, Bool, true, false, ◌&&◌, ◌||◌, some, arith, List,
  [], ◌∷◌, All, is_some, Bool-cases, Option-cases,
}
use box_fraise_server.Errors.{ok}
use box_fraise_server.Server.{Env, Crypto}
use box_fraise_server.Table.{find, exists}
use box_fraise_server.Table.Laws.{changed, All-find}
use box_fraise_server.Table.Distinct.{Distinct}
use box_fraise_server.Table.Search.{exists-update_of_find, find-accepts}
use box_fraise_server.Pairings.Types.{Pairing, PairingRow, is_lower, peer_of}
use box_fraise_server.Pairings.Repository.{
  Db, between, is_own, is_channel, is_closable, is_authorized, close, get_for_user, pairing_columns,
}
use box_fraise_server.Pairings.Service.{begin, conclude_block, block, authorized}
use box_fraise_server.Pairings.Trace.{Request, blocking, Config, serve, run}
use box_fraise_server.Pairings.Lifecycle.Step.{Step}
use box_fraise_server.Pairings.Lifecycle.Evolves.{same_key, Evolves, serve-Evolves}
use box_fraise_server.Pairings.Lifecycle.Invariant.{IsSound, IsValid, serve-IsValid}

-- A pairing of the two users that somebody has closed.
abbrev pub is_ended : ℕ → ℕ → Pairing → Bool
is_ended lower upper p = between lower upper p && is_some p.closed_at

module _ (lower upper : ℕ) where
  -- No two rows are of the same two users.
  pub apart-exists :
      (f : Pairing → Bool) (p : Pairing) (ps : List Pairing)
      → between lower upper p ≡ true
      → All (λ q. same_key q p ≡ false) ps
      → exists (λ q. between lower upper q && f q) ps ≡ false
  unfolding exists
  apart-exists f p [] h a = refl
  apart-exists f p (q ∷ ps) h a = rw (apart-exists f p ps h a.1) (other q a.0)
    where
      other :
          (q : Pairing) → same_key q p ≡ false → ((between lower upper q && f q) || false) ≡ false
      other q k = ground arith

  ended-channel :
      (ps : List Pairing)
      → Distinct same_key ps
      → exists (is_ended lower upper) ps ≡ true
      → exists (λ p. between lower upper p && is_channel p) ps ≡ false
  unfolding exists
  ended-channel [] d h = refl
  ended-channel (p ∷ ps) d h = elim (Bool-cases (between lower upper p)) [
    | inl e ↦
        let none_ended = apart-exists (λ q. is_some q.closed_at) p ps e d.0 in
        let none_open = apart-exists is_channel p ps e d.0 in ground arith
    | inr e ↦ let rest = ended-channel ps d.1 in ground (arith, rest)
  ]

  Step-ended :
      (env : Env) (u : ℕ) (p q : Pairing)
      → Step env u p q
      → is_ended lower upper p ≡ true
      → is_ended lower upper q ≡ true
  Step-ended env u p q st h = ground arith

  Evolves-ended :
      (env : Env) (u : ℕ) (ps qs : List Pairing)
      → Evolves env u ps qs
      → exists (is_ended lower upper) ps ≡ true
      → exists (is_ended lower upper) qs ≡ true
  unfolding exists
  Evolves-ended env u [] qs e h = cc
  Evolves-ended env u (p ∷ ps) [] e h = absurd e
  Evolves-ended env u (p ∷ ps) (q ∷ qs) e h =
      let st = Step-ended env u p q e.0 in
      let rest = Evolves-ended env u ps qs e.1 in ground (arith, st, rest)

  run-ended :
      (c : Crypto) (cfg : Config) (later : List (Env × ℕ × Request)) (db : Db)
      → IsValid db
      → exists (is_ended lower upper) db.pairings ≡ true
      → exists (λ p. between lower upper p && is_channel p) (run c cfg later db).pairings ≡ false
  unfolding run
  run-ended c cfg [] db v h = ended-channel db.pairings v.distinct h
  run-ended c cfg ((env, u, req) ∷ rest) db v h =
      run-ended c cfg rest (serve c cfg env u req db).1 (serve-IsValid env u c cfg req db v) (
        Evolves-ended env u db.pairings (serve c cfg env u req db).1.pairings
          (serve-Evolves env u c cfg req db v.distinct) h)

module _ (env : Env) (u id : ℕ) where
  pub conclude_block-pairings :
      (b : Bool) (t : Db) → (conclude_block env u id b t).1.pairings ≡ t.pairings
  unfolding conclude_block
  conclude_block-pairings true t = refl
  conclude_block-pairings false t = refl

  -- A request to block leaves the row closed, whether it was this request that closed it or not.
  block-ended :
      (db : Db) (row : PairingRow)
      → get_for_user u id db ≡ some row
      → exists (is_ended row.lower_user_id row.upper_user_id) (block env u id db).1.pairings ≡ true
  unfolding block close get_for_user pairing_columns
  block-ended db row e = elim (Option-cases (find (is_own u id) db.pairings)) [
    | inl missing ↦ cc (rw missing at e)
    | inr (p, found) ↦
        let same = Option.some-injective _ _ (rw found at e) in
        let own = find-accepts (is_own u id) db.pairings found in
        rw (found, block, get_for_user)
          (subst (λ ps. exists (is_ended row.lower_user_id row.upper_user_id) ps ≡ true)
            (sym (conclude_block-pairings _ _))
            (exists-update_of_find (is_own u id) (is_ended row.lower_user_id row.upper_user_id)
              (is_closable (begin env u) p.id)
              (λ q. record q { closed_at = some env.db_now; closed_by = some u }) db.pairings found
              (rw (← same) (closed p own))))
  ]
    where
      closed :
          (p : Pairing)
          → is_own u id p ≡ true
          → is_ended p.lower_user_id p.upper_user_id (
              changed
                (is_closable (begin env u) p.id)
                (λ q. record q { closed_at = some env.db_now; closed_by = some u })
                p)
            ≡ true
      closed p own = ground arith

  pub own_row :
      (db : Db) (row : PairingRow)
      → IsValid db
      → get_for_user u id db ≡ some row
      → (row.lower_user_id < row.upper_user_id)
        × ((u ≡ row.lower_user_id) ⊎ (u ≡ row.upper_user_id))
  unfolding get_for_user pairing_columns
  own_row db row v e = elim (Option-cases (find (is_own u id) db.pairings)) [
    | inl missing ↦ cc (rw missing at e)
    | inr (p, found) ↦
        let same = Option.some-injective _ _ (rw found at e) in
        let (sound, own) = All-find IsSound (is_own u id) db.pairings v.sound found in
        rw (← same) (sides p sound own)
  ]
    where
      sides :
          (p : Pairing)
          → IsSound p
          → is_own u id p ≡ true
          → (p.lower_user_id < p.upper_user_id) × ((u ≡ p.lower_user_id) ⊎ (u ≡ p.upper_user_id))
      sides p sound own = ground arith

  -- Nobody can talk to somebody whose pairing is closed.
  ended-authorized :
      (row : PairingRow) (t : Db)
      → (row.lower_user_id < row.upper_user_id)
      → ((u ≡ row.lower_user_id) ⊎ (u ≡ row.upper_user_id))
      → exists (λ p. between row.lower_user_id row.upper_user_id p && is_channel p) t.pairings
        ≡ false
      → (authorized u (peer_of row u) t ≡ ok (record { authorized = false }))
        × (authorized (peer_of row u) u t ≡ ok (record { authorized = false }))
  unfolding authorized is_authorized peer_of is_lower
  ended-authorized row t order own h = ground (arith, h)

  -- In a valid table, once a participant has asked to block a pairing, whatever the reply to
  -- that, the two are told for good that they may not talk, whatever requests follow, of theirs
  -- or of anybody.
  pub block-final :
      (c : Crypto) (cfg : Config) (db : Db) (row : PairingRow)
      → IsValid db
      → get_for_user u id db ≡ some row
      → (later : List (Env × ℕ × Request))
      → let t = run c cfg later (block env u id db).1 in
        (authorized u (peer_of row u) t ≡ ok (record { authorized = false }))
        × (authorized (peer_of row u) u t ≡ ok (record { authorized = false }))
  unfolding serve
  block-final c cfg db row v e later =
      let t = (block env u id db).1 in
      let (order, own) = own_row db row v e in
      ended-authorized row (run c cfg later t) order own (
        run-ended row.lower_user_id row.upper_user_id c cfg later t
          (serve-IsValid env u c cfg (blocking id) db v) (block-ended db row e))
