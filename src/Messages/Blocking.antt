-- ===== src/Messages/Blocking.antt =====
-- The handler `block` of src/domain/pairings, seen from src/domain/messages.
use box_fraise_server.Prelude.{
  ℕ, ◌≡◌, refl, sym, subst, inl, inr, Bool, true, false, ◌&&◌, ◌||◌, some, arith, List, [], ◌∷◌,
  All, is_some, ◌==◌, Bool-cases, Option-cases,
}
use box_fraise_server.Errors.{ok, err, AppError}
use box_fraise_server.Server.{Env, Crypto}
use box_fraise_server.Table.{find, exists}
use box_fraise_server.Table.Laws.{changed}
use box_fraise_server.Table.Distinct.{Distinct}
use box_fraise_server.Table.Search.{exists-update_of_find, find-accepts}
use box_fraise_server.Pairings.Types.{Pairing, PairingRow}
use box_fraise_server.Pairings.Repository.{
  Db, is_own, is_closable, close, get_for_user, pairing_columns,
}
use box_fraise_server.Pairings.Service.{begin, block}
use box_fraise_server.Pairings.Trace.{Request, blocking, Config, serve, run}
use box_fraise_server.Pairings.Lifecycle.Step.{Step}
use box_fraise_server.Pairings.Lifecycle.Evolves.{same_key, Evolves, serve-Evolves}
use box_fraise_server.Pairings.Lifecycle.Invariant.{IsValid, serve-IsValid}
use box_fraise_server.Pairings.Lifecycle.Final.{conclude_block-pairings}
use box_fraise_server.Messages.Types.{Channel, SendMessageRequest}
use box_fraise_server.Messages.Repository.{is_open_for, bf_pairing_is_open_for}
use box_fraise_server.Messages.Service.{send, list}
use box_fraise_server.Messages.Access.{closed-channel}

module _ (id : ℕ) where
  abbrev is_gone : Pairing → Bool
  is_gone p = p.id == id && is_some p.closed_at

  apart-open :
      (u : ℕ) (p : Pairing) (ps : List Pairing)
      → (p.id == id) ≡ true
      → All (λ q. same_key q p ≡ false) ps
      → exists (is_open_for id u) ps ≡ false
  unfolding exists
  apart-open u p [] h a = refl
  apart-open u p (q ∷ ps) h a = rw (apart-open u p ps h a.1) (other q a.0)
    where
      other : (q : Pairing) → same_key q p ≡ false → (is_open_for id u q || false) ≡ false
      other q k = ground arith

  apart-gone :
      (p : Pairing) (ps : List Pairing)
      → (p.id == id) ≡ true
      → All (λ q. same_key q p ≡ false) ps
      → exists is_gone ps ≡ false
  unfolding exists
  apart-gone p [] h a = refl
  apart-gone p (q ∷ ps) h a = rw (apart-gone p ps h a.1) (other q a.0)
    where
      other : (q : Pairing) → same_key q p ≡ false → (is_gone q || false) ≡ false
      other q k = ground arith

  gone-open :
      (u : ℕ) (ps : List Pairing)
      → Distinct same_key ps
      → exists is_gone ps ≡ true
      → exists (is_open_for id u) ps ≡ false
  unfolding exists
  gone-open u [] d h = refl
  gone-open u (p ∷ ps) d h = elim (Bool-cases (p.id == id)) [
    | inl e ↦
        let none_gone = apart-gone p ps e d.0 in
        let none_open = apart-open u p ps e d.0 in ground arith
    | inr e ↦ let rest = gone-open u ps d.1 in ground (arith, rest)
  ]

  Evolves-gone :
      (env : Env) (u : ℕ) (ps qs : List Pairing)
      → Evolves env u ps qs
      → exists is_gone ps ≡ true
      → exists is_gone qs ≡ true
  unfolding exists
  Evolves-gone env u [] qs e h = cc
  Evolves-gone env u (p ∷ ps) [] e h = absurd e
  Evolves-gone env u (p ∷ ps) (q ∷ qs) e h =
      let st = step p q e.0 in let rest = Evolves-gone env u ps qs e.1 in ground (arith, st, rest)
    where
      step : (p q : Pairing) → Step env u p q → is_gone p ≡ true → is_gone q ≡ true
      step p q st k = ground arith

  run-gone :
      (c : Crypto) (cfg : Config) (later : List (Env × ℕ × Request)) (db : Db) (u : ℕ)
      → IsValid db
      → exists is_gone db.pairings ≡ true
      → bf_pairing_is_open_for id u (run c cfg later db).pairings ≡ false
  unfolding run bf_pairing_is_open_for
  run-gone c cfg [] db u v h = gone-open u db.pairings v.distinct h
  run-gone c cfg ((env, w, req) ∷ rest) db u v h =
      run-gone c cfg rest (serve c cfg env w req db).1 u (serve-IsValid env w c cfg req db v) (
        Evolves-gone env w db.pairings (serve c cfg env w req db).1.pairings
          (serve-Evolves env w c cfg req db v.distinct) h)

  block-gone :
      (env : Env) (w : ℕ) (db : Db) (row : PairingRow)
      → get_for_user w id db ≡ some row
      → exists is_gone (block env w id db).1.pairings ≡ true
  unfolding block close get_for_user pairing_columns
  block-gone env w db row e = elim (Option-cases (find (is_own w id) db.pairings)) [
    | inl missing ↦ cc (rw missing at e)
    | inr (p, found) ↦
        let own = find-accepts (is_own w id) db.pairings found in
        rw (found, block, get_for_user)
          (subst (λ ps. exists is_gone ps ≡ true) (sym (conclude_block-pairings env w id _ _))
            (exists-update_of_find (is_own w id) is_gone (is_closable (begin env w) p.id)
              (λ q. record q { closed_at = some env.db_now; closed_by = some w }) db.pairings found
              (closed p own)))
  ]
    where
      closed :
          (p : Pairing)
          → is_own w id p ≡ true
          → is_gone (
              changed
                (is_closable (begin env w) p.id)
                (λ q. record q { closed_at = some env.db_now; closed_by = some w })
                p)
            ≡ true
      closed p own = ground arith

-- Over a valid table of pairings, once a participant has asked to block a pairing, whatever
-- requests to the pairings follow, nobody reads a word of its conversation, not even who wrote
-- it, and whatever anybody sends into it is refused and stored nowhere.
pub block-silences :
    (c : Crypto) (cfg : Config) (env env' : Env) (w u id : ℕ) (row : PairingRow) (ch : Channel)
    → IsValid ch.base
    → get_for_user w id ch.base ≡ some row
    → (later : List (Env × ℕ × Request)) (req : SendMessageRequest)
    → let t = record ch { base = run c cfg later (block env w id ch.base).1 } in
      (list c env' u id t ≡ ok []) × ((e : AppError) × (send c env' u id req t ≡ (err e, t)))
unfolding serve
block-silences c cfg env env' w u id row ch v e later req =
    closed-channel c env' u id (record ch { base = run c cfg later (block env w id ch.base).1 }) req
      (run-gone id c cfg later (block env w id ch.base).1 u
        (serve-IsValid env w c cfg (blocking id) ch.base v) (block-gone id env w ch.base row e))
