-- ===== src/Pairings/Lifecycle/Evolves.antt =====
-- The rows of `pairings` before and after one request.
use mathlib.Core.Option
use box_fraise_server.Prelude.{
  ℕ, ◌≡◌, refl, sym, subst, ◌<◌, ◌⊎◌, inl, inr, Bool, true, false, ◌||◌, Option, none, some, arith,
  List, [], ◌∷◌, ◌++◌, All, Option-cases, ◌==◌,
}
use box_fraise_server.Errors.{ok}
use box_fraise_server.Server.{Env, Crypto}
use box_fraise_server.Table.{find, update}
use box_fraise_server.Table.Laws.{changed, All-find}
use box_fraise_server.Table.Distinct.{Distinct, All-of_find, All-map}
use box_fraise_server.Pairings.Types.{
  Decision, Pairing, PairingRow, status, is_lower, DecisionRequest,
}
use box_fraise_server.Pairings.Repository.{
  burn_nonce, Db, inserted, involves, between, is_own, is_mutual, is_closable, decide_row,
  new_pairing, insert_pairing, pairing_columns, get_for_user,
}
use box_fraise_server.Pairings.Service.{begin, check_status, check_decide}
use box_fraise_server.Pairings.Inversion.{check_decide-ok, insert_pairing-inserted}
use box_fraise_server.Pairings.Trace.{Request, Config, serve}
use box_fraise_server.Pairings.Lifecycle.Cases.{serve-cases}
use box_fraise_server.Pairings.Lifecycle.Step.{
  Step, Step-refl, Step-close, Step-decide, IsAnswerable,
}

-- Rows that a UNIQUE index or the primary key would refuse side by side.
abbrev pub same_key : Pairing → Pairing → Bool
same_key p q = p.id == q.id || between q.lower_user_id q.upper_user_id p

-- A row as `claim` makes it.
pub record IsNew (env : Env) (u : ℕ) (p : Pairing) : Type 0 where
  pub ordered : p.lower_user_id < p.upper_user_id
  pub window : p.opens_at < p.expires_at
  pub own : involves u p ≡ true
  pub unanswered : (p.lower_decision ≡ none) × (p.upper_decision ≡ none)
  pub unopened : (p.opened_at ≡ none) × (p.closed_at ≡ none)

All-true : (ps : List Pairing) → All (λ p. Unit {0}) ps
All-true [] = tt
All-true (p ∷ ps) = (tt, All-true ps)

abbrev pub Evolves : Env → ℕ → List Pairing → List Pairing → Type 0
Evolves env u [] [] = Unit
Evolves env u [] (q ∷ []) = IsNew env u q
Evolves env u [] (q ∷ r ∷ qs) = ⊥
Evolves env u (p ∷ ps) [] = ⊥
Evolves env u (p ∷ ps) (q ∷ qs) = Step env u p q × Evolves env u ps qs

module _ (env : Env) (u : ℕ) where
  Evolves-refl : (ps : List Pairing) → Evolves env u ps ps
  Evolves-refl [] = tt
  Evolves-refl (p ∷ ps) = (Step-refl env u p, Evolves-refl ps)

  Evolves-insert :
      (ps : List Pairing) (q : Pairing) → IsNew env u q → Evolves env u ps (ps ++ q ∷ [])
  Evolves-insert [] q h = h
  Evolves-insert (p ∷ ps) q h = (Step-refl env u p, Evolves-insert ps q h)

  Evolves-update :
      (p : Pairing → Bool) (f : Pairing → Pairing) (ps : List Pairing)
      → All (λ r. Step env u r (changed p f r)) ps
      → Evolves env u ps (update p f ps)
  unfolding update
  Evolves-update p f [] a = tt
  Evolves-update p f (r ∷ ps) a = (a.0, Evolves-update p f ps a.1)

  Evolves-update-update :
      (p q : Pairing → Bool) (f g : Pairing → Pairing) (ps : List Pairing)
      → All (λ r. Step env u r (changed q g (changed p f r))) ps
      → Evolves env u ps (update q g (update p f ps))
  unfolding update
  Evolves-update-update p q f g [] a = tt
  Evolves-update-update p q f g (r ∷ ps) a = (a.0, Evolves-update-update p q f g ps a.1)

  All-Step-close :
      (id : ℕ) (ps : List Pairing)
      → All
          (λ p. Step env u p (
            changed
              (is_closable (begin env u) id)
              (λ q. record q { closed_at = some env.db_now; closed_by = some u })
              p))
          ps
  All-Step-close id [] = tt
  All-Step-close id (p ∷ ps) = (Step-close env u id p, All-Step-close id ps)

  insert_pairing-Evolves :
      (id a b : ℕ) (event_id : Option ℕ) (opens_at expires_at : ℕ) (db t : Db)
      → insert_pairing (begin env u) id a b event_id opens_at expires_at db ≡ inserted t
      → Evolves env u db.pairings t.pairings
  unfolding new_pairing
  insert_pairing-Evolves id a b event_id opens_at expires_at db t h =
      let (same, own, ordered, window, _) =
        insert_pairing-inserted (begin env u) id a b event_id opens_at expires_at db t h in
      rw same (
        Evolves-insert db.pairings _ (record {
          ordered = ordered;
          window = window;
          own = own;
          unanswered = (refl, refl);
          unopened = (refl, refl);
        }))

  abbrev Admits : Bool → Pairing → Type 0
  Admits b p =
      IsAnswerable env.now p
      × ((p.lower_user_id ≡ u) ⊎ (b ≡ false))
      × ((p.upper_user_id ≡ u) ⊎ (b ≡ true))

  -- The guards of `decide` hold of the row that they read.
  admitted :
      (id : ℕ) (db : Db) (p : Pairing)
      → check_status (status (pairing_columns u db p) env.now) ≡ ok tt
      → is_own u id p ≡ true
      → Admits (is_lower (pairing_columns u db p) u) p
  unfolding pairing_columns check_status status is_lower
  admitted id db p h own = ground arith

  -- That row is the only one that the updates touch.
  check_decide-Admits :
      (id : ℕ) (req : DecisionRequest) (db : Db) {d : Decision} {row : PairingRow}
      → Distinct same_key db.pairings
      → check_decide env u id req db ≡ ok (d, row)
      → All (λ q. is_own u id q ≡ true → Admits (is_lower row u) q) db.pairings
  unfolding get_for_user
  check_decide-Admits id req db {d} {row} distinct e =
      let (_, got, open_now) = check_decide-ok env u id req db e in
      elim (Option-cases (find (is_own u id) db.pairings)) [
        | inl missing ↦ cc (rw missing at got)
        | inr (p, found) ↦
            let same : pairing_columns u db p ≡ row = Option.some-injective _ _ (rw found at got) in
            let (_, own) =
              All-find (λ q. Unit {0}) (is_own u id) db.pairings (All-true db.pairings) found in
            let here : Admits (is_lower row u) p =
              subst (λ r. Admits (is_lower r u) p) same
                (admitted id db p (rw (← same) at open_now) own) in
            All-map (λ q. is_own u id q ≡ true → q ≡ p)
              (λ q. is_own u id q ≡ true → Admits (is_lower row u) q) db.pairings
              (λ q only own'. subst (Admits (is_lower row u)) (sym (only own')) here)
              (All-of_find same_key (is_own u id) db.pairings (λ a b h k. ground arith) distinct
                found)
      ]

  All-Step-decide :
      (id : ℕ) (b : Bool) (d : Decision) (ps : List Pairing)
      → All (λ q. is_own u id q ≡ true → Admits b q) ps
      → All
          (λ p. Step env u p (
            changed
              (is_mutual (begin env u) id)
              (λ q. record q { opened_at = some env.db_now })
              (changed (is_own u id) (decide_row b d env.db_now) p)))
          ps
  All-Step-decide id b d [] a = tt
  All-Step-decide id b d (p ∷ ps) a =
      (Step-decide env u id b d p a.0, All-Step-decide id b d ps a.1)

  -- In a table without two rows of one id or of the same two users, any request of anybody takes
  -- each pairing by one permitted step: answers are written by their own side only, on a channel
  -- or inside the window; a channel opens only on two yeses inside the window and never unopens;
  -- only a participant closes, and once. No pairing is lost, and at most one is added,
  -- unanswered.
  pub serve-Evolves :
      (c : Crypto) (cfg : Config) (req : Request) (db : Db)
      → Distinct same_key db.pairings
      → Evolves env u db.pairings (serve c cfg env u req db).1.pairings
  unfolding burn_nonce
  serve-Evolves c cfg req db distinct =
      serve-cases c cfg env u db (λ _ ps. Evolves env u db.pairings ps) (Evolves-refl db.pairings)
        (λ _. Evolves-refl db.pairings)
        (λ id. Evolves-update _ _ db.pairings (All-Step-close id db.pairings))
        (λ id req d row e. Evolves-update-update _ _ _ _ db.pairings (
          All-Step-decide id (is_lower row u) d db.pairings
            (check_decide-Admits id req db distinct e)))
        (λ nonce b event_id opens_at expires_at t e.
          insert_pairing-Evolves env.uuid u b event_id opens_at expires_at _ t e)
        req
