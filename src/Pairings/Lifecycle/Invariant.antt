-- ===== src/Pairings/Lifecycle/Invariant.antt =====
-- The constraints of the table `pairings` under sequences of requests to src/domain/pairings.
use box_fraise_server.Prelude.{
  ℕ, ◌≡◌, refl, ◌≤◌, ◌<◌, inl, inr, Bool, true, false, ◌||◌, Option, none, some, arith, List, [],
  ◌∷◌, Bool-cases, All, is_some, ◌==◌,
}
use box_fraise_server.Server.{Env, Crypto}
use box_fraise_server.Table.{update}
use box_fraise_server.Table.Laws.{changed}
use box_fraise_server.Table.Distinct.{Distinct, Distinct-insert, Distinct-update, All-of_exists}
use box_fraise_server.Pairings.Types.{Decision, Pairing, is_lower}
use box_fraise_server.Pairings.Repository.{
  Conn, Db, inserted, insert_pairing, between, is_own, is_mutual, is_closable, decide_row,
  new_pairing, burn_nonce, lower_of, upper_of,
}
use box_fraise_server.Pairings.Service.{begin}
use box_fraise_server.Pairings.Inversion.{insert_pairing-inserted}
use box_fraise_server.Pairings.Trace.{Request, Config, serve, run}
use box_fraise_server.Pairings.Lifecycle.Cases.{serve-cases}
use box_fraise_server.Pairings.Lifecycle.Step.{Step}
use box_fraise_server.Pairings.Lifecycle.Evolves.{same_key, IsNew, Evolves, serve-Evolves}

abbrev pub WithinWindow : ℕ → ℕ → Option ℕ → Type 0
WithinWindow opens_at expires_at none = Unit
WithinWindow opens_at expires_at (some t) = (opens_at ≤ t) × (t < expires_at)

abbrev pub BothAnswered : Option ℕ → Pairing → Type 0
BothAnswered none p = Unit
BothAnswered (some t) p = (is_some p.lower_decision ≡ true) × (is_some p.upper_decision ≡ true)

-- The two users stand in order, the window is not empty, and a channel was opened inside it after
-- both had answered.
pub record IsSound (p : Pairing) : Type 0 where
  pub ordered : p.lower_user_id < p.upper_user_id
  pub window : p.opens_at < p.expires_at
  pub opened_within : WithinWindow p.opens_at p.expires_at p.opened_at
  pub answered : BothAnswered p.opened_at p

-- The constraints of the table: one row for an id, one for an unordered pair of users.
pub record IsValid (db : Db) : Type 0 where
  pub distinct : Distinct same_key db.pairings
  pub sound : All IsSound db.pairings

abbrev HasKeysOf : Pairing → Pairing → Type 0
HasKeysOf p q =
    (q.id ≡ p.id) × (q.lower_user_id ≡ p.lower_user_id) × (q.upper_user_id ≡ p.upper_user_id)

same_key-HasKeysOf :
    (p q p' q' : Pairing) → HasKeysOf p p' → HasKeysOf q q' → same_key p' q' ≡ same_key p q
same_key-HasKeysOf p q p' q' (i, l, h) (i', l', h') = rw (i, l, h, i', l', h')

-- A change of a row that keeps its keys, made where a WHERE clause says so.
changed-same_key :
    (p : Pairing → Bool) (f : Pairing → Pairing)
    → ((q : Pairing) → HasKeysOf q (f q))
    → (a b : Pairing) → same_key (changed p f a) (changed p f b) ≡ same_key a b
changed-same_key p f k a b =
    same_key-HasKeysOf a b (changed p f a) (changed p f b) (keys a) (keys b)
  where
    keys : (q : Pairing) → HasKeysOf q (changed p f q)
    keys q = elim (Bool-cases (p q)) [ inl e ↦ rw e (k q) | inr e ↦ rw e (refl, refl, refl) ]

update-Distinct :
    (p : Pairing → Bool) (f : Pairing → Pairing) (ps : List Pairing)
    → ((q : Pairing) → HasKeysOf q (f q))
    → Distinct same_key ps
    → Distinct same_key (update p f ps)
update-Distinct p f ps k = Distinct-update same_key p f ps (changed-same_key p f k)

decide_row-HasKeysOf :
    (b : Bool) (d : Decision) (now : ℕ) (p : Pairing) → HasKeysOf p (decide_row b d now p)
unfolding decide_row
decide_row-HasKeysOf true d now p = (refl, refl, refl)
decide_row-HasKeysOf false d now p = (refl, refl, refl)

same_key_symm : (p q : Pairing) → same_key p q ≡ same_key q p
same_key_symm p q = ground arith

insert-Distinct :
    (conn : Conn) (id a b : ℕ) (event_id : Option ℕ) (opens_at expires_at : ℕ) (db t : Db)
    → insert_pairing conn id a b event_id opens_at expires_at db ≡ inserted t
    → Distinct same_key db.pairings
    → Distinct same_key t.pairings
unfolding new_pairing
insert-Distinct conn id a b event_id opens_at expires_at db t e d =
    let (same, _, _, _, free) =
      insert_pairing-inserted conn id a b event_id opens_at expires_at db t e in
    let p = new_pairing conn id (lower_of a b) (upper_of a b) event_id opens_at expires_at in
    rw same (
      Distinct-insert same_key db.pairings p (λ q. same_key_symm q p) d
        (All-of_exists (λ q. q.id == id || between (lower_of a b) (upper_of a b) q) db.pairings
          free))

module _ (env : Env) (u : ℕ) where
  IsNew-IsSound : (p : Pairing) → IsNew env u p → IsSound p
  IsNew-IsSound p n = ground arith

  Step-IsSound : (p q : Pairing) → Step env u p q → IsSound p → IsSound q
  Step-IsSound p q st h = ground arith

  Evolves-IsSound : (ps qs : List Pairing) → Evolves env u ps qs → All IsSound ps → All IsSound qs
  Evolves-IsSound [] [] e a = tt
  Evolves-IsSound [] (q ∷ []) e a = (IsNew-IsSound q e, tt)
  Evolves-IsSound [] (q ∷ r ∷ qs) e a = absurd e
  Evolves-IsSound (p ∷ ps) [] e a = absurd e
  Evolves-IsSound (p ∷ ps) (q ∷ qs) e a = (Step-IsSound p q e.0 a.0, Evolves-IsSound ps qs e.1 a.1)

  serve-Distinct :
      (c : Crypto) (cfg : Config) (req : Request) (db : Db)
      → Distinct same_key db.pairings
      → Distinct same_key (serve c cfg env u req db).1.pairings
  unfolding burn_nonce
  serve-Distinct c cfg req db d =
      let conn = begin env u in
      serve-cases c cfg env u db (λ _ ps. Distinct same_key ps) d (λ _. d)
        (λ id.
          update-Distinct (is_closable conn id)
            (λ q. record q { closed_at = some env.db_now; closed_by = some u }) db.pairings
            (λ q. (refl, refl, refl)) d)
        (λ id _ answered row _.
          let write = decide_row (is_lower row u) answered env.db_now in
          update-Distinct (is_mutual conn id) (λ q. record q { opened_at = some env.db_now })
            (update (is_own u id) write db.pairings) (λ q. (refl, refl, refl))
            (update-Distinct (is_own u id) write db.pairings
              (decide_row-HasKeysOf (is_lower row u) answered env.db_now) d))
        (λ nonce b event_id opens_at expires_at t e.
          insert-Distinct (begin env u) env.uuid u b event_id opens_at expires_at _ t e d)
        req

  -- Any request keeps the table valid.
  pub serve-IsValid :
      (c : Crypto) (cfg : Config) (req : Request) (db : Db)
      → IsValid db
      → IsValid (serve c cfg env u req db).1
  serve-IsValid c cfg req db v = record {
    distinct = serve-Distinct c cfg req db v.distinct;
    sound = Evolves-IsSound db.pairings _ (serve-Evolves env u c cfg req db v.distinct) v.sound;
  }

-- Any sequence of requests, by anybody and at any times, takes a valid table of pairings to a
-- valid one: one row for an id and for two users, the users in order, the window not empty, and
-- every channel opened inside the window after both had answered.
pub run-IsValid :
    (c : Crypto) (cfg : Config) (requests : List (Env × ℕ × Request)) (db : Db)
    → IsValid db
    → IsValid (run c cfg requests db)
unfolding run
run-IsValid c cfg [] db v = v
run-IsValid c cfg ((env, u, req) ∷ rest) db v =
    run-IsValid c cfg rest _ (serve-IsValid env u c cfg req db v)
