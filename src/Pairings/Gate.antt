-- ===== src/Pairings/Gate.antt =====
-- Who may talk to whom: `authorized` against the life of the one pairing of two users.
use mathlib.Core.List.{Memᴰ}
use box_fraise_server.Prelude.{
  ℕ, ◌≡◌, ◌↔◌, ◌⊎◌, ◌≤◌, ◌<◌, refl, sym, ap, ◌∙◌, inl, inr, Bool, true, false, ◌&&◌, ◌||◌, Option,
  none, some, arith, List, [], ◌∷◌, is_some, ◌==◌, if◌then◌else◌, Bool-cases, Option-cases,
}
use box_fraise_server.Errors.{Result, ok, err}
use box_fraise_server.Table.{find, exists}
use box_fraise_server.Table.Laws.{All-find}
use box_fraise_server.Table.Rows.{exists_of_row, row_of_exists, All-row}
use box_fraise_server.Table.Distinct.{Distinct}
use box_fraise_server.Pairings.Types.{Pairing, AuthorizedResponse}
use box_fraise_server.Pairings.Repository.{
  Db, between, is_channel, is_authorized, lower_of, upper_of,
}
use box_fraise_server.Pairings.Service.{authorized}
use box_fraise_server.Pairings.Lifecycle.Evolves.{same_key}
use box_fraise_server.Pairings.Lifecycle.Invariant.{IsSound, IsValid}
use box_fraise_server.Pairings.Lifecycle.Final.{apart-exists}

-- The abstract view: two users have one pairing or none, and may talk if it is a channel.
abbrev pub may_talk : Option Pairing → Bool
may_talk none = false
may_talk (some p) = is_channel p

pub pairing_of : ℕ → ℕ → Db → Option Pairing
pairing_of a b db = find (between (lower_of a b) (upper_of a b)) db.pairings

exists-may_talk :
    (lower upper : ℕ) (ps : List Pairing)
    → Distinct same_key ps
    → exists (λ p. between lower upper p && is_channel p) ps
      ≡ may_talk (find (between lower upper) ps)
unfolding exists find
exists-may_talk lower upper [] d = refl
exists-may_talk lower upper (p ∷ ps) d = elim (Bool-cases (between lower upper p)) [
  | inl e ↦ rw (e, apart-exists lower upper is_channel p ps e d.0) (or_false (is_channel p))
  | inr e ↦ rw e (exists-may_talk lower upper ps d.1)
]
  where
    or_false : (b : Bool) → (b || false) ≡ b
    or_false b = ground arith

authorized-may_talk :
    (me peer : ℕ) (db : Db)
    → IsValid db
    → authorized me peer db
      ≡ ok (record { authorized = if me == peer then false else may_talk (pairing_of me peer db) })
unfolding authorized is_authorized pairing_of
authorized-may_talk me peer db v = elim (Bool-cases (me == peer)) [
  | inl e ↦ rw e
  | inr e ↦ rw (e, exists-may_talk (lower_of me peer) (upper_of me peer) db.pairings v.distinct)
]

verdict : Result AuthorizedResponse → Bool
verdict (ok r) = r.authorized
verdict (err e) = false

-- What both agreed to.
pub record IsConsented (a b : ℕ) (p : Pairing) : Type 0 where
  pub lower : p.lower_user_id ≡ lower_of a b
  pub upper : p.upper_user_id ≡ upper_of a b
  pub answered : (is_some p.lower_decision ≡ true) × (is_some p.upper_decision ≡ true)
  pub opened : (t : ℕ) × (p.opened_at ≡ some t) × (p.opens_at ≤ t) × (t < p.expires_at)
  pub unclosed : p.closed_at ≡ none

channel-IsConsented :
    (a b : ℕ) (p : Pairing)
    → IsSound p
    → between (lower_of a b) (upper_of a b) p ≡ true
    → is_channel p ≡ true
    → IsConsented a b p
channel-IsConsented a b p sound pair h = elim (Option-cases p.opened_at) [
  | inl e ↦ cc (rw e at h)
  | inr (t, e) ↦
      let within = rw e at sound.opened_within in
      let both = rw e at sound.answered in
      record {
        lower = ground arith;
        upper = ground arith;
        answered = both;
        opened = (t, e, within.0, within.1);
        unclosed = ground arith;
      }
]

-- In a valid table, `authorized` says yes only by the one pairing of the two, if both have
-- answered it, it was opened after the cooling period and before it lapsed, and nobody has
-- closed it.
pub authorized-IsConsented :
    (me peer : ℕ) (db : Db)
    → IsValid db
    → authorized me peer db ≡ ok (record { authorized = true })
    → (p : Pairing) × (pairing_of me peer db ≡ some p) × IsConsented me peer p
unfolding pairing_of verdict
authorized-IsConsented me peer db v h = elim (Option-cases (pairing_of me peer db)) [
  | inl e ↦ cc (rw e at may)
  | inr (p, e) ↦
      let (sound, pair) =
        All-find IsSound (between (lower_of me peer) (upper_of me peer)) db.pairings v.sound e in
      (p, e, channel-IsConsented me peer p sound pair (rw e at may))
]
  where
    said :
        (b : Bool)
        → authorized me peer db ≡ ok (record { authorized = if me == peer then false else b })
        → b ≡ true
    said b k = let same = ap verdict (sym h ∙ k) in ground (arith, same)

    may : may_talk (pairing_of me peer db) ≡ true
    may = said (may_talk (pairing_of me peer db)) (authorized-may_talk me peer db v)

-- The two are the sides of a pairing, which has been opened and which nobody has closed.
pub record IsLive (a b : ℕ) (p : Pairing) : Type 0 where
  pub sides :
      ((p.lower_user_id ≡ a) × (p.upper_user_id ≡ b))
      ⊎ ((p.lower_user_id ≡ b) × (p.upper_user_id ≡ a))
  pub opened : (t : ℕ) × (p.opened_at ≡ some t)
  pub unclosed : p.closed_at ≡ none

-- A live pairing of two users is theirs in the order of the table, and a channel.
live-is_channel :
    (a b : ℕ) (p : Pairing)
    → p.lower_user_id < p.upper_user_id
    → IsLive a b p
    → (between (lower_of a b) (upper_of a b) p ≡ true) × (is_channel p ≡ true) × ((a == b) ≡ false)
live-is_channel a b p ordered live =
    let (t, opened) = live.opened in
    let unclosed = live.unclosed in
    elim live.sides [
      | inl (l, u) ↦ (
        ground (arith, l, u, ordered),
        ground (arith, opened, unclosed),
        ground (arith, l, u, ordered),
      )
      | inr (l, u) ↦ (
        ground (arith, l, u, ordered),
        ground (arith, opened, unclosed),
        ground (arith, l, u, ordered),
      )
    ]

channel-IsLive :
    (a b : ℕ) (p : Pairing)
    → between (lower_of a b) (upper_of a b) p ≡ true
    → is_channel p ≡ true
    → IsLive a b p
channel-IsLive a b p pair h = elim (Option-cases p.opened_at) [
  | inl e ↦ cc (rw e at h)
  | inr (t, e) ↦ record {
    sides = ground (arith, pair);
    opened = (t, e);
    unclosed = ground (arith, h);
  }
]

-- In a valid table, `authorized` says yes exactly if the two are the sides, in whichever order, of
-- a pairing of the table that has been opened and that nobody has closed.
pub authorized-IsLive :
    (me peer : ℕ) (db : Db)
    → IsValid db
    → (authorized me peer db ≡ ok (record { authorized = true }))
      ↔ ((p : Pairing) × Memᴰ p db.pairings × IsLive me peer p)
unfolding authorized is_authorized
authorized-IsLive me peer db v = (
  λ h.
      let gate : exists accepts db.pairings ≡ true = ground (arith, ap verdict h) in
      let (p, m, k) = row_of_exists accepts db.pairings gate in
      let both : (between (lower_of me peer) (upper_of me peer) p ≡ true) × (is_channel p ≡ true) =
        ground (arith, k) in
      (p, m, channel-IsLive me peer p both.0 both.1),
  λ (p, m, live).
      let (pair, channel, apart) =
        live-is_channel me peer p (All-row IsSound db.pairings v.sound m).ordered live in
      let gate = exists_of_row accepts db.pairings m (ground (arith, pair, channel)) in
      rw (apart, gate) refl,
)
  where
    accepts : Pairing → Bool
    accepts p = between (lower_of me peer) (upper_of me peer) p && is_channel p
