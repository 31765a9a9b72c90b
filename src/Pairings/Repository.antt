-- ===== src/Pairings/Repository.antt =====
-- src/domain/pairings/repository.rs: one function for each statement. A `Conn` is a transaction
-- begun by `RlsTransaction::begin`: the user that its policies see, and its `now()`.
use box_fraise_server.Prelude.{
  ℕ, Bool, true, false, not, ◌&&◌, ◌||◌, Option, none, some, List, [], ◌∷◌, ◌++◌, map, is_some,
  is_none, leb, ltb, ◌==◌, if◌then◌else◌,
}
use box_fraise_server.Prelude.Text.{Text, text_eq}
use box_fraise_server.Server.{AuditEvent, Bytes}
use box_fraise_server.Table.{find, select, exists, count, update, order_desc}
use box_fraise_server.Pairings.Types.{
  Decision, says_yes, says_no, Pairing, PairingNonce, PairingRow,
}

pub record Conn : Type 0 where
  pub user : ℕ
  pub now : ℕ

pub record User : Type 0 where
  pub id : ℕ
  pub display_name : Option Text

pub record DeviceKey : Type 0 where
  pub user_id : ℕ
  pub public_key : Bytes

pub record Event : Type 0 where
  pub id : ℕ
  pub name : Text

-- The tables that the module reads or writes.
pub record Db : Type 0 where
  pub pairing_nonces : List PairingNonce
  pub pairings : List Pairing
  pub users : List User
  pub device_keys : List DeviceKey
  pub events : List Event
  pub audit_events : List AuditEvent

abbrev pub is_yes : Option Decision → Bool
is_yes (some says_yes) = true
is_yes (some says_no) = false
is_yes none = false

-- `lower_user_id = u OR upper_user_id = u`: the WHERE clauses, and the policies
-- `pairings_participant_select` and `pairings_participant_update`.
abbrev pub involves : ℕ → Pairing → Bool
involves u p = p.lower_user_id == u || p.upper_user_id == u

abbrev pub between : ℕ → ℕ → Pairing → Bool
between a b p = p.lower_user_id == a && p.upper_user_id == b

abbrev null_text : Option User → Option Text
null_text none = none
null_text (some u) = u.display_name

-- The function of migration 0015, which tells a name only to somebody who is paired.
unfoldable pub bf_peer_display_name : ℕ → ℕ → Db → Option Text
bf_peer_display_name viewer peer db =
    if exists (λ p. between viewer peer p || between peer viewer p) db.pairings
    then null_text (find (λ u. u.id == peer) db.users)
    else none

abbrev null_name : Option Event → Option Text
null_name none = none
null_name (some e) = some e.name

abbrev joined_event : Option ℕ → Db → Option Text
joined_event none db = none
joined_event (some e) db = null_name (find (λ r. r.id == e) db.events)

-- `PAIRING_COLUMNS` over `PAIRING_FROM`.
unfoldable pub pairing_columns : ℕ → Db → Pairing → PairingRow
pairing_columns me db p = record {
  id = p.id;
  lower_user_id = p.lower_user_id;
  upper_user_id = p.upper_user_id;
  lower_decision = p.lower_decision;
  upper_decision = p.upper_decision;
  met_at = p.met_at;
  opens_at = p.opens_at;
  expires_at = p.expires_at;
  opened_at = p.opened_at;
  closed_at = p.closed_at;
  peer_name =
      bf_peer_display_name me (if p.lower_user_id == me then p.upper_user_id else p.lower_user_id)
        db;
  event_name = joined_event p.event_id db;
}

-- `none` is a violation of the primary key.
unfoldable pub insert_nonce : Conn → Text → ℕ → Option ℕ → ℕ → Db → Option Db
insert_nonce conn nonce initiator_id event_id expires_at db =
    if exists (λ n. text_eq n.nonce nonce) db.pairing_nonces || not (initiator_id == conn.user)
    then none
    else some (record db {
      pairing_nonces =
          db.pairing_nonces
          ++ record {
            nonce = nonce;
            initiator_id = initiator_id;
            event_id = event_id;
            issued_at = conn.now;
            expires_at = expires_at;
            used_at = none;
          }
            ∷ [];
    })

unfoldable pub get_nonce : Text → Db → Option PairingNonce
get_nonce nonce db = find (λ n. text_eq n.nonce nonce) db.pairing_nonces

abbrev pub is_unused : Text → PairingNonce → Bool
is_unused nonce n = text_eq n.nonce nonce && is_none n.used_at

unfoldable pub burn_nonce : Conn → Text → Db → Bool × Db
burn_nonce conn nonce db = (
  exists (is_unused nonce) db.pairing_nonces,
  record db {
    pairing_nonces =
        update (is_unused nonce) (λ n. record n { used_at = some conn.now }) db.pairing_nonces;
  },
)

-- How an INSERT into `pairings` ends: a refusal by a CHECK or a policy is an error, a
-- `unique_violation` is caught; after either the transaction can only be rolled back.
pub data Insert : Type 0 where
  inserted : Db → Insert
  unique_violation refused : Insert

unfoldable pub new_pairing : Conn → ℕ → ℕ → ℕ → Option ℕ → ℕ → ℕ → Pairing
new_pairing conn id lower upper event_id opens_at expires_at = record {
  id = id;
  lower_user_id = lower;
  upper_user_id = upper;
  event_id = event_id;
  met_at = conn.now;
  opens_at = opens_at;
  expires_at = expires_at;
  lower_decision = none;
  upper_decision = none;
  lower_decided_at = none;
  upper_decided_at = none;
  opened_at = none;
  closed_at = none;
  closed_by = none;
}

abbrev pub lower_of : ℕ → ℕ → ℕ
lower_of a b = if ltb a b then a else b

abbrev pub upper_of : ℕ → ℕ → ℕ
upper_of a b = if ltb a b then b else a

-- `id` is what `gen_random_uuid()` hands out.
unfoldable pub insert_pairing : Conn → ℕ → ℕ → ℕ → Option ℕ → ℕ → ℕ → Db → Insert
unfolding new_pairing
insert_pairing conn id a b event_id opens_at expires_at db =
    let p = new_pairing conn id (lower_of a b) (upper_of a b) event_id opens_at expires_at in
    if not
      (involves conn.user p && ltb p.lower_user_id p.upper_user_id && ltb p.opens_at p.expires_at)
    then refused
    else if exists (λ q. q.id == id || between p.lower_user_id p.upper_user_id q) db.pairings
    then unique_violation
    else inserted (record db { pairings = db.pairings ++ p ∷ [] })

unfoldable pub list_for_user : ℕ → Db → List PairingRow
list_for_user me db =
    map (pairing_columns me db) (order_desc (λ p. p.met_at) (select (involves me) db.pairings))

abbrev pub is_own : ℕ → ℕ → Pairing → Bool
is_own me id p = p.id == id && involves me p

abbrev columns_of : ℕ → Db → Option Pairing → Option PairingRow
columns_of me db none = none
columns_of me db (some p) = some (pairing_columns me db p)

unfoldable pub get_for_user : ℕ → ℕ → Db → Option PairingRow
get_for_user me id db = columns_of me db (find (is_own me id) db.pairings)

unfoldable pub decide_row : Bool → Decision → ℕ → Pairing → Pairing
decide_row true d now p = record p { lower_decision = some d; lower_decided_at = some now }
decide_row false d now p = record p { upper_decision = some d; upper_decided_at = some now }

unfoldable pub set_decision : Conn → ℕ → Bool → Decision → Db → Db
set_decision conn id is_lower decision db = record db {
  pairings = update (is_own conn.user id) (decide_row is_lower decision conn.now) db.pairings;
}

unfoldable pub is_mutual : Conn → ℕ → Pairing → Bool
is_mutual conn id p =
    is_own conn.user id p
    && is_none p.opened_at
    && is_none p.closed_at
    && leb p.opens_at conn.now
    && ltb conn.now p.expires_at
    && is_yes p.lower_decision
    && is_yes p.upper_decision

-- The source also returns `opened_at`, which its caller drops.
unfoldable pub open_if_mutual : Conn → ℕ → Db → Db
open_if_mutual conn id db = record db {
  pairings = update (is_mutual conn id) (λ p. record p { opened_at = some conn.now }) db.pairings;
}

abbrev pub is_closable : Conn → ℕ → Pairing → Bool
is_closable conn id p = is_own conn.user id p && is_none p.closed_at

unfoldable pub close : Conn → ℕ → ℕ → Db → Bool × Db
close conn id by db = (
  exists (is_closable conn id) db.pairings,
  record db {
    pairings =
        update (is_closable conn id)
          (λ p. record p { closed_at = some conn.now; closed_by = some by }) db.pairings;
  },
)

-- A channel: opened, and not closed since.
abbrev pub is_channel : Pairing → Bool
is_channel p = is_some p.opened_at && is_none p.closed_at

unfoldable pub is_authorized : ℕ → ℕ → Db → Bool
is_authorized a b db =
    exists (λ p. between (lower_of a b) (upper_of a b) p && is_channel p) db.pairings

abbrev pub is_pending : Conn → ℕ → Pairing → Bool
is_pending conn me p =
    involves me p && is_none p.opened_at && is_none p.closed_at && ltb conn.now p.expires_at

unfoldable pub pending_count_for : Conn → ℕ → Db → ℕ
pending_count_for conn me db = count (is_pending conn me) db.pairings

unfoldable pub set_display_name : ℕ → Text → Db → Db
set_display_name me name db = record db {
  users = update (λ u. u.id == me) (λ u. record u { display_name = some name }) db.users;
}

unfoldable pub public_keys_for : ℕ → Db → List Bytes
public_keys_for me db = map (λ k. k.public_key) (select (λ k. k.user_id == me) db.device_keys)
