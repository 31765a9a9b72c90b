-- ===== src/Pairings/Types.antt =====
-- src/domain/pairings/types.rs and the tables of migrations/0015_pairings.sql.
use box_fraise_server.Prelude.{ℕ, Bool, Option, none, some, is_some, leb, ltb, ◌==◌, if◌then◌else◌}
use box_fraise_server.Prelude.Text.{Text}

-- The values that the CHECK constraints leave to a decision column: 'yes' and 'no'.
pub data Decision : Type 0 where
  says_yes says_no : Decision

-- A row of `pairings`.
pub record Pairing : Type 0 where
  pub id : ℕ
  pub lower_user_id : ℕ
  pub upper_user_id : ℕ
  pub event_id : Option ℕ
  pub met_at : ℕ
  pub opens_at : ℕ
  pub expires_at : ℕ
  pub lower_decision : Option Decision
  pub upper_decision : Option Decision
  pub lower_decided_at : Option ℕ
  pub upper_decided_at : Option ℕ
  pub opened_at : Option ℕ
  pub closed_at : Option ℕ
  pub closed_by : Option ℕ

-- A row of `pairing_nonces`.
pub record PairingNonce : Type 0 where
  pub nonce : Text
  pub initiator_id : ℕ
  pub event_id : Option ℕ
  pub issued_at : ℕ
  pub expires_at : ℕ
  pub used_at : Option ℕ

-- What the queries select; never serialised.
pub record PairingRow : Type 0 where
  pub id : ℕ
  pub lower_user_id : ℕ
  pub upper_user_id : ℕ
  pub lower_decision : Option Decision
  pub upper_decision : Option Decision
  pub met_at : ℕ
  pub opens_at : ℕ
  pub expires_at : ℕ
  pub opened_at : Option ℕ
  pub closed_at : Option ℕ
  pub peer_name : Option Text
  pub event_name : Option Text

-- The five strings of `status`; `opened` is "open".
pub data Status : Type 0 where
  waiting deciding opened lapsed closed : Status

pub record PairingView : Type 0 where
  pub id : ℕ
  pub status : Status
  pub peer_name : Option Text
  pub peer_id : Option ℕ
  pub event_name : Option Text
  pub met_at : ℕ
  pub opens_at : ℕ
  pub expires_at : ℕ
  pub my_decision : Option Decision

unfoldable pub is_lower : PairingRow → ℕ → Bool
is_lower r me = r.lower_user_id == me

unfoldable pub peer_of : PairingRow → ℕ → ℕ
unfolding is_lower
peer_of r me = if is_lower r me then r.upper_user_id else r.lower_user_id

unfoldable pub my_decision : PairingRow → ℕ → Option Decision
unfolding is_lower
my_decision r me = if is_lower r me then r.lower_decision else r.upper_decision

unfoldable pub status : PairingRow → ℕ → Status
status r now =
    if is_some r.closed_at
    then closed
    else if is_some r.opened_at
    then opened
    else if ltb now r.opens_at
    then waiting
    else if leb r.expires_at now
    then lapsed
    else deciding

abbrev pub is_open : Status → Bool
is_open opened = Bool.true
is_open _ = Bool.false

-- `bool::then`
abbrev then_some : Bool → ℕ → Option ℕ
then_some b a = if b then some a else none

unfoldable pub to_view : PairingRow → ℕ → ℕ → PairingView
unfolding status peer_of my_decision
to_view r me now = record {
  id = r.id;
  status = status r now;
  peer_name = r.peer_name;
  peer_id = then_some (is_open (status r now)) (peer_of r me);
  event_name = r.event_name;
  met_at = r.met_at;
  opens_at = r.opens_at;
  expires_at = r.expires_at;
  my_decision = my_decision r me;
}

pub record PairingNonceResponse : Type 0 where
  pub nonce : Text
  pub expires_at : ℕ

pub record ClaimRequest : Type 0 where
  pub nonce : Text
  pub signature_b64 : Text

pub record ClaimInPersonRequest : Type 0 where
  pub nonce : Text

pub record ClaimResponse : Type 0 where
  pub pairing_id : ℕ
  pub opens_at : ℕ

pub record DecisionRequest : Type 0 where
  pub decision : Text

pub record AuthorizedResponse : Type 0 where
  pub authorized : Bool

pub record SetDisplayNameRequest : Type 0 where
  pub display_name : Text
