-- ===== src/Adverts/Types.antt =====
-- src/domain/adverts/types.rs, and the tables of migrations/0039 to 0044 that it is about.
use box_fraise_server.Prelude.{ℕ, Bool, true, false, Option, List}
use box_fraise_server.Prelude.Integers.{ℤ}
use box_fraise_server.Prelude.Text.{Text}
use box_fraise_server.Server.{AuditEvent}

pub data AdvertStatus : Type 0 where
  open_status closed_status : AdvertStatus

abbrev pub is_open : AdvertStatus → Bool
is_open open_status = true
is_open closed_status = false

-- A row of `adverts`.
pub record Advert : Type 0 where
  pub id : ℕ
  pub advertiser_id : ℕ
  pub advertiser : Text
  pub teaser : Text
  pub body : Text
  pub link : Option Text
  pub price_cents : ℕ
  pub pays_cents : ℕ
  pub opens_paid : ℕ
  pub opens_taken : ℕ
  pub status : AdvertStatus
  pub paid_at : Option ℕ
  pub created_at : ℕ

-- A row of `ad_opens`: the receipt of one open.
pub record AdOpen : Type 0 where
  pub id : ℕ
  pub advert_id : ℕ
  pub runner_id : ℕ
  pub amount_cents : ℕ
  pub opened_at : ℕ
  pub paid_at : Option ℕ

-- A row of `ad_declines`.
pub record AdDecline : Type 0 where
  pub id : ℕ
  pub advert_id : ℕ
  pub runner_id : ℕ
  pub declined_at : ℕ

-- A row of `advertisers`.
pub record Advertiser : Type 0 where
  pub id : ℕ
  pub name : Text
  pub contact : Option Text
  pub created_at : ℕ

pub data RequestStatus : Type 0 where
  pending accepted : RequestStatus

-- A row of `advert_requests`, which is also `AdminRequest`.
pub record AdminRequest : Type 0 where
  pub id : ℕ
  pub advertiser : Text
  pub contact : Text
  pub teaser : Text
  pub body : Text
  pub link : Option Text
  pub opens_wanted : ℕ
  pub status : RequestStatus
  pub created_at : ℕ

pub record Runner : Type 0 where
  pub id : ℕ
  pub username : Text

pub record Db : Type 0 where
  pub adverts : List Advert
  pub ad_opens : List AdOpen
  pub ad_declines : List AdDecline
  pub advertisers : List Advertiser
  pub advert_requests : List AdminRequest
  pub runners : List Runner
  pub audit_events : List AuditEvent

pub record Unopened : Type 0 where
  pub id : ℕ
  pub advertiser : Text
  pub teaser : Text
  pub pays_cents : ℕ

pub record Inbox : Type 0 where
  pub adverts : List Unopened
  pub owed_cents : ℕ
  pub paid_cents : ℕ
  pub opens_left : ℕ
  pub daily_limit : ℕ

pub record Opened : Type 0 where
  pub advertiser : Text
  pub body : Text
  pub link : Option Text
  pub amount_cents : ℕ
  pub owed_cents : ℕ

pub record NewAdvert : Type 0 where
  pub advertiser : Text
  pub teaser : Text
  pub body : Text
  pub link : Option Text
  pub price_cents : Option ℤ
  pub pays_cents : Option ℤ
  pub opens_paid : ℤ

pub record NewRequest : Type 0 where
  pub advertiser : Text
  pub contact : Text
  pub teaser : Text
  pub body : Text
  pub link : Option Text
  pub opens_wanted : ℤ

pub record AdminAdvert : Type 0 where
  pub id : ℕ
  pub advertiser_id : ℕ
  pub advertiser : Text
  pub teaser : Text
  pub price_cents : ℕ
  pub pays_cents : ℕ
  pub opens_paid : ℕ
  pub opens_taken : ℕ
  pub status : AdvertStatus

pub record Owed : Type 0 where
  pub username : Text
  pub owed_cents : ℕ
  pub opens : ℕ

pub record PayRequest : Type 0 where
  pub username : Text

pub record Paid : Type 0 where
  pub username : Text
  pub amount_cents : ℕ
  pub opens : ℕ

pub record LedgerRow : Type 0 where
  pub name : Text
  pub advert_id : ℕ
  pub teaser : Text
  pub price_cents : ℕ
  pub pays_cents : ℕ
  pub opens_paid : ℕ
  pub opens_taken : ℕ
  pub status : AdvertStatus
  pub paid_at : Option ℕ
  pub created_at : ℕ

pub record Ledger : Type 0 where
  pub name : Text
  pub spent_cents : ℕ
  pub opens_bought : ℕ
  pub opens_taken : ℕ
  pub to_readers_cents : ℕ
  pub adverts : List LedgerRow
