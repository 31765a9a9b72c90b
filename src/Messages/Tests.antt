-- ===== src/Messages/Tests.antt =====
-- Requests to src/domain/messages over an open pairing of the members 1 and 2.
use mathlib.Core.Option
use box_fraise_server.Messages.Types.{Message, Channel, MessageRow, SendMessageRequest, MemberKey}
use mathlib.Core.List.{Memᴰ}
use box_fraise_server.Prelude.{
  List, sym, ◌↔◌, ℕ, ◌≡◌, refl, true, false, none, some, arith, [], ◌∷◌, ◌==◌, ◌⊎◌, ◌&&◌,
}
use box_fraise_server.Messages.Repository.{
  insert_message, bf_pairing_is_open_for, new_message, is_visible_key,
}
use box_fraise_server.Messages.Service.{conclude_send, check_message, send, list, peer_key}
use box_fraise_server.Errors.{AppError, ok, err}
use box_fraise_server.Server.{Env, Bytes, Crypto}
use box_fraise_server.Table.{find, exists}
use box_fraise_server.Pairings.Types.{says_yes, Pairing}
use box_fraise_server.Pairings.Repository.{get_for_user, pairing_columns}
use box_fraise_server.Pairings.Service.{block}
use box_fraise_server.Pairings.Trace.{Config, run}
use box_fraise_server.Pairings.Lifecycle.Invariant.{IsSound, IsValid}
use box_fraise_server.Messages.Access.{IsOpenTo, channel-IsOpenTo}
use box_fraise_server.Messages.Reading.{IsCanonical, send-list}
use box_fraise_server.Table.Holding.{Holds}
use box_fraise_server.Messages.Keys.{is_connected, peer_key-ok}
use box_fraise_server.Messages.Repository
use box_fraise_server.Messages.Blocking.{block-silences}

-- Base64 that is the identity.
abbrev crypto : Crypto
crypto = record {
  url_safe_no_pad = λ t. some t;
  url_safe = λ t. some t;
  standard = λ t. some t;
  encode_url_safe_no_pad = λ b. b;
  public_key_from_sec1 = λ b. some b;
  signature_from_der = λ b. some b;
  normalize_s = λ b. none;
  verify = λ k n s. true;
}

abbrev config : Config
config = record { pairing_cooling = 10; pairing_window = 90 }

abbrev at_time : ℕ → Env
at_time t = record {
  now = t;
  later = t;
  db_now = t;
  uuid = 70;
  other_uuid = 71;
  nonce = [];
  audit_up = true;
}

abbrev friends : Pairing
friends = record {
  id = 7;
  lower_user_id = 1;
  upper_user_id = 2;
  event_id = none;
  met_at = 0;
  opens_at = 10;
  expires_at = 100;
  lower_decision = some says_yes;
  upper_decision = some says_yes;
  lower_decided_at = some 12;
  upper_decided_at = some 20;
  opened_at = some 20;
  closed_at = none;
  closed_by = none;
}

abbrev twelve : Bytes
twelve = 0 ∷ 0 ∷ 0 ∷ 0 ∷ 0 ∷ 0 ∷ 0 ∷ 0 ∷ 0 ∷ 0 ∷ 0 ∷ 0 ∷ []

abbrev words : Bytes
words = 1 ∷ 2 ∷ 3 ∷ 4 ∷ 5 ∷ 0 ∷ 0 ∷ 0 ∷ 0 ∷ 0 ∷ 0 ∷ 0 ∷ 0 ∷ 0 ∷ 0 ∷ 0 ∷ 0 ∷ []

abbrev saying : SendMessageRequest
saying = record { ciphertext = words; iv = twelve }

abbrev said : MessageRow
said = record {
  id = 60;
  pairing_id = 7;
  sender_id = 1;
  ciphertext = words;
  iv = twelve;
  created_at = 30;
}

abbrev channel : Channel
channel = record {
  base = record {
    pairing_nonces = [];
    pairings = friends ∷ [];
    users = [];
    device_keys = [];
    events = [];
    audit_events = [];
  };
  member_keys = [];
  messages = said ∷ [];
}

friends-IsSound : IsSound friends
friends-IsSound = ground arith

channel-IsValid : IsValid channel.base
channel-IsValid = record { distinct = (tt, tt); sound = (friends-IsSound, tt) }

channel-IsOpenTo_example :
    ((m : Message) (ms : List Message)
      → list crypto (at_time 40) 2 7 channel ≡ ok (m ∷ ms)
      → (p : Pairing) × Memᴰ p (friends ∷ []) × IsOpenTo 2 7 p)
    × ((req : SendMessageRequest)
        → ((r : Message) × ((send crypto (at_time 40) 2 7 req channel).0 ≡ ok r)) ↔ (
            ((p : Pairing) × Memᴰ p (friends ∷ []) × IsOpenTo 2 7 p)
            × ((x : Bytes × Bytes) × (check_message crypto req ≡ ok x))
            × (exists (λ m. m.id == 70) (said ∷ []) ≡ false)))
channel-IsOpenTo_example = channel-IsOpenTo crypto (at_time 40) 2 7 channel

first_open : bf_pairing_is_open_for 7 1 channel.base.pairings ≡ true
unfolding bf_pairing_is_open_for exists
first_open = refl

second_open : bf_pairing_is_open_for 7 2 channel.base.pairings ≡ true
unfolding bf_pairing_is_open_for exists
second_open = refl

checked : check_message crypto saying ≡ ok (words, twelve)
unfolding check_message
checked = refl

unused : exists (λ m. m.id == 70) channel.messages ≡ false
unfolding exists
unused = refl

get_friends : get_for_user 2 7 channel.base ≡ some (pairing_columns 2 channel.base friends)
unfolding get_for_user find
get_friends = refl

block-silences_example :
    let t = record channel {
      base = run crypto config [] (block (at_time 50) 2 7 channel.base).1;
    } in
    (list crypto (at_time 60) 1 7 t ≡ ok [])
    × ((e : AppError) × (send crypto (at_time 60) 1 7 saying t ≡ (err e, t)))
block-silences_example =
    block-silences crypto config (at_time 50) (at_time 60) 2 1 7
      (pairing_columns 2 channel.base friends) channel channel-IsValid get_friends [] saying

canonical : IsCanonical crypto
canonical s b e = sym (Option.some-injective s b e)

taken :
    (send crypto (at_time 40) 2 7 saying channel).0
    ≡ ok (record { id = 70; sender_id = 2; ciphertext = words; iv = twelve; created_at = 40 })
unfolding send insert_message conclude_send check_message bf_pairing_is_open_for exists
taken = refl

send-list_example :
    (ms : List Message) × (list crypto
        (at_time 45)
        1
        7
        (send crypto (at_time 40) 2 7 saying channel).1
      ≡ ok ms)
    × Holds (record { id = 70; sender_id = 2; ciphertext = words; iv = twelve; created_at = 40 }) ms
send-list_example =
    send-list crypto (at_time 40) 2 7 saying channel (at_time 45) 1 canonical first_open taken

abbrev keyed : Channel
keyed = record channel {
  member_keys = record { user_id = 1; public_key = words; created_at = 3 } ∷ [];
}

key_shown : peer_key crypto (at_time 40) 2 1 keyed ≡ ok (record { public_key = words })
unfolding peer_key Repository.peer_key is_visible_key find exists
key_shown = refl

peer_key-ok_example :
    (row : MemberKey) × (find
        (λ r. r.user_id == 1 && is_visible_key 2 keyed.base.pairings r)
        keyed.member_keys
      ≡ some row)
    × (row.user_id ≡ 1)
    × (words ≡ row.public_key)
    × ((◌≡◌ {A = ℕ} 1 2) ⊎ (is_connected 1 2 keyed.base.pairings ≡ true))
peer_key-ok_example = peer_key-ok crypto (at_time 40) 2 1 keyed key_shown
