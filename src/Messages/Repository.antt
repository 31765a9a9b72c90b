-- ===== src/Messages/Repository.antt =====
-- src/domain/messages/repository.rs, under the policies of migrations/0026_messages.sql.
use box_fraise_server.Prelude.{
  ℕ, Bool, not, ◌&&◌, ◌||◌, Option, none, some, List, [], ◌∷◌, ◌++◌, leb, ◌==◌, if◌then◌else◌,
  length,
}
use box_fraise_server.Server.{Bytes}
use box_fraise_server.Table.{find, select, exists, update, order_asc}
use box_fraise_server.Pairings.Types.{Pairing}
use box_fraise_server.Pairings.Repository.{Conn, involves, between, is_channel}
use box_fraise_server.Messages.Types.{MemberKey, MessageRow, Channel}

abbrev pub is_open_for : ℕ → ℕ → Pairing → Bool
is_open_for pid uid p = p.id == pid && is_channel p && involves uid p

unfoldable pub bf_pairing_is_open_for : ℕ → ℕ → List Pairing → Bool
bf_pairing_is_open_for pid uid ps = exists (is_open_for pid uid) ps

abbrev first_byte : Bytes → ℕ
first_byte [] = 0
first_byte (b ∷ bs) = b

-- The CHECK `member_keys_sec1`.
abbrev pub is_sec1 : Bytes → Bool
is_sec1 key = length key == 65 && first_byte key == 4

-- `none` is a refusal by a policy or by the CHECK.
unfoldable pub upsert_key : Conn → ℕ → Bytes → Channel → Option Channel
upsert_key conn user key ch =
    if not (user == conn.user && is_sec1 key)
    then none
    else if exists (λ k. k.user_id == user) ch.member_keys
    then some (record ch {
      member_keys =
          update (λ k. k.user_id == user)
            (λ k. record k { public_key = key; created_at = conn.now }) ch.member_keys;
    })
    else some (record ch {
      member_keys =
          ch.member_keys ++ record { user_id = user; public_key = key; created_at = conn.now } ∷ [];
    })

-- The policy `member_keys_self_or_peer_select`.
unfoldable pub is_visible_key : ℕ → List Pairing → MemberKey → Bool
is_visible_key viewer ps k =
    k.user_id == viewer
    || exists (λ p. is_channel p && (between k.user_id viewer p || between viewer k.user_id p)) ps

abbrev key_of : Option MemberKey → Option Bytes
key_of none = none
key_of (some k) = some k.public_key

unfoldable pub peer_key : Conn → ℕ → Channel → Option Bytes
peer_key conn peer ch =
    key_of
      (find (λ k. k.user_id == peer && is_visible_key conn.user ch.base.pairings k) ch.member_keys)

-- The CHECKs `messages_iv_len` and `messages_size`.
abbrev pub is_sized : Bytes → Bytes → Bool
is_sized ciphertext iv =
    length iv == 12 && leb 17 (length ciphertext) && leb (length ciphertext) 8192

abbrev pub new_message : Conn → ℕ → ℕ → ℕ → Bytes → Bytes → MessageRow
new_message conn id pairing sender ciphertext iv = record {
  id = id;
  pairing_id = pairing;
  sender_id = sender;
  ciphertext = ciphertext;
  iv = iv;
  created_at = conn.now;
}

-- `none` is a refusal: by the policy `messages_open_channel_insert`, a CHECK or the primary key.
unfoldable pub insert_message : Conn → ℕ → ℕ → ℕ → Bytes → Bytes → Channel → Option Channel
insert_message conn id pairing sender ciphertext iv ch =
    if not (
        sender == conn.user
        && bf_pairing_is_open_for pairing conn.user ch.base.pairings
        && is_sized ciphertext iv)
      || exists (λ m. m.id == id) ch.messages
    then none
    else some (record ch {
      messages = ch.messages ++ new_message conn id pairing sender ciphertext iv ∷ [];
    })

-- Under the policy `messages_open_channel_select`.
unfoldable pub list_messages : Conn → ℕ → Channel → List MessageRow
unfolding bf_pairing_is_open_for
list_messages conn pairing ch =
    order_asc (λ m. m.created_at)
      (select
        (λ m.
          m.pairing_id == pairing && bf_pairing_is_open_for m.pairing_id conn.user ch.base.pairings)
        ch.messages)
