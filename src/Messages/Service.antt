-- ===== src/Messages/Service.antt =====
-- src/domain/messages/service.rs.
use box_fraise_server.Prelude.{
  ℕ, String, Bool, false, not, ◌||◌, Option, none, some, List, [], ◌∷◌, map, ltb, ◌==◌, length,
}
use box_fraise_server.Prelude.Text.{Text}
use box_fraise_server.Errors.{
  Result, ok, err, not_found, forbidden, bad_request, db, ◌>>=◌, ◌>>◌, fail_if, ok_or,
}
use box_fraise_server.Server.{Env, Bytes, Crypto}
use box_fraise_server.Pairings.Service.{begin}
use box_fraise_server.Messages.Types.{
  MessageRow, Channel, PublishKeyRequest, PeerKey, SendMessageRequest, Message,
}
use box_fraise_server.Messages.Repository.{upsert_key, insert_message, list_messages}
use box_fraise_server.Messages.Repository

abbrev pub key_len : ℕ
key_len = 65

abbrev pub iv_len : ℕ
iv_len = 12

abbrev pub max_ciphertext : ℕ
max_ciphertext = 8192

-- `complaint` is the field's name followed by " is not base64url".
abbrev pub decode : Crypto → String → Text → Result Bytes
decode c complaint value = ok_or (c.url_safe_no_pad value) (bad_request complaint)

-- `key[0] != 0x04`, evaluated only where the length is 65.
abbrev is_uncompressed : Bytes → Bool
is_uncompressed [] = false
is_uncompressed (b ∷ bs) = b == 4

unfoldable pub check_key : Crypto → PublishKeyRequest → Result Bytes
check_key c req = do
  key ← decode c "public_key is not base64url" req.public_key
  fail_if (not (length key == key_len) || not (is_uncompressed key))
      (bad_request "a public key is 65 bytes of uncompressed P-256")
  ok key

abbrev committed : Option Channel → Channel → Result (Unit {0}) × Channel
committed none ch = (err db, ch)
committed (some t) ch = (ok tt, t)

unfoldable pub publish_key :
    Crypto → Env → ℕ → PublishKeyRequest → Channel → Result (Unit {0}) × Channel
unfolding check_key
publish_key c env user req ch = elim (check_key c req) [
  | err e ↦ (err e, ch)
  | ok key ↦ committed (upsert_key (begin env user) user key ch) ch
]

unfoldable pub peer_key : Crypto → Env → ℕ → ℕ → Channel → Result PeerKey
peer_key c env user peer ch = do
  key ← ok_or (Repository.peer_key (begin env user) peer ch) not_found
  ok (record { public_key = c.encode_url_safe_no_pad key })

-- The early returns of `send`.
unfoldable pub check_message : Crypto → SendMessageRequest → Result (Bytes × Bytes)
check_message c req = do
  ciphertext ← decode c "ciphertext is not base64url" req.ciphertext
  iv ← decode c "iv is not base64url" req.iv
  fail_if (not (length iv == iv_len)) (bad_request "iv must be 12 bytes")
  fail_if (ltb max_ciphertext (length ciphertext) || ltb (length ciphertext) 17)
      (bad_request "message is empty or too long")
  ok (ciphertext, iv)

-- Whatever the INSERT fails with is a refusal.
unfoldable pub conclude_send :
    Env → ℕ → SendMessageRequest → Option Channel → Channel → Result Message × Channel
conclude_send env user req none ch = (err forbidden, ch)
conclude_send env user req (some t) ch = (
  ok (record {
    id = env.uuid;
    sender_id = user;
    ciphertext = req.ciphertext;
    iv = req.iv;
    created_at = env.db_now;
  }),
  t,
)

unfoldable pub send : Crypto → Env → ℕ → ℕ → SendMessageRequest → Channel → Result Message × Channel
unfolding check_message conclude_send
send c env user pairing req ch = elim (check_message c req) [
  | err e ↦ (err e, ch)
  | ok (ciphertext, iv) ↦
      conclude_send env user req
        (insert_message (begin env user) env.uuid pairing user ciphertext iv ch) ch
]

abbrev pub message_of : Crypto → MessageRow → Message
message_of c m = record {
  id = m.id;
  sender_id = m.sender_id;
  ciphertext = c.encode_url_safe_no_pad m.ciphertext;
  iv = c.encode_url_safe_no_pad m.iv;
  created_at = m.created_at;
}

unfoldable pub list : Crypto → Env → ℕ → ℕ → Channel → Result (List Message)
list c env user pairing ch = ok (map (message_of c) (list_messages (begin env user) pairing ch))
