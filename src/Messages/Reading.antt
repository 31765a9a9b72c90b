-- ===== src/Messages/Reading.antt =====
-- What a participant sends, against what is read.
use box_fraise_server.Prelude.{
  ℕ, ◌≡◌, refl, sym, ap, subst, ◌∙◌, inl, inr, true, ◌&&◌, Option, none, some, arith, List, [], ◌∷◌,
  ◌++◌, map, ◌==◌,
}
use box_fraise_server.Prelude.Text.{Text}
use box_fraise_server.Errors.{ok, Result-cases}
use box_fraise_server.Server.{Env, Bytes, Crypto}
use box_fraise_server.Table.{select, order_asc}
use box_fraise_server.Table.Holding.{Holds, select-Holds, order_asc-Holds, map-Holds}
use box_fraise_server.Pairings.Service.{begin}
use box_fraise_server.Messages.Types.{Channel, MessageRow, Message, SendMessageRequest}
use box_fraise_server.Messages.Repository.{
  bf_pairing_is_open_for, new_message, insert_message, list_messages,
}
use box_fraise_server.Messages.Service.{check_message, conclude_send, send, list, message_of}
use box_fraise_server.Messages.Access.{check_message-ok}

-- Base64url without padding encodes what it has decoded as it was.
abbrev pub IsCanonical : Crypto → Type 0
IsCanonical c =
    (s : Text) (b : Bytes) → c.url_safe_no_pad s ≡ some b → c.encode_url_safe_no_pad b ≡ s

module _ (c : Crypto) (env : Env) (sender pairing : ℕ) (req : SendMessageRequest)
    (ch : Channel) where
  insert_message-some :
      (ciphertext iv : Bytes) {t : Channel}
      → insert_message (begin env sender) env.uuid pairing sender ciphertext iv ch ≡ some t
      → t ≡ record ch {
        messages =
            ch.messages
            ++ new_message (begin env sender) env.uuid pairing sender ciphertext iv ∷ [];
      }
  unfolding insert_message
  insert_message-some ciphertext iv h = ground arith

  conclude_send-ok :
      (o : Option Channel) {m : Message}
      → (conclude_send env sender req o ch).0 ≡ ok m
      → (t : Channel) × (o ≡ some t)
        × ((conclude_send env sender req o ch).1 ≡ t)
        × (m ≡ record {
          id = env.uuid;
          sender_id = sender;
          ciphertext = req.ciphertext;
          iv = req.iv;
          created_at = env.db_now;
        })
  unfolding conclude_send
  conclude_send-ok none h = cc
  conclude_send-ok (some t) h = (t, refl, refl, ground arith)

  -- What a send that succeeds has stored.
  send-ok :
      {m : Message}
      → (send c env sender pairing req ch).0 ≡ ok m
      → (ciphertext : Bytes) × (iv : Bytes) × (c.url_safe_no_pad req.ciphertext ≡ some ciphertext)
        × (c.url_safe_no_pad req.iv ≡ some iv)
        × ((send c env sender pairing req ch).1 ≡ record ch {
          messages =
              ch.messages
              ++ new_message (begin env sender) env.uuid pairing sender ciphertext iv ∷ [];
        })
        × (m ≡ record {
          id = env.uuid;
          sender_id = sender;
          ciphertext = req.ciphertext;
          iv = req.iv;
          created_at = env.db_now;
        })
  unfolding send
  send-ok h = elim (Result-cases (check_message c req)) [
    | inr (x, e) ↦ cc (rw (e, send) at h)
    | inl ((ciphertext, iv), e) ↦
        let (_, decoded, decoded_iv) = check_message-ok c req e in
        let (t, made, left, reply) = conclude_send-ok _ (rw (e, send) at h) in
        (
          ciphertext,
          iv,
          decoded,
          decoded_iv,
          rw (e, send) (left ∙ insert_message-some ciphertext iv made),
          reply,
        )
  ]

  -- The stored row is in what a participant's SELECT returns.
  stored_row :
      (reader : ℕ) (row : MessageRow)
      → row.pairing_id ≡ pairing
      → bf_pairing_is_open_for pairing reader ch.base.pairings ≡ true
      → Holds (message_of c row) (
          map (message_of c) (
            order_asc
              (λ m. m.created_at)
              (select
                (λ m.
                  m.pairing_id == pairing
                  && bf_pairing_is_open_for m.pairing_id reader ch.base.pairings)
                (ch.messages ++ row ∷ []))))
  stored_row reader row same granted =
      let p = λ (m : MessageRow).
        m.pairing_id == pairing && bf_pairing_is_open_for m.pairing_id reader ch.base.pairings in
      let (front, back, e) = select-Holds p row ch.messages [] (visible reader row same granted) in
      let (front', back', e') = order_asc-Holds (λ m. m.created_at) row front back in
      let (front'', back'', e'') = map-Holds (message_of c) row front' back' in
      (front'', back'', ap (map (message_of c)) (ap (order_asc (λ m. m.created_at)) e ∙ e') ∙ e'')
    where
      visible :
          (reader : ℕ) (row : MessageRow)
          → row.pairing_id ≡ pairing
          → bf_pairing_is_open_for pairing reader ch.base.pairings ≡ true
          → (row.pairing_id == pairing
              && bf_pairing_is_open_for row.pairing_id reader ch.base.pairings)
            ≡ true
      visible reader row same granted = rw same (rw granted (ground arith))

  -- A message that was sent and taken is read back: whoever the channel is open to finds it, in
  -- the tables that the send left, with the ciphertext and the iv that were sent, provided that
  -- base64url encodes what it has decoded as it was.
  pub send-list :
      (env' : Env) (reader : ℕ) {m : Message}
      → IsCanonical c
      → bf_pairing_is_open_for pairing reader ch.base.pairings ≡ true
      → (send c env sender pairing req ch).0 ≡ ok m
      → (ms : List Message) × (list c env' reader pairing (send c env sender pairing req ch).1
          ≡ ok ms)
        × Holds m ms
  unfolding list list_messages
  send-list env' reader {m} canonical granted h =
      let (ciphertext, iv, decoded, decoded_iv, left, reply) = send-ok h in
      let row = new_message (begin env sender) env.uuid pairing sender ciphertext iv in
      let shown : message_of c row ≡ m =
        rw (canonical req.ciphertext ciphertext decoded, canonical req.iv iv decoded_iv)
          (sym reply) in
      let ms = map (message_of c) (
        order_asc (λ x. x.created_at)
          (select
            (λ x.
              x.pairing_id == pairing
              && bf_pairing_is_open_for x.pairing_id reader ch.base.pairings)
            (ch.messages ++ row ∷ []))) in
      (ms, rw left, subst (λ x. Holds x ms) shown (stored_row reader row refl granted))
