-- ===== src/Messages/Access.antt =====
-- Who reads and who writes a channel.
use mathlib.Core.List.{Memᴰ}
use box_fraise_server.Prelude.{
  ℕ, ◌≡◌, refl, inl, inr, Bool, true, false, ◌&&◌, none, some, arith, List, [], ◌∷◌, ◌++◌, ◌==◌,
  ==_iff, Bool-cases, Option-cases, ap, ◌⊎◌, ◌↔◌,
}
use box_fraise_server.Errors.{ok, AppError, err, forbidden, Result-cases}
use box_fraise_server.Server.{Env, Bytes, Crypto}
use box_fraise_server.Table.{select, exists, order_asc}
use box_fraise_server.Table.Rows.{exists_of_row, row_of_exists}
use box_fraise_server.Pairings.Types.{Pairing}
use box_fraise_server.Pairings.Service.{begin}
use box_fraise_server.Messages.Types.{Channel, Message, MessageRow, SendMessageRequest}
use box_fraise_server.Messages.Repository.{
  is_open_for, bf_pairing_is_open_for, is_sized, new_message, insert_message, list_messages,
}
use box_fraise_server.Messages.Service.{check_message, conclude_send, send, list}

select-none : {R : Type 0} (p : R → Bool) (rs : List R) → ((r : R) → p r ≡ false) → select p rs ≡ []
unfolding select
select-none p [] k = refl
select-none p (r ∷ rs) k = rw (k r) (select-none p rs k)

pub check_message-ok :
    (c : Crypto) (req : SendMessageRequest) {ciphertext iv : Bytes}
    → check_message c req ≡ ok (ciphertext, iv)
    → (is_sized ciphertext iv ≡ true)
      × (c.url_safe_no_pad req.ciphertext ≡ some ciphertext)
      × (c.url_safe_no_pad req.iv ≡ some iv)
unfolding check_message
check_message-ok c req h = ground arith

-- A user is a side of a pairing, which has been opened and which nobody has closed.
pub record IsOpenTo (user pairing : ℕ) (p : Pairing) : Type 0 where
  pub named : p.id ≡ pairing
  pub side : (p.lower_user_id ≡ user) ⊎ (p.upper_user_id ≡ user)
  pub opened : (t : ℕ) × (p.opened_at ≡ some t)
  pub unclosed : p.closed_at ≡ none

open_for-IsOpenTo :
    (pairing user : ℕ) (p : Pairing) → is_open_for pairing user p ≡ true → IsOpenTo user pairing p
open_for-IsOpenTo pairing user p h = elim (Option-cases p.opened_at) [
  | inl e ↦ absurd (ground (arith, e, h))
  | inr (t, e) ↦ record {
    named = ground (arith, h);
    side = ground (arith, h);
    opened = (t, e);
    unclosed = ground (arith, h);
  }
]

IsOpenTo-open_for :
    (pairing user : ℕ) (p : Pairing) → IsOpenTo user pairing p → is_open_for pairing user p ≡ true
IsOpenTo-open_for pairing user p w =
    let named = w.named in
    let (t, opened) = w.opened in
    let unclosed = w.unclosed in
    elim w.side [
      | inl l ↦ ground (arith, named, l, opened, unclosed)
      | inr u ↦ ground (arith, named, u, opened, unclosed)
    ]

-- The policy of the channel, with the rows spelled out.
granted-IsOpenTo :
    (pairing user : ℕ) (ps : List Pairing)
    → (bf_pairing_is_open_for pairing user ps ≡ true)
      ↔ ((p : Pairing) × Memᴰ p ps × IsOpenTo user pairing p)
unfolding bf_pairing_is_open_for
granted-IsOpenTo pairing user ps = (
  λ h.
      let (p, m, k) = row_of_exists (is_open_for pairing user) ps h in
      (p, m, open_for-IsOpenTo pairing user p k),
  λ (p, m, w). exists_of_row (is_open_for pairing user) ps m (IsOpenTo-open_for pairing user p w),
)

module _ (c : Crypto) (env : Env) (user pairing : ℕ) (ch : Channel) where
  unreadable :
      bf_pairing_is_open_for pairing user ch.base.pairings ≡ false
      → (m : MessageRow)
      → (m.pairing_id == pairing && bf_pairing_is_open_for m.pairing_id user ch.base.pairings)
        ≡ false
  unreadable shut m = elim (Bool-cases (m.pairing_id == pairing)) [
    | inr e ↦ rw e
    | inl e ↦ rw (e, (==_iff m.pairing_id pairing).0 e) shut
  ]

  insert-refused :
      (ciphertext iv : Bytes)
      → bf_pairing_is_open_for pairing user ch.base.pairings ≡ false
      → insert_message (begin env user) env.uuid pairing user ciphertext iv ch ≡ none
  unfolding insert_message
  insert-refused ciphertext iv shut = ground (arith, shut)

  -- Where a channel is not open to somebody, they read nothing from it, and whatever they send
  -- is refused and stored nowhere.
  pub closed-channel :
      (req : SendMessageRequest)
      → bf_pairing_is_open_for pairing user ch.base.pairings ≡ false
      → (list c env user pairing ch ≡ ok [])
        × ((e : AppError) × (send c env user pairing req ch ≡ (err e, ch)))
  unfolding list list_messages send conclude_send order_asc
  closed-channel req shut = (
    rw (select-none _ ch.messages (unreadable shut)),
    elim (Result-cases (check_message c req)) [
      | inr (e, bad) ↦ (e, rw (bad, send))
      | inl ((ciphertext, iv), good) ↦
          (forbidden, rw (good, send) (rw (insert-refused ciphertext iv shut)))
    ],
  )

  -- Where a channel is open to the sender and the new id is fresh, a message that passes the
  -- checks is stored as it was decoded, once, after all that was there, under the sender's name.
  send-open :
      (req : SendMessageRequest) {ciphertext iv : Bytes}
      → bf_pairing_is_open_for pairing user ch.base.pairings ≡ true
      → check_message c req ≡ ok (ciphertext, iv)
      → exists (λ m. m.id == env.uuid) ch.messages ≡ false
      → send c env user pairing req ch ≡ (
        ok (record {
          id = env.uuid;
          sender_id = user;
          ciphertext = req.ciphertext;
          iv = req.iv;
          created_at = env.db_now;
        }),
        record ch {
          messages =
              ch.messages ++ new_message (begin env user) env.uuid pairing user ciphertext iv ∷ [];
        },
      )
  unfolding send insert_message conclude_send
  send-open req {ciphertext} {iv} granted valid fresh =
      let self : (user == user) ≡ true = ground arith in
      rw (valid, send, insert_message) (rw (self, granted, (check_message-ok c req valid).0, fresh))

  send-granted :
      (req : SendMessageRequest) {r : Message}
      → (send c env user pairing req ch).0 ≡ ok r
      → (x : Bytes × Bytes) × (check_message c req ≡ ok x)
        × (bf_pairing_is_open_for pairing user ch.base.pairings ≡ true)
        × (exists (λ m. m.id == env.uuid) ch.messages ≡ false)
  unfolding send insert_message conclude_send
  send-granted req h = elim (Result-cases (check_message c req)) [
    | inr (e, bad) ↦ cc (rw (bad, send) at h)
    | inl (x, good) ↦
        let sent = rw (good, send) at h in (x, good, ground (arith, sent), ground (arith, sent))
  ]

  -- Whoever reads anything from a channel is a side of the pairing of its id, which has been
  -- opened and which nobody has closed; and a message is taken exactly from such a side, if it
  -- passes the checks and its new id is fresh.
  pub channel-IsOpenTo :
      ((m : Message) (ms : List Message)
        → list c env user pairing ch ≡ ok (m ∷ ms)
        → (p : Pairing) × Memᴰ p ch.base.pairings × IsOpenTo user pairing p)
      × ((req : SendMessageRequest)
          → ((r : Message) × ((send c env user pairing req ch).0 ≡ ok r)) ↔ (
              ((p : Pairing) × Memᴰ p ch.base.pairings × IsOpenTo user pairing p)
              × ((x : Bytes × Bytes) × (check_message c req ≡ ok x))
              × (exists (λ m. m.id == env.uuid) ch.messages ≡ false)))
  channel-IsOpenTo = (
    λ m ms h. elim (Bool-cases (bf_pairing_is_open_for pairing user ch.base.pairings)) [
      | inl granted ↦ (granted-IsOpenTo pairing user ch.base.pairings).0 granted
      | inr shut ↦ absurd (cc (h, (closed-channel any_message shut).0))
    ],
    λ req. (
      λ (r, h).
          let (x, good, granted, fresh) = send-granted req h in
          ((granted-IsOpenTo pairing user ch.base.pairings).0 granted, (x, good), fresh),
      λ (w, (x, good), fresh).
          let granted = (granted-IsOpenTo pairing user ch.base.pairings).1 w in
          (_, ap (λ y. y.0) (send-open req granted good fresh)),
    ),
  )
    where
      any_message : SendMessageRequest
      any_message = record { ciphertext = []; iv = [] }
