-- ===== src/Messages/Keys.antt =====
-- The public keys of members: who may read whose.
use box_fraise_server.Prelude.{
  ℕ, ◌≡◌, sym, ap, ◌⊎◌, inl, inr, Bool, true, ◌&&◌, ◌||◌, arith, List, ◌==◌, Option-cases, some,
}
use box_fraise_server.Errors.{Result, ok, err}
use box_fraise_server.Server.{Env, Crypto}
use box_fraise_server.Table.{find, exists}
use box_fraise_server.Table.Search.{find-accepts}
use box_fraise_server.Pairings.Types.{Pairing}
use box_fraise_server.Pairings.Repository.{between, is_channel}
use box_fraise_server.Messages.Types.{MemberKey, Channel, PeerKey}
use box_fraise_server.Messages.Repository.{is_visible_key}
use box_fraise_server.Messages.Repository
use box_fraise_server.Messages.Service.{peer_key}

-- A channel of the two users is open.
abbrev pub is_connected : ℕ → ℕ → List Pairing → Bool
is_connected a b ps = exists (λ p. is_channel p && (between a b p || between b a p)) ps

visible_row :
    (viewer peer : ℕ) (ps : List Pairing) (k : MemberKey)
    → (k.user_id == peer && is_visible_key viewer ps k) ≡ true
    → (k.user_id ≡ peer) × ((peer ≡ viewer) ⊎ (is_connected peer viewer ps ≡ true))
unfolding is_visible_key
visible_row viewer peer ps k h =
    let same : k.user_id ≡ peer = ground arith in (same, seen (rw same at visible))
  where
    visible : (k.user_id == viewer || is_connected k.user_id viewer ps) ≡ true
    visible = ground arith

    seen :
        (peer == viewer || is_connected peer viewer ps) ≡ true
        → (peer ≡ viewer) ⊎ (is_connected peer viewer ps ≡ true)
    seen v = ground arith

-- A member is told a public key only if it is their own, or that of somebody with whom they have
-- an open channel at that moment; the key is the one that this somebody has published.
pub peer_key-ok :
    (c : Crypto) (env : Env) (user peer : ℕ) (ch : Channel) {k : PeerKey}
    → peer_key c env user peer ch ≡ ok k
    → (row : MemberKey) × (find
          (λ r. r.user_id == peer && is_visible_key user ch.base.pairings r)
          ch.member_keys
        ≡ some row)
      × (row.user_id ≡ peer)
      × (k.public_key ≡ c.encode_url_safe_no_pad row.public_key)
      × ((peer ≡ user) ⊎ (is_connected peer user ch.base.pairings ≡ true))
unfolding peer_key Repository.peer_key
peer_key-ok c env user peer ch {k} h =
    elim (Option-cases
      (find (λ r. r.user_id == peer && is_visible_key user ch.base.pairings r) ch.member_keys)) [
        | inl e ↦ cc (rw (e, peer_key, Repository.peer_key) at h)
        | inr (row, e) ↦
            let (same, seen) = visible_row user peer ch.base.pairings row (
              find-accepts (λ r. r.user_id == peer && is_visible_key user ch.base.pairings r)
                ch.member_keys e) in
            (row, e, same, sym (ap shown (rw (e, peer_key, Repository.peer_key) at h)), seen)
      ]
  where
    shown : Result PeerKey → List ℕ
    shown (ok r) = r.public_key
    shown (err e) = k.public_key
