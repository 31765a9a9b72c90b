-- ===== src/Pairings/Privacy/SilentDecline.antt =====
-- What one participant sees of any sequence of requests, by anybody.
use box_fraise_server.Prelude.{
  ℕ, ◌≡◌, refl, sym, ap, ◌∙◌, none, List, [], ◌∷◌, ◌++◌, arith, inl, inr, Bool-cases, ◌==◌, ==_iff,
  ap₂, if◌then◌else◌,
}
use box_fraise_server.Server.{Env, Crypto}
use box_fraise_server.Table.Laws.{map_idem}
use box_fraise_server.Pairings.Types.{SetDisplayNameRequest}
use box_fraise_server.Pairings.Repository.{Db}
use box_fraise_server.Pairings.Service.{list, authorized, set_display_name, claim_in_person}
use box_fraise_server.Pairings.Repository
use box_fraise_server.Pairings.Trace.{
  Request, issuing, listing, claiming, claiming_in_person, authorizing, blocking, decision,
  display_name, Reply, Config, nonce_reply, claim_reply, empty_reply, view_reply, serve, observe,
}
use box_fraise_server.Pairings.Privacy.Mask.{mask, mask_idem, mask_db, mask_db_idem}
use box_fraise_server.Pairings.Privacy.Reads.{is_authorized-mask, list_for_user-mask}
use box_fraise_server.Pairings.Privacy.Handlers.{
  issue_nonce-mask, claim-mask, finish_claim-mask, decide-mask, block-mask,
}

module _ (c : Crypto) (cfg : Config) (me : ℕ) where
  set_display_name-mask :
      (u : ℕ) (req : SetDisplayNameRequest) (db : Db)
      → (mask_db me (set_display_name u req (mask_db me db)).1
          ≡ mask_db me (set_display_name u req db).1)
        × ((set_display_name u req (mask_db me db)).0 ≡ (set_display_name u req db).0)
  unfolding set_display_name Repository.set_display_name
  set_display_name-mask u req db = ground (arith, map_idem (mask me) (mask_idem me) db.pairings)

  serve-mask :
      (env : Env) (u : ℕ) (req : Request) (db : Db)
      → (mask_db me (serve c cfg env u req (mask_db me db)).1
          ≡ mask_db me (serve c cfg env u req db).1)
        × (u ≡ me → (serve c cfg env u req (mask_db me db)).0 ≡ (serve c cfg env u req db).0)
  unfolding serve claim_in_person list authorized
  serve-mask env u issuing db =
      let (h, k) = issue_nonce-mask me env u db in (h, λ _. ap nonce_reply k)
  serve-mask env u listing db =
      (mask_db_idem me db, λ mine. rw mine (rw (list_for_user-mask me db env.now)))
  serve-mask env u (claiming req) db =
      let (h, k) = claim-mask me c env u cfg.pairing_cooling cfg.pairing_window req db in
      (h, λ _. ap claim_reply k)
  serve-mask env u (claiming_in_person req) db =
      let (h, k) =
        finish_claim-mask me c env u cfg.pairing_cooling cfg.pairing_window req.nonce none db in
      (h, λ _. ap claim_reply k)
  serve-mask env u (authorizing peer) db =
      (mask_db_idem me db, λ _. rw (is_authorized-mask me u peer db))
  serve-mask env u (blocking id) db =
      let (h, k) = block-mask me env u id db in (h, λ _. ap empty_reply k)
  serve-mask env u (decision id req) db =
      let (h, k) = decide-mask me env u id req db in (h, λ mine. ap view_reply (k mine))
  serve-mask env u (display_name req) db =
      let (h, k) = set_display_name-mask u req db in (h, λ _. ap empty_reply k)

  -- Tables that `me` may not tell apart stay so under anybody's request, and to a request of `me`
  -- they reply alike.
  serve-alike :
      (env : Env) (u : ℕ) (req : Request) (s t : Db)
      → mask_db me s ≡ mask_db me t
      → (mask_db me (serve c cfg env u req s).1 ≡ mask_db me (serve c cfg env u req t).1)
        × (u ≡ me → (serve c cfg env u req s).0 ≡ (serve c cfg env u req t).0)
  serve-alike env u req s t h =
      let (hs, ks) = serve-mask env u req s in
      let (ht, kt) = serve-mask env u req t in
      (
        sym hs ∙ ap (λ d. mask_db me (serve c cfg env u req d).1) h ∙ ht,
        λ mine. sym (ks mine) ∙ ap (λ d. (serve c cfg env u req d).0) h ∙ kt mine,
      )

  own_reply :
      (u : ℕ) (r r' : Reply)
      → (u ≡ me → r ≡ r')
      → (if u == me then r ∷ [] else []) ≡ (if u == me then r' ∷ [] else [])
  own_reply u r r' h = elim (Bool-cases (u == me)) [
    | inl e ↦ rw e (ap (λ x. x ∷ []) (h ((==_iff u me).0 e)))
    | inr e ↦ rw e
  ]

  pub observe-alike :
      (requests : List (Env × ℕ × Request)) (s t : Db)
      → mask_db me s ≡ mask_db me t
      → observe c cfg me requests s ≡ observe c cfg me requests t
  unfolding observe
  observe-alike [] s t h = refl
  observe-alike ((env, u, req) ∷ rest) s t h =
      let (h', k) = serve-alike env u req s t h in
      ap₂ ◌++◌ (own_reply u (serve c cfg env u req s).0 (serve c cfg env u req t).0 k)
        (observe-alike rest (serve c cfg env u req s).1 (serve c cfg env u req t).1 h')

  -- Forgetting which of the others said no, and when anybody else answered, and the audit trail,
  -- changes nothing that `me` is told, whatever requests follow and whoever makes them.
  pub observe-mask :
      (requests : List (Env × ℕ × Request)) (db : Db)
      → observe c cfg me requests (mask_db me db) ≡ observe c cfg me requests db
  observe-mask requests db = observe-alike requests (mask_db me db) db (mask_db_idem me db)
