-- ===== src/Pairings/Claims/Replay.antt =====
-- Nonces that have been used, under later requests.
use mathlib.Core.Option
use box_fraise_server.Prelude.{
  ℕ, ◌≡◌, sym, ap, subst, ◌∙◌, true, Option, some, arith, List, [], ◌∷◌, is_some,
}
use box_fraise_server.Prelude.Text.{Text, text_eq}
use box_fraise_server.Errors.{ok, err, conflict}
use box_fraise_server.Server.{Env, Bytes, Crypto}
use box_fraise_server.Table.{find}
use box_fraise_server.Table.Laws.{changed}
use box_fraise_server.Table.Search.{find-update, find-append, find-accepts}
use box_fraise_server.Pairings.Types.{PairingNonce, ClaimResponse}
use box_fraise_server.Pairings.Repository.{Db, get_nonce, is_unused}
use box_fraise_server.Pairings.Service.{check_claim, finish_claim}
use box_fraise_server.Pairings.Trace.{Request, Config, serve, run}
use box_fraise_server.Pairings.Lifecycle.Cases.{serve-cases, burning, new_nonce}
use box_fraise_server.Pairings.Claims.{finish_claim-ok}

-- The nonce is known, and used.
abbrev pub IsBurned : Text → List PairingNonce → Type 0
IsBurned nonce ns =
    (n : PairingNonce) × (find (λ m. text_eq m.nonce nonce) ns ≡ some n)
    × (is_some n.used_at ≡ true)

module _ (nonce : Text) where
  burn_row-nonce :
      (env : Env) (other : Text) (m : PairingNonce)
      → text_eq
          (changed (is_unused other) (λ n. record n { used_at = some env.db_now }) m).nonce
          nonce
        ≡ text_eq m.nonce nonce
  burn_row-nonce env other m = ground arith

  burn_row-used :
      (env : Env) (other : Text) (m : PairingNonce)
      → is_some m.used_at ≡ true
      → is_some (changed (is_unused other) (λ n. record n { used_at = some env.db_now }) m).used_at
        ≡ true
  burn_row-used env other m h = ground arith

  burning-IsBurned :
      (env : Env) (other : Text) (ns : List PairingNonce)
      → IsBurned nonce ns
      → IsBurned nonce (burning env other ns)
  burning-IsBurned env other ns (n, found, used) = (
    changed (is_unused other) (λ m. record m { used_at = some env.db_now }) n,
    find-update (λ m. text_eq m.nonce nonce) (is_unused other)
          (λ m. record m { used_at = some env.db_now }) ns (burn_row-nonce env other)
        ∙ ap (Option.map (changed (is_unused other) (λ m. record m { used_at = some env.db_now })))
            found,
    burn_row-used env other n used,
  )

  burn_row-burned :
      (env : Env) (m : PairingNonce)
      → text_eq m.nonce nonce ≡ true
      → is_some (changed (is_unused nonce) (λ n. record n { used_at = some env.db_now }) m).used_at
        ≡ true
  burn_row-burned env m h = ground arith

  serve-IsBurned :
      (c : Crypto) (cfg : Config) (env : Env) (u : ℕ) (req : Request) (db : Db)
      → IsBurned nonce db.pairing_nonces
      → IsBurned nonce (serve c cfg env u req db).1.pairing_nonces
  serve-IsBurned c cfg env u req db (n, found, used) =
      serve-cases c cfg env u db (λ ns _. IsBurned nonce ns) (n, found, used)
        (λ _. (
          n,
          find-append (λ m. text_eq m.nonce nonce) db.pairing_nonces (new_nonce env u ∷ []) found,
          used,
        ))
        (λ _. (n, found, used)) (λ _ _ _ _ _. (n, found, used))
        (λ other _ _ _ _ _ _. burning-IsBurned env other db.pairing_nonces (n, found, used)) req

  run-IsBurned :
      (c : Crypto) (cfg : Config) (later : List (Env × ℕ × Request)) (db : Db)
      → IsBurned nonce db.pairing_nonces
      → IsBurned nonce (run c cfg later db).pairing_nonces
  unfolding run
  run-IsBurned c cfg [] db b = b
  run-IsBurned c cfg ((env, u, req) ∷ rest) db b =
      run-IsBurned c cfg rest (serve c cfg env u req db).1 (serve-IsBurned c cfg env u req db b)

  burned-conflict :
      (c : Crypto) (env : Env) (u cooling window : ℕ) (sig : Option Bytes) (db : Db)
      → IsBurned nonce db.pairing_nonces
      → finish_claim c env u cooling window nonce sig db ≡ (err conflict, db)
  unfolding finish_claim check_claim get_nonce
  burned-conflict c env u cooling window sig db (n, found, used) =
      rw (found, used, finish_claim, check_claim, get_nonce)

  IsBurned-by_claim :
      (c : Crypto) (env : Env) (u cooling window : ℕ) (sig : Option Bytes) (db : Db)
      {r : ClaimResponse}
      → (finish_claim c env u cooling window nonce sig db).0 ≡ ok r
      → IsBurned nonce (finish_claim c env u cooling window nonce sig db).1.pairing_nonces
  unfolding get_nonce
  IsBurned-by_claim c env u cooling window sig db h =
      let (n, claimed) = finish_claim-ok c env u cooling window nonce sig db h in
      subst (IsBurned nonce) (sym claimed.nonces) (
        changed (is_unused nonce) (λ m. record m { used_at = some env.db_now }) n,
        find-update (λ m. text_eq m.nonce nonce) (is_unused nonce)
              (λ m. record m { used_at = some env.db_now }) db.pairing_nonces
              (burn_row-nonce env nonce)
            ∙ ap
                (Option.map
                  (changed (is_unused nonce) (λ m. record m { used_at = some env.db_now })))
                claimed.issued,
        burn_row-burned env n
            (find-accepts (λ m. text_eq m.nonce nonce) db.pairing_nonces claimed.issued),
      )

  -- A nonce that has made a pairing makes no other: after a claim that succeeded, whatever
  -- requests follow, any later claim of the nonce, by anybody and with any signature, is a
  -- conflict and changes nothing.
  pub claim-replay :
      (c : Crypto) (cfg : Config) (env : Env) (u cooling window : ℕ) (sig : Option Bytes) (db : Db)
      {r : ClaimResponse}
      → (finish_claim c env u cooling window nonce sig db).0 ≡ ok r
      → (later : List (Env × ℕ × Request)) (env' : Env) (u' cooling' window' : ℕ)
        (sig' : Option Bytes)
      → let t = run c cfg later (finish_claim c env u cooling window nonce sig db).1 in
        finish_claim c env' u' cooling' window' nonce sig' t ≡ (err conflict, t)
  claim-replay c cfg env u cooling window sig db h later env' u' cooling' window' sig' =
      let t = (finish_claim c env u cooling window nonce sig db).1 in
      burned-conflict c env' u' cooling' window' sig' (run c cfg later t)
        (run-IsBurned c cfg later t (IsBurned-by_claim c env u cooling window sig db h))
