-- ===== src/Onboarding/Replay.antt =====
-- Challenges that have been used, under later requests.
use mathlib.Core.Option
use box_fraise_server.Prelude.{
  ℕ, ◌≡◌, sym, ap, subst, ◌∙◌, true, inl, inr, some, arith, List, [], ◌∷◌, is_some,
}
use box_fraise_server.Prelude.Text.{Text, text_eq}
use box_fraise_server.Errors.{ok, err, conflict}
use box_fraise_server.Server.{Env, Bytes, Crypto, Hashing, b64_decode}
use box_fraise_server.Table.{find, update}
use box_fraise_server.Table.Laws.{changed}
use box_fraise_server.Table.Search.{find-update, find-append}
use box_fraise_server.Onboarding.Types.{Challenge, Onboarding, VerifyRequest}
use box_fraise_server.Onboarding.Repository.{get_challenge_for_verify, used}
use box_fraise_server.Onboarding.Cases.{
  issue_challenge-challenges, register-challenges, verify-challenges,
}
use box_fraise_server.Onboarding.Service.{
  check_verify, verify, Request, registering, issuing, verifying, managing, serve, run,
}

-- The nonce is known, and used.
abbrev pub IsUsed : Text → List Challenge → Type 0
IsUsed nonce cs =
    (ch : Challenge) × (find (λ x. text_eq x.nonce nonce) cs ≡ some ch)
    × (is_some ch.used_at ≡ true)

marked-nonce :
    (now : ℕ) (other nonce : Text) (ch : Challenge)
    → text_eq (changed (λ x. text_eq x.nonce other) (used now) ch).nonce nonce
      ≡ text_eq ch.nonce nonce
marked-nonce now other nonce ch = ground arith

marked-used :
    (now : ℕ) (other : Text) (ch : Challenge)
    → is_some ch.used_at ≡ true
    → is_some (changed (λ x. text_eq x.nonce other) (used now) ch).used_at ≡ true
marked-used now other ch h = ground arith

pub marked :
    (now : ℕ) (nonce : Text) (ch : Challenge)
    → text_eq ch.nonce nonce ≡ true
    → is_some (changed (λ x. text_eq x.nonce nonce) (used now) ch).used_at ≡ true
marked now nonce ch h = ground arith

pub find-marked :
    (now : ℕ) (other nonce : Text) (cs : List Challenge) {ch : Challenge}
    → find (λ x. text_eq x.nonce nonce) cs ≡ some ch
    → find (λ x. text_eq x.nonce nonce) (update (λ x. text_eq x.nonce other) (used now) cs)
      ≡ some (changed (λ x. text_eq x.nonce other) (used now) ch)
find-marked now other nonce cs found =
    find-update (λ x. text_eq x.nonce nonce) (λ x. text_eq x.nonce other) (used now) cs
      (marked-nonce now other nonce)
    ∙ ap (Option.map (changed (λ x. text_eq x.nonce other) (used now))) found

module _ (c : Crypto) (h : Hashing) (ttl : ℕ) (nonce : Text) where
  serve-IsUsed :
      (env : Env) (req : Request) (t : Onboarding)
      → IsUsed nonce t.challenges
      → IsUsed nonce (serve c h ttl env req t).challenges
  unfolding serve
  serve-IsUsed env (registering req) t is_used =
      subst (IsUsed nonce) (sym (register-challenges c h env req t)) is_used
  serve-IsUsed env (managing req) t is_used = is_used
  serve-IsUsed env (issuing user) t (ch, found, is_used) =
      elim (issue_challenge-challenges env ttl user t) [
        | inl same ↦ subst (IsUsed nonce) (sym same) (ch, found, is_used)
        | inr more ↦
            subst (IsUsed nonce) (sym more)
              (ch, find-append (λ x. text_eq x.nonce nonce) t.challenges (_ ∷ []) found, is_used)
      ]
  serve-IsUsed env (verifying admin req) t (ch, found, is_used) =
      elim (verify-challenges c env admin req t) [
        | inl same ↦ subst (IsUsed nonce) (sym same) (ch, found, is_used)
        | inr marks ↦ subst (IsUsed nonce) (sym marks) (
          changed (λ x. text_eq x.nonce req.nonce) (used env.db_now) ch,
          find-marked env.db_now req.nonce nonce t.challenges found,
          marked-used env.db_now req.nonce ch is_used,
        )
      ]

  run-IsUsed :
      (later : List (Env × Request)) (t : Onboarding)
      → IsUsed nonce t.challenges
      → IsUsed nonce (run c h ttl later t).challenges
  unfolding run
  run-IsUsed [] t is_used = is_used
  run-IsUsed ((env, req) ∷ rest) t is_used =
      run-IsUsed rest (serve c h ttl env req t) (serve-IsUsed env req t is_used)

-- A scan of a used nonce, with a signature that decodes, is a conflict.
verify-IsUsed :
    (c : Crypto) (env : Env) (admin : ℕ) (req : VerifyRequest) (t : Onboarding) {sig : Bytes}
    → b64_decode c req.signature_b64 ≡ ok sig
    → IsUsed req.nonce t.challenges
    → verify c env admin req t ≡ (err conflict, t)
unfolding verify check_verify get_challenge_for_verify
verify-IsUsed c env admin req t decoded (ch, found, is_used) =
    rw (decoded, found, is_used, verify, check_verify, get_challenge_for_verify)

pub verify-replay :
    (c : Crypto) (nonce : Text) (s : Onboarding)
    → IsUsed nonce s.challenges
    → (h : Hashing) (ttl : ℕ) (later : List (Env × Request)) (env : Env) (admin : ℕ)
      (again : VerifyRequest) (sig : Bytes)
    → again.nonce ≡ nonce
    → b64_decode c again.signature_b64 ≡ ok sig
    → verify c env admin again (run c h ttl later s) ≡ (err conflict, run c h ttl later s)
verify-replay c nonce s is_used h ttl later env admin again sig same decodes =
    verify-IsUsed c env admin again (run c h ttl later s) decodes (
      subst (λ n. IsUsed n (run c h ttl later s).challenges) (sym same)
        (run-IsUsed c h ttl nonce later s is_used))
