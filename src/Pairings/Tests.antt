-- ===== src/Pairings/Tests.antt =====
-- Requests to src/domain/pairings on concrete tables: two members, a nonce, and a pairing in its window.
use mathlib.Core.List.{Memᴰ}
use box_fraise_server.Prelude.{
  ◌↔◌, ℕ, ◌≡◌, ◌≢◌, ◌≤◌, ◌<◌, refl, true, false, ◌⊎◌, none, some, arith, List, [], ◌∷◌, is_some,
}
use box_fraise_server.Prelude.Text.{Text, text_eq, codes, trim, trim_start, is_whitespace}
use box_fraise_server.Errors.{ok, err, conflict}
use box_fraise_server.Server.{Env, Crypto}
use box_fraise_server.Table.{find, exists, count, update}
use box_fraise_server.Pairings.Types.{
  says_yes, says_no, Pairing, PairingNonce, PairingRow, PairingView, opened, DecisionRequest,
  status, peer_of,
}
use box_fraise_server.Pairings.Repository.{
  Db, pairing_columns, bf_peer_display_name, get_for_user, get_nonce, burn_nonce, insert_pairing,
  new_pairing, pending_count_for, is_authorized, between, lower_of, upper_of,
}
use box_fraise_server.Pairings.Service.{
  parse_decision, check_claim, check_signature, check_decide, check_status, finish_claim,
  write_claim, conclude_claim, decide, block, authorized,
}
use box_fraise_server.Pairings.Trace.{
  listing, authorizing, decision, claiming_in_person, Config, serve, run, observe,
}
use box_fraise_server.Pairings.Privacy.Mask.{mask_db}
use box_fraise_server.Pairings.Privacy.SilentDecline.{observe-mask}
use box_fraise_server.Pairings.Privacy.Declining.{observe-decide_no}
use box_fraise_server.Pairings.Lifecycle.Evolves.{Evolves, serve-Evolves}
use box_fraise_server.Pairings.Lifecycle.Invariant.{IsSound, IsValid, run-IsValid}
use box_fraise_server.Pairings.Lifecycle.Final.{block-final}
use box_fraise_server.Pairings.Gate.{
  pairing_of, IsConsented, IsLive, authorized-IsLive, authorized-IsConsented,
}
use box_fraise_server.Pairings.Claims.{IsClaim, finish_claim-ok}
use box_fraise_server.Pairings.Claims.Replay.{claim-replay}
use box_fraise_server.Pairings.Claims.Paired.{claim-paired}
use box_fraise_server.Pairings.Deciding.{IsReady, decide-ok, decide-opens}
use box_fraise_server.Pairings.Atomic.{is_error, serve-atomic}

-- Base64 that is the identity, and signatures that always verify.
abbrev crypto : Crypto
crypto = record {
  url_safe_no_pad = λ t. some t;
  url_safe = λ t. some t;
  standard = λ t. some t;
  encode_url_safe_no_pad = λ b. b;
  public_key_from_sec1 = λ b. some b;
  signature_from_der = λ b. some b;
  normalize_s = λ b. none;
  verify = λ k n s. true;
}

abbrev config : Config
config = record { pairing_cooling = 10; pairing_window = 90 }

abbrev at_time : ℕ → Env
at_time t = record {
  now = t;
  later = t;
  db_now = t;
  uuid = 50;
  other_uuid = 51;
  nonce = 9 ∷ [];
  audit_up = true;
}

-- The pairing of the members 1 and 2; the first has said yes.
abbrev met : Pairing
met = record {
  id = 7;
  lower_user_id = 1;
  upper_user_id = 2;
  event_id = none;
  met_at = 0;
  opens_at = 10;
  expires_at = 100;
  lower_decision = some says_yes;
  upper_decision = none;
  lower_decided_at = some 12;
  upper_decided_at = none;
  opened_at = none;
  closed_at = none;
  closed_by = none;
}

abbrev friends : Pairing
friends = record met {
  upper_decision = some says_yes;
  upper_decided_at = some 20;
  opened_at = some 20;
}

abbrev issued : PairingNonce
issued = record {
  nonce = 5 ∷ [];
  initiator_id = 1;
  event_id = none;
  issued_at = 0;
  expires_at = 120;
  used_at = none;
}

abbrev tables : List Pairing → Db
tables ps = record {
  pairing_nonces = issued ∷ [];
  pairings = ps;
  users = record { id = 1; display_name = none } ∷ record { id = 2; display_name = none } ∷ [];
  device_keys = [];
  events = [];
  audit_events = [];
}

abbrev saying : Text → DecisionRequest
saying s = record { decision = s }

abbrev yes_request : DecisionRequest
yes_request = saying (codes "yes")

abbrev no_request : DecisionRequest
no_request = saying (codes " no")

parse_no : parse_decision no_request.decision ≡ some says_no
unfolding parse_decision text_eq trim trim_start is_whitespace
parse_no = refl

parse_yes : parse_decision yes_request.decision ≡ some says_yes
unfolding parse_decision text_eq trim trim_start is_whitespace
parse_yes = refl

met-IsSound : IsSound met
met-IsSound = ground arith

friends-IsSound : IsSound friends
friends-IsSound = ground arith

met-tables-IsValid : IsValid (tables (met ∷ []))
met-tables-IsValid = record { distinct = (tt, tt); sound = (met-IsSound, tt) }

friends-tables-IsValid : IsValid (tables (friends ∷ []))
friends-tables-IsValid = record { distinct = (tt, tt); sound = (friends-IsSound, tt) }

tables_empty-IsValid : IsValid (tables [])
tables_empty-IsValid = record { distinct = tt; sound = tt }

abbrev row_of_met : PairingRow
unfolding pairing_columns bf_peer_display_name
row_of_met = pairing_columns 2 (tables (met ∷ [])) met

get_met : get_for_user 2 7 (tables (met ∷ [])) ≡ some (pairing_columns 2 (tables (met ∷ [])) met)
unfolding get_for_user find
get_met = refl

get_friends :
    get_for_user 2 7 (tables (friends ∷ []))
    ≡ some (pairing_columns 2 (tables (friends ∷ [])) friends)
unfolding get_for_user find
get_friends = refl

one_two : ◌≢◌ {A = ℕ} 1 2
one_two = λ e. omega (arith, e)

observe-decide_no_example :
    observe crypto config 1
      ((at_time 60, 1, listing) ∷ (at_time 61, 1, authorizing 2) ∷ [])
      (decide (at_time 50) 2 7 no_request (tables (met ∷ []))).1
    ≡ observe crypto config 1
        ((at_time 60, 1, listing) ∷ (at_time 61, 1, authorizing 2) ∷ [])
        (tables (met ∷ []))
observe-decide_no_example =
    observe-decide_no 1 2 7 one_two crypto config (at_time 50) no_request (tables (met ∷ []))
      parse_no ((λ _. (refl, refl, refl)), tt)
      ((at_time 60, 1, listing) ∷ (at_time 61, 1, authorizing 2) ∷ [])

observe-mask_example :
    observe crypto config 1 ((at_time 60, 1, listing) ∷ []) (mask_db 1 (tables (met ∷ [])))
    ≡ observe crypto config 1 ((at_time 60, 1, listing) ∷ []) (tables (met ∷ []))
observe-mask_example =
    observe-mask crypto config 1 ((at_time 60, 1, listing) ∷ []) (tables (met ∷ []))

serve-Evolves_example :
    Evolves
      (at_time 50)
      2
      (met ∷ [])
      (serve crypto config (at_time 50) 2 (decision 7 yes_request) (tables (met ∷ []))).1.pairings
serve-Evolves_example =
    serve-Evolves (at_time 50) 2 crypto config (decision 7 yes_request) (tables (met ∷ [])) (tt, tt)

run-IsValid_example : IsValid (
    run crypto config
      ((at_time 5, 2, claiming_in_person (record { nonce = 5 ∷ [] }))
        ∷ (at_time 20, 1, decision 50 yes_request)
        ∷ [])
      (tables []))
run-IsValid_example =
    run-IsValid crypto config
      ((at_time 5, 2, claiming_in_person (record { nonce = 5 ∷ [] }))
        ∷ (at_time 20, 1, decision 50 yes_request)
        ∷ [])
      (tables []) tables_empty-IsValid

block-final_example :
    let t =
      run crypto config
        ((at_time 60, 1, decision 7 yes_request) ∷ [])
        (block (at_time 50) 2 7 (tables (friends ∷ []))).1 in
    (authorized 2 (peer_of (pairing_columns 2 (tables (friends ∷ [])) friends) 2) t
      ≡ ok (record { authorized = false }))
    × (authorized (peer_of (pairing_columns 2 (tables (friends ∷ [])) friends) 2) 2 t
        ≡ ok (record { authorized = false }))
block-final_example =
    block-final (at_time 50) 2 7 crypto config (tables (friends ∷ []))
      (pairing_columns 2 (tables (friends ∷ [])) friends) friends-tables-IsValid get_friends
      ((at_time 60, 1, decision 7 yes_request) ∷ [])

authorized-IsLive_example :
    (authorized 2 1 (tables (friends ∷ [])) ≡ ok (record { authorized = true }))
    ↔ ((p : Pairing) × Memᴰ p (friends ∷ []) × IsLive 2 1 p)
authorized-IsLive_example = authorized-IsLive 2 1 (tables (friends ∷ [])) friends-tables-IsValid

friends_authorized : authorized 2 1 (tables (friends ∷ [])) ≡ ok (record { authorized = true })
unfolding authorized is_authorized exists
friends_authorized = refl

authorized-IsConsented_example :
    (p : Pairing) × (pairing_of 2 1 (tables (friends ∷ [])) ≡ some p) × IsConsented 2 1 p
authorized-IsConsented_example =
    authorized-IsConsented 2 1 (tables (friends ∷ [])) friends-tables-IsValid friends_authorized

claimed :
    (finish_claim crypto (at_time 5) 2 10 90 (5 ∷ []) none (tables [])).0
    ≡ ok (record { pairing_id = 50; opens_at = 15 })
unfolding finish_claim check_claim check_signature get_nonce pending_count_for write_claim
    conclude_claim burn_nonce insert_pairing new_pairing text_eq find count exists update
claimed = refl

finish_claim-ok_example :
    (n : PairingNonce) × IsClaim crypto
      (at_time 5)
      2
      10
      90
      (5 ∷ [])
      none
      (tables [])
      (finish_claim crypto (at_time 5) 2 10 90 (5 ∷ []) none (tables [])).1
      n
      (record { pairing_id = 50; opens_at = 15 })
finish_claim-ok_example =
    finish_claim-ok crypto (at_time 5) 2 10 90 (5 ∷ []) none (tables []) claimed

claim-replay_example :
    let t =
      run crypto config
        ((at_time 20, 1, decision 50 yes_request) ∷ [])
        (finish_claim crypto (at_time 5) 2 10 90 (5 ∷ []) none (tables [])).1 in
    finish_claim crypto (at_time 30) 3 10 90 (5 ∷ []) none t ≡ (err conflict, t)
claim-replay_example =
    claim-replay (5 ∷ []) crypto config (at_time 5) 2 10 90 none (tables []) claimed
      ((at_time 20, 1, decision 50 yes_request) ∷ []) (at_time 30) 3 10 90 none

checked_again : check_claim crypto (at_time 5) 2 (5 ∷ []) none (tables (met ∷ [])) ≡ ok issued
unfolding check_claim check_signature get_nonce pending_count_for text_eq find count
checked_again = refl

paired : exists (between (lower_of 2 1) (upper_of 2 1)) (met ∷ []) ≡ true
unfolding exists
paired = refl

claim-paired_example :
    finish_claim crypto (at_time 5) 2 10 90 (5 ∷ []) none (tables (met ∷ []))
    ≡ (err conflict, tables (met ∷ []))
claim-paired_example =
    claim-paired crypto (at_time 5) 2 10 90 (5 ∷ []) none (tables (met ∷ [])) checked_again
      (omega arith) paired

ready : IsReady (at_time 50) 2 (pairing_columns 2 (tables (met ∷ [])) met)
unfolding pairing_columns
ready = record {
  unclosed = refl;
  unopened = refl;
  inside = (omega arith, omega arith);
  inside_db = (omega arith, omega arith);
  other = refl;
}

decide-opens_example :
    (v : PairingView) × ((decide (at_time 50) 2 7 yes_request (tables (met ∷ []))).0 ≡ ok v)
    × (v.status ≡ opened)
    × (v.peer_id ≡ some (peer_of (pairing_columns 2 (tables (met ∷ [])) met) 2))
decide-opens_example =
    decide-opens (at_time 50) 2 7 yes_request (tables (met ∷ []))
      (pairing_columns 2 (tables (met ∷ [])) met) parse_yes get_met ready

-- The reply to that yes.
yes_reply : (v : PairingView) × ((decide (at_time 50) 2 7 yes_request (tables (met ∷ []))).0 ≡ ok v)
yes_reply =
    let (v, replied, _, _) =
      decide-opens (at_time 50) 2 7 yes_request (tables (met ∷ []))
        (pairing_columns 2 (tables (met ∷ [])) met) parse_yes get_met ready in
    (v, replied)

decide-ok_example :
    (row : PairingRow) × (get_for_user 2 7 (tables (met ∷ [])) ≡ some row)
    × (row.closed_at ≡ none)
    × ((is_some row.opened_at ≡ true) ⊎ ((row.opens_at ≤ 50) × (50 < row.expires_at)))
    × (yes_reply.0.my_decision ≡ parse_decision yes_request.decision)
decide-ok_example = decide-ok (at_time 50) 2 7 yes_request (tables (met ∷ [])) yes_reply.1

early :
    is_error (serve crypto config (at_time 5) 2 (decision 7 yes_request) (tables (met ∷ []))).0
    ≡ true
unfolding serve decide check_decide check_status status parse_decision text_eq trim trim_start
    is_whitespace get_for_user pairing_columns find
early = refl

serve-atomic_example :
    (serve crypto config (at_time 5) 2 (decision 7 yes_request) (tables (met ∷ []))).1
    ≡ tables (met ∷ [])
serve-atomic_example =
    serve-atomic crypto config (at_time 5) 2 (tables (met ∷ [])) (decision 7 yes_request) early
