-- ===== src/Pairings/Lifecycle/Step.antt =====
-- What one request may do to one row of `pairings`, as PAIRING.md has it.
use box_fraise_server.Prelude.{
  ℕ, ◌≡◌, refl, ◌≤◌, ◌<◌, ◌⊎◌, inl, inr, Bool, true, false, Option, none, some, arith, is_some,
  Bool-cases,
}
use box_fraise_server.Table.Laws.{changed}
use box_fraise_server.Server.{Env}
use box_fraise_server.Pairings.Types.{Decision, says_yes, Pairing}
use box_fraise_server.Pairings.Repository.{Conn, is_own, is_mutual, is_closable, decide_row}

-- A pairing takes answers from its opening date to its expiry, and after that if it is a channel.
abbrev pub IsAnswerable : ℕ → Pairing → Type 0
IsAnswerable now p =
    (p.closed_at ≡ none)
    × ((is_some p.opened_at ≡ true) ⊎ ((p.opens_at ≤ now) × (now < p.expires_at)))

abbrev pub Answers : Env → ℕ → Pairing → ℕ → Option Decision → Option Decision → Type 0
Answers env u p side old new =
    (new ≡ old) ⊎ ((is_some new ≡ true) × (u ≡ side) × IsAnswerable env.now p)

-- The request of user `u` takes the row `p` to the row `q`.
pub record Step (env : Env) (u : ℕ) (p q : Pairing) : Type 0 where
  pub same_id : q.id ≡ p.id
  pub same_lower : q.lower_user_id ≡ p.lower_user_id
  pub same_upper : q.upper_user_id ≡ p.upper_user_id
  pub same_opens : q.opens_at ≡ p.opens_at
  pub same_expires : q.expires_at ≡ p.expires_at
  -- an answer is written only for its own side
  pub lower_answer : Answers env u p p.lower_user_id p.lower_decision q.lower_decision
  pub upper_answer : Answers env u p p.upper_user_id p.upper_decision q.upper_decision
  -- a channel opens only on two yeses, inside the window, and stays open
  pub opening :
      (q.opened_at ≡ p.opened_at)
      ⊎ (p.opened_at ≡ none)
        × (p.closed_at ≡ none)
        × (q.opened_at ≡ some env.db_now)
        × (p.opens_at ≤ env.db_now)
        × (env.db_now < p.expires_at)
        × (q.lower_decision ≡ some says_yes)
        × (q.upper_decision ≡ some says_yes)
  -- only a participant closes, and only once
  pub closing :
      (q.closed_at ≡ p.closed_at)
      ⊎ (p.closed_at ≡ none)
        × (q.closed_at ≡ some env.db_now)
        × ((u ≡ p.lower_user_id) ⊎ (u ≡ p.upper_user_id))

module _ (env : Env) (u : ℕ) where
  pub Step-refl : (p : Pairing) → Step env u p p
  Step-refl p = record {
    same_id = refl;
    same_lower = refl;
    same_upper = refl;
    same_opens = refl;
    same_expires = refl;
    lower_answer = inl refl;
    upper_answer = inl refl;
    opening = inl refl;
    closing = inl refl;
  }

  abbrev conn : Conn
  conn = record { user = u; now = env.db_now }

  pub Step-close :
      (id : ℕ) (p : Pairing)
      → Step env u p (
          changed
            (is_closable conn id)
            (λ q. record q { closed_at = some env.db_now; closed_by = some u })
            p)
  Step-close id p = ground arith

  -- The two updates of `decide`, on a row that its guards have admitted if it is the one meant.
  pub Step-decide :
      (id : ℕ) (b : Bool) (d : Decision) (p : Pairing)
      → (is_own u id p ≡ true
          → IsAnswerable env.now p
            × ((p.lower_user_id ≡ u) ⊎ (b ≡ false))
            × ((p.upper_user_id ≡ u) ⊎ (b ≡ true)))
      → Step env u p (
          changed
            (is_mutual conn id)
            (λ q. record q { opened_at = some env.db_now })
            (changed (is_own u id) (decide_row b d env.db_now) p))
  unfolding is_mutual decide_row
  Step-decide id b d p h = elim (Bool-cases (is_own u id p)) [
    | inl own ↦ admitted (h own)
    | inr other ↦ ground arith
  ]
    where
      admitted :
          IsAnswerable env.now p
            × ((p.lower_user_id ≡ u) ⊎ (b ≡ false))
            × ((p.upper_user_id ≡ u) ⊎ (b ≡ true))
          → Step env u p (
              changed
                (is_mutual conn id)
                (λ q. record q { opened_at = some env.db_now })
                (changed (is_own u id) (decide_row b d env.db_now) p))
      admitted k = ground arith
