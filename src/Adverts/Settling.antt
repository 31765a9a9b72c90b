-- ===== src/Adverts/Settling.antt =====
-- Money: what a runner is owed and has collected, under the handler `pay`.
use box_fraise_server.Prelude.{
  ℕ, ◌+◌, ◌≡◌, ◌≢◌, refl, true, false, ◌&&◌, some, arith, List, [], ◌∷◌, ◌==◌, if◌then◌else◌,
}
use box_fraise_server.Prelude.Text.{Text, text_eq}
use box_fraise_server.Table.{exists, sum, update}
use box_fraise_server.Table.Counting.{sum-update}
use box_fraise_server.Table.Laws.{changed}
use box_fraise_server.Adverts.Types.{AdOpen, Runner, Db}
use box_fraise_server.Adverts.Repository.{is_owed, is_collected, is_due, balances, pay}

-- A name belongs to one runner: `runners.username` is unique.
abbrev pub IsNamed : Text → ℕ → List Runner → Type 0
IsNamed username runner runners =
    (o : ℕ) → exists (λ r. r.id == o && text_eq r.username username) runners ≡ (o == runner)

module _ (username : Text) (runner : ℕ) (runners : List Runner)
    (named : IsNamed username runner runners) (now : ℕ) where
  due-owed : (o : AdOpen) → is_due username runners o ≡ is_owed runner o
  unfolding is_due
  due-owed o = rw (named o.runner_id) (ground arith)

  abbrev settle : AdOpen → AdOpen
  settle o = changed (is_due username runners) (λ x. record x { paid_at = some now }) o

  settle_row :
      (x : ℕ) (o : AdOpen)
      → (is_owed x (settle o) ≡ (if x == runner then false else is_owed x o))
        × (is_collected x (settle o) ≡ (if x == runner then o.runner_id == x else is_collected x o))
        × ((settle o).amount_cents ≡ o.amount_cents)
  settle_row x o = rw (due-owed o) (row o)
    where
      row :
          (o : AdOpen)
          → let p = changed (is_owed runner) (λ y. record y { paid_at = some now }) o in
            (is_owed x p ≡ (if x == runner then false else is_owed x o))
            × (is_collected x p ≡ (if x == runner then o.runner_id == x else is_collected x o))
            × (p.amount_cents ≡ o.amount_cents)
      row o = ground arith

  abbrev cents : AdOpen → ℕ
  cents o = o.amount_cents

  self : (runner == runner) ≡ true
  self = ground arith

  sum-due :
      (opens : List AdOpen)
      → sum (is_due username runners) cents opens ≡ sum (is_owed runner) cents opens
  unfolding sum
  sum-due [] = refl
  sum-due (o ∷ opens) = rw (due-owed o, sum-due opens)

  sum-settled_owed :
      (opens : List AdOpen)
      → sum
          (is_owed runner)
          cents
          (update (is_due username runners) (λ x. record x { paid_at = some now }) opens)
        ≡ 0
  unfolding sum update
  sum-settled_owed [] = refl
  sum-settled_owed (o ∷ opens) =
      let (owed, _, _) = rw self at (settle_row runner o) in rw (owed, sum-settled_owed opens)

  sum-settled_collected :
      (opens : List AdOpen)
      → sum
          (is_collected runner)
          cents
          (update (is_due username runners) (λ x. record x { paid_at = some now }) opens)
        ≡ sum (is_owed runner) cents opens + sum (is_collected runner) cents opens
  unfolding sum update
  sum-settled_collected [] = refl
  sum-settled_collected (o ∷ opens) =
      let (_, collected, amount) = rw self at (settle_row runner o) in
      rw (collected, amount, sum-settled_collected opens) (ground arith)

  sum-others :
      (x : ℕ) (opens : List AdOpen)
      → (x == runner) ≡ false
      → let t = update (is_due username runners) (λ y. record y { paid_at = some now }) opens in
        (sum (is_owed x) cents t ≡ sum (is_owed x) cents opens)
        × (sum (is_collected x) cents t ≡ sum (is_collected x) cents opens)
  sum-others x opens apart = (
    sum-update (is_owed x) cents (is_due username runners) (λ y. record y { paid_at = some now })
        (λ o. (rw apart at (settle_row x o)).0) (λ o. (settle_row x o).2) opens,
    sum-update (is_collected x) cents (is_due username runners)
        (λ y. record y { paid_at = some now }) (λ o. (rw apart at (settle_row x o)).1)
        (λ o. (settle_row x o).2) opens,
  )

-- If a name is that of one runner and of no other, paying the name hands over exactly what that
-- runner is owed: afterwards nothing is owed, the collected total has grown by that amount, and
-- the balances of every other runner are untouched.
pub pay-settles :
    (now : ℕ) (username : Text) (runner : ℕ) (db : Db)
    → IsNamed username runner db.runners
    → let ((amount, _), t) = pay now username db in
      (amount ≡ (balances runner db).0)
      × (balances runner t ≡ (0, (balances runner db).0 + (balances runner db).1))
      × ((x : ℕ) → x ≢ runner → balances x t ≡ balances x db)
unfolding pay balances
pay-settles now username runner db named = (
  sum-due username runner db.runners named now db.ad_opens,
  rw (
    sum-settled_owed username runner db.runners named now db.ad_opens,
    sum-settled_collected username runner db.runners named now db.ad_opens,
  ),
  λ x apart.
      let (owed, collected) =
        sum-others username runner db.runners named now x db.ad_opens (ground (arith, apart)) in
      rw (owed, collected),
)
