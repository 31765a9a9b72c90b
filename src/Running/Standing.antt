-- ===== src/Running/Standing.antt =====
-- How a logged run moves its runner on the board of src/domain/running.
use box_fraise_server.Prelude.{
  ◌≢◌, Bool, true, false, Option, none, some, ◌∙◌, ◌==◌, if◌then◌else◌, inl, inr, ℕ, ◌+◌, ◌≡◌, refl,
  arith, ap, ap₂, List, [], ◌∷◌, ◌++◌,
}
use box_fraise_server.Prelude.Integers.{magnitude}
use box_fraise_server.Errors.{ok, Result-cases}
use box_fraise_server.Server.{Env}
use box_fraise_server.Table.{select, sum}
use box_fraise_server.Table.Counting.{sum-append}
use box_fraise_server.Running.Board.{AtMost, run_score}
use box_fraise_server.Running.Types.{LoggedRun, LogRun, Running}
use box_fraise_server.Running.Repository.{score, new_run, insert_run, standing}
use box_fraise_server.Running.Service.{check_log_run, conclude_log_run, log_run}
use box_fraise_server.Running.Cases.{insert_run-some}
use box_fraise_server.Running.Averages.{score-falls, score-rises}

select-append_one :
    (p : LoggedRun → Bool) (runs : List LoggedRun) (r : LoggedRun)
    → select p (runs ++ r ∷ []) ≡ (if p r then select p runs ++ r ∷ [] else select p runs)
unfolding select
select-append_one p [] r = ground arith
select-append_one p (x ∷ runs) r = let rest = select-append_one p runs r in ground (arith, rest)

conclude_log_run-ok :
    (o : Option Running) (t : Running)
    → (conclude_log_run o t).0 ≡ ok tt
    → (s : Running) × (o ≡ some s) × ((conclude_log_run o t).1 ≡ s)
unfolding conclude_log_run
conclude_log_run-ok none t h = cc h
conclude_log_run-ok (some s) t h = (s, refl, refl)

-- What a logged run adds.
log_run-ok :
    (env : Env) (runner : ℕ) (req : LogRun) (t : Running)
    → (log_run env runner req t).0 ≡ ok tt
    → (log_run env runner req t).1.logged_runs
      ≡ t.logged_runs
        ++ new_run env.db_now env.uuid runner (magnitude req.distance_m) (magnitude req.duration_s)
          ∷ []
unfolding log_run
log_run-ok env runner req t h = elim (Result-cases (check_log_run req)) [
  | inr (x, e) ↦ cc (rw (e, log_run) at h)
  | inl (_, e) ↦
      let made = insert_run env.db_now env.uuid runner req.distance_m req.duration_s t in
      let (s, f, after) = conclude_log_run-ok made t (rw (e, log_run) at h) in
      let rows = insert_run-some env.db_now env.uuid runner req.distance_m req.duration_s t f in
      rw (e, log_run) (ap (λ x. x.logged_runs) after ∙ ap (λ x. x.logged_runs) (rows.3))
]

none_more :
    (other : ℕ) (r : LoggedRun)
    → (r.runner_id == other) ≡ false
    → (n : ℕ) → n + sum (λ x. x.runner_id == other) (λ x. x.distance_m) (r ∷ []) ≡ n
unfolding sum
none_more other r m n = rw m (omega arith)

standing_other :
    (other : ℕ) (runs : List LoggedRun) (r : LoggedRun)
    → (r.runner_id == other) ≡ false
    → standing other (runs ++ r ∷ []) ≡ standing other runs
unfolding standing
standing_other other runs r miss =
    let rows : select (λ x. x.runner_id == other) (runs ++ r ∷ [])
        ≡ select (λ x. x.runner_id == other) runs =
      select-append_one (λ x. x.runner_id == other) runs r ∙ rw miss refl in
    let metres : sum (λ x. x.runner_id == other) (λ x. x.distance_m) (runs ++ r ∷ [])
        ≡ sum (λ x. x.runner_id == other) (λ x. x.distance_m) runs =
      sum-append (λ x. x.runner_id == other) (λ x. x.distance_m) runs (r ∷ [])
      ∙ none_more other r miss (sum (λ x. x.runner_id == other) (λ x. x.distance_m) runs) in
    ap₂ (λ a b. (a, b)) (ap score rows) metres

-- A run that is logged moves the score of its runner towards its own: it never raises a score
-- that is at least its own, and never lowers one that is at most its own; and it leaves the
-- score and the total of every other runner alone.
pub log_run-standing :
    (env : Env) (runner : ℕ) (req : LogRun) (t : Running)
    → (log_run env runner req t).0 ≡ ok tt
    → let own = run_score (magnitude req.distance_m) (magnitude req.duration_s) in
      let before = standing runner t.logged_runs in
      let after = standing runner (log_run env runner req t).1.logged_runs in
      (AtMost own before.0 → AtMost after.0 before.0)
      × (AtMost before.0 own → AtMost before.0 after.0)
      × ((other : ℕ)
          → other ≢ runner
          → standing other (log_run env runner req t).1.logged_runs ≡ standing other t.logged_runs)
unfolding standing
log_run-standing env runner req t h =
    let r =
      new_run env.db_now env.uuid runner (magnitude req.distance_m) (magnitude req.duration_s) in
    let rows = log_run-ok env runner req t h in
    let mine : select (λ x. x.runner_id == runner) (t.logged_runs ++ r ∷ [])
        ≡ select (λ x. x.runner_id == runner) t.logged_runs ++ r ∷ [] =
      select-append_one (λ x. x.runner_id == runner) t.logged_runs r ∙ rw (self runner) refl in
    rw (rows, mine)
      (
        score-falls (select (λ x. x.runner_id == runner) t.logged_runs) r,
        score-rises (select (λ x. x.runner_id == runner) t.logged_runs) r,
        λ other apart. standing_other other t.logged_runs r (ground arith),
      )
  where
    self : (n : ℕ) → (n == n) ≡ true
    self n = ground arith
