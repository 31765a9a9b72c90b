-- ===== src/Running/Types.antt =====
-- src/domain/running/types.rs, and the tables of migrations/0039_runners.sql.
use box_fraise_server.Prelude.{ℕ, List}
use box_fraise_server.Prelude.Integers.{ℤ}
use box_fraise_server.Prelude.Text.{Text}
use box_fraise_server.Server.{AuditEvent}
use box_fraise_server.Running.Board.{Fraction}

-- A row of `runners`.
pub record Runner : Type 0 where
  pub id : ℕ
  pub username : Text
  pub created_at : ℕ

-- A row of `runner_credentials`.
pub record RunnerCredentials : Type 0 where
  pub runner_id : ℕ
  pub password_hash : Text

-- A row of `runner_sessions`.
pub record RunnerSession : Type 0 where
  pub token_hash : Text
  pub runner_id : ℕ
  pub created_at : ℕ
  pub expires_at : ℕ

-- A row of `logged_runs`, whose CHECK constraints keep both measures positive.
pub record LoggedRun : Type 0 where
  pub id : ℕ
  pub runner_id : ℕ
  pub distance_m : ℕ
  pub duration_s : ℕ
  pub started_at : ℕ
  pub created_at : ℕ

pub record Running : Type 0 where
  pub runners : List Runner
  pub runner_credentials : List RunnerCredentials
  pub runner_sessions : List RunnerSession
  pub logged_runs : List LoggedRun
  pub audit_events : List AuditEvent

pub record Credentials : Type 0 where
  pub username : Text
  pub password : Text

pub record SignedIn : Type 0 where
  pub username : Text
  pub token : Text

pub record LogRun : Type 0 where
  pub distance_m : ℤ
  pub duration_s : ℤ

pub record Run : Type 0 where
  pub id : ℕ
  pub distance_m : ℕ
  pub duration_s : ℕ
  pub started_at : ℕ

-- The score is an exact fraction here, where the reply has the nearest `f64`.
pub record Me : Type 0 where
  pub username : Text
  pub runs : List Run
  pub score : Fraction
  pub total_m : ℕ

pub record BoardRow : Type 0 where
  pub username : Text
  pub score : Fraction
  pub runs : ℕ
  pub total_m : ℕ
