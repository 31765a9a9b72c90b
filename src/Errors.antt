-- ===== src/Errors.antt =====
-- src/error.rs: the error type that every handler returns, and the HTTP response it becomes.

use box_fraise_server.Prelude.{
  ℕ, String, Option, none, some, Bool, true, false, ◌≡◌, refl, ap, ◌⊎◌, inl, inr,
}

-- `Db` and `Internal` carry an error of a library, which only the log reads.
pub data AppError : Type 0 where
  not_found unauthorized forbidden conflict : AppError
  bad_request too_many_requests : String → AppError
  invalid_signature db internal : AppError

-- `AppResult`.
pub data Result {ℓ} (Value : Type ℓ) : Type ℓ where
  err : AppError → Result Value
  ok : Value → Result Value

-- The operator `?` of Rust: an error ends the function.
infixl 5 ◌>>=◌
abbrev pub ◌>>=◌ {ℓ κ} :
    {Value : Type ℓ} {Next : Type κ} → Result Value → (Value → Result Next) → Result Next
err failure >>= next = err failure
ok value >>= next = next value

infixl 5 ◌>>◌
abbrev pub ◌>>◌ {κ} : {Next : Type κ} → Result (Unit {0}) → Result Next → Result Next
check >> next = check >>= λ _. next

-- `if refused { return Err(failure) }`
abbrev pub fail_if : Bool → AppError → Result (Unit {0})
fail_if false failure = ok tt
fail_if true failure = err failure

-- `Option::ok_or`
abbrev pub ok_or {ℓ} : {Value : Type ℓ} → Option Value → AppError → Result Value
ok_or (some value) failure = ok value
ok_or none failure = err failure

-- `Result::is_ok`
abbrev pub is_ok {ℓ} : {Value : Type ℓ} → Result Value → Bool
is_ok (ok _) = true
is_ok (err _) = false

pub Result-cases {ℓ} :
    {A : Type ℓ} (r : Result A) → ((a : A) × (r ≡ ok a)) ⊎ ((e : AppError) × (r ≡ err e))
Result-cases (ok a) = inl (a, refl)
Result-cases (err e) = inr (e, refl)

pub ok-injective {ℓ} : {A : Type ℓ} (a b : A) → ok a ≡ ok b → a ≡ b
ok-injective a b h = cc h

-- A chain that ends well has ended well at every link.
pub bind-ok {ℓ κ} :
    {A : Type ℓ} {B : Type κ} (r : Result A) (next : A → Result B) {b : B}
    → (r >>= next) ≡ ok b
    → (a : A) × (r ≡ ok a) × (next a ≡ ok b)
bind-ok (ok a) next h = (a, refl, h)
bind-ok (err e) next h = cc h

pub fail_if-ok :
    (refused : Bool) (failure : AppError) → fail_if refused failure ≡ ok tt → refused ≡ false
fail_if-ok false failure h = refl
fail_if-ok true failure h = cc h

pub ok_or-ok {ℓ} :
    {A : Type ℓ} (o : Option A) (failure : AppError) {a : A} → ok_or o failure ≡ ok a → o ≡ some a
ok_or-ok none failure h = cc h
ok_or-ok (some a) failure {a = b} h = ap some (ok-injective a b h)

-- The JSON body: an `error` tag and, for two kinds, a `message`.
pub record Response : Type 0 where
  pub status : ℕ
  pub error : String
  pub message : Option String

unfoldable pub into_response : AppError → Response
into_response not_found = record { status = 404; error = "not_found"; message = none }
into_response unauthorized = record { status = 401; error = "unauthorized"; message = none }
into_response forbidden = record { status = 403; error = "forbidden"; message = none }
into_response conflict = record { status = 409; error = "conflict"; message = none }
into_response (bad_request m) = record { status = 400; error = "bad_request"; message = some m }
into_response (too_many_requests m) = record {
  status = 429;
  error = "too_many_requests";
  message = some m;
}
into_response invalid_signature = record {
  status = 401;
  error = "invalid_signature";
  message = none;
}
into_response db = record { status = 500; error = "internal"; message = none }
into_response internal = record { status = 500; error = "internal"; message = none }
