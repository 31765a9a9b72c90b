-- ===== src/Http/Cookies.antt =====
-- src/http/cookies.rs: reading our cookies out of a request, and writing them into a response.
use Prim.Native.Nat.{◌/◌, ◌%◌}
use box_fraise_server.Prelude.{
  ℕ, zero, suc, ◌+◌, ◌*◌, Bool, false, Option, none, some, List, [], ◌∷◌, ◌++◌, leb, ltb, ◌==◌,
  if◌then◌else◌,
}
use box_fraise_server.Prelude.Text.{Text, codes, text_eq, trim, is_empty}
use box_fraise_server.Server.{Bytes}
use box_fraise_server.Table.{find}

-- The crate `http`: a header value from a string, where it admits one, and `to_str`.
pub record HeaderValues : Type 0 where
  pub from_str : Text → Option Bytes
  pub to_str : Bytes → Option Text

-- The values of the headers that are read; `none` is one that is not visible ASCII, which
-- `to_str` refuses.
pub record Headers : Type 0 where
  pub cookie : List (Option Text)
  pub authorization : Option (Option Text)
  pub x_forwarded_proto : Option (Option Text)

abbrev pub session : Text
session = codes "bf_session"

abbrev pub member : Text
member = codes "bf_member"

abbrev pub runner : Text
runner = codes "bf_run"

abbrev pub runner_name : Text
runner_name = codes "bf_runner"

-- In seconds.
abbrev pub max_age : ℕ
max_age = 60 * 60 * 24 * 730

abbrev pub runner_max_age : ℕ
runner_max_age = 60 * 60 * 24 * 90

abbrev pub semicolon : ℕ
semicolon = 59

abbrev pub equals_sign : ℕ
equals_sign = 61

abbrev pub glue : ℕ → List Text → List Text
glue c [] = (c ∷ []) ∷ []
glue c (s ∷ parts) = (c ∷ s) ∷ parts

-- `str::split` at a character.
unfoldable pub split : ℕ → Text → List Text
split at [] = [] ∷ []
split at (c ∷ s) = if c == at then [] ∷ split at s else glue c (split at s)

abbrev pub before : ℕ → Option (Text × Text) → Option (Text × Text)
before c none = none
before c (some p) = some (c ∷ p.0, p.1)

-- `str::split_once` at a character.
unfoldable pub split_once : ℕ → Text → Option (Text × Text)
split_once at [] = none
split_once at (c ∷ s) = if c == at then some ([], s) else before c (split_once at s)

abbrev pub keep_some : Option (Text × Text) → List (Text × Text) → List (Text × Text)
keep_some none pairs = pairs
keep_some (some p) pairs = p ∷ pairs

-- The pairs of one line, in order.
unfoldable pub pairs_of : List Text → List (Text × Text)
pairs_of [] = []
pairs_of (part ∷ parts) = keep_some (split_once equals_sign part) (pairs_of parts)

unfoldable pub pairs : List (Option Text) → List (Text × Text)
pairs [] = []
pairs (none ∷ lines) = pairs lines
pairs (some line ∷ lines) = pairs_of (split semicolon line) ++ pairs lines

abbrev pub value_of : Option (Text × Text) → Option Text
value_of none = none
value_of (some p) = if is_empty (trim p.1) then none else some (trim p.1)

unfoldable pub get : Headers → Text → Option Text
get headers name = value_of (find (λ p. text_eq (trim p.0) name) (pairs headers.cookie))

abbrev lower : ℕ → ℕ
lower c = if leb 65 c then (if leb c 90 then c + 32 else c) else c

-- `eq_ignore_ascii_case`
unfoldable pub eq_ignore_case : Text → Text → Bool
eq_ignore_case [] [] = Bool.true
eq_ignore_case [] (d ∷ t) = false
eq_ignore_case (c ∷ s) [] = false
eq_ignore_case (c ∷ s) (d ∷ t) = if lower c == lower d then eq_ignore_case s t else false

abbrev head_part : List Text → Text
head_part [] = []
head_part (s ∷ parts) = s

unfoldable pub is_secure : Headers → Bool
is_secure headers = elim headers.x_forwarded_proto [
  | none ↦ false
  | some none ↦ false
  | some (some v) ↦ eq_ignore_case (trim (head_part (split 44 v))) (codes "https")
]

-- The decimal digits of `n` before `s`; `n` rounds are enough for a positive `n`.
unfoldable pub digits : ℕ → ℕ → Text → Text
digits zero n s = s
digits (suc rounds) n s =
    let rest = digits rounds (n / 10) ((48 + n % 10) ∷ s) in if ltb n 10 then (48 + n) ∷ s else rest

abbrev pub to_string : ℕ → Text
to_string n = digits (suc n) n []

-- What follows the first semicolon.
unfoldable pub attributes : ℕ → Bool → Bool → Text
attributes age http_only secure =
    codes " Path=/; Max-Age="
    ++ to_string age
    ++ codes "; SameSite=Lax"
    ++ (if http_only then codes "; HttpOnly" else [])
    ++ (if secure then codes "; Secure" else [])

-- `format!("{name}={value}; Path=/; Max-Age={max_age}; SameSite=Lax")` and the two flags.
unfoldable pub cookie_text : Text → Text → ℕ → Bool → Bool → Text
cookie_text name value age http_only secure =
    name ++ equals_sign ∷ value ++ semicolon ∷ attributes age http_only secure

-- Both values of a response, or the panic of either.
abbrev pub both : Option Bytes → Option Bytes → Option (List Bytes)
both none b = none
both (some a) none = none
both (some a) (some b) = some (a ∷ b ∷ [])

module _ (hv : HeaderValues) where
  -- `none` is the panic of `expect`.
  unfoldable pub set : Text → Text → ℕ → Bool → Bool → Option Bytes
  set name value age http_only secure = hv.from_str (cookie_text name value age http_only secure)

  unfoldable pub sign_in : Text → ℕ → Bool → Option (List Bytes)
  sign_in token member_no secure =
      both (set session token max_age Bool.true secure)
        (set member (to_string member_no) max_age false secure)

  unfoldable pub sign_out : Bool → Option (List Bytes)
  sign_out secure = both (set session [] 0 Bool.true secure) (set member [] 0 false secure)

  unfoldable pub runner_in : Text → Text → Bool → Option (List Bytes)
  runner_in token username secure =
      both (set runner token runner_max_age Bool.true secure)
        (set runner_name username runner_max_age false secure)

  unfoldable pub runner_out : Bool → Option (List Bytes)
  runner_out secure = both (set runner [] 0 Bool.true secure) (set runner_name [] 0 false secure)
