-- ===== src/Http/Visible.antt =====
-- The texts of src/http/cookies.rs that a header may hold: printable ASCII.
use Prim.Native.Nat.{◌/◌, ◌%◌}
use box_fraise_server.Prelude.{
  ℕ, zero, suc, ◌+◌, ◌≡◌, refl, Bool, true, false, ◌&&◌, arith, [], ◌∷◌, ◌++◌, leb, ltb, inl, inr,
  Bool-cases,
}
use box_fraise_server.Prelude.Text.{Text}
use box_fraise_server.Http.Cookies.{
  equals_sign, semicolon, session, member, max_age, digits, to_string, attributes, cookie_text,
}

unfoldable pub all_visible : Text → Bool
all_visible [] = true
all_visible (c ∷ s) = leb 32 c && ltb c 127 && all_visible s

pub all_visible-append :
    (s t : Text) → all_visible s ≡ true → all_visible t ≡ true → all_visible (s ++ t) ≡ true
unfolding all_visible
all_visible-append [] t p q = q
all_visible-append (c ∷ s) t p q =
    let rest = all_visible-append s t (ground arith) q in ground (arith, p, rest)

digits-all_visible :
    (rounds n : ℕ) (s : Text) → all_visible s ≡ true → all_visible (digits rounds n s) ≡ true
unfolding digits all_visible
digits-all_visible zero n s p = p
digits-all_visible (suc rounds) n s p = elim (Bool-cases (ltb n 10)) [
  | inl e ↦ rw e (ground (arith, e, p))
  | inr e ↦ rw e (digits-all_visible rounds (n / 10) ((48 + n % 10) ∷ s) (ground (arith, p)))
]

pub to_string-all_visible : (n : ℕ) → all_visible (to_string n) ≡ true
unfolding all_visible
to_string-all_visible n = digits-all_visible (suc n) n [] refl

flags-all_visible :
    (http_only secure : Bool) → all_visible (attributes max_age http_only secure) ≡ true
unfolding all_visible attributes digits
flags-all_visible true true = refl
flags-all_visible true false = refl
flags-all_visible false true = refl
flags-all_visible false false = refl

-- A cookie of visible parts.
pub cookie_text-all_visible :
    (name value : Text) (http_only secure : Bool)
    → all_visible name ≡ true
    → all_visible value ≡ true
    → all_visible (cookie_text name value max_age http_only secure) ≡ true
unfolding cookie_text all_visible
cookie_text-all_visible name value http_only secure p q =
    all_visible-append (name ++ equals_sign ∷ value)
      (semicolon ∷ attributes max_age http_only secure)
      (all_visible-append name (equals_sign ∷ value) p q) (flags-all_visible http_only secure)

pub names-all_visible : (all_visible session ≡ true) × (all_visible member ≡ true)
unfolding all_visible
names-all_visible = (refl, refl)
