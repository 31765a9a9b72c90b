-- ===== src/Http/Tests.antt =====
-- Cookies of src/http on concrete credentials.
use box_fraise_server.Prelude.{◌≡◌, refl, true, some, none, List, Option, if◌then◌else◌}
use box_fraise_server.Prelude.Text.{Text, codes, is_whitespace}
use box_fraise_server.Http.Cookies.{
  HeaderValues, session, member, runner, get, digits, to_string, sign_in,
}
use box_fraise_server.Http.Middleware.{token_from}
use box_fraise_server.Server.{Bytes}
use box_fraise_server.Http.Visible.{all_visible}
use box_fraise_server.Http.Lines.{sends}
use box_fraise_server.Http.Pairs.{sign_in-get}

number_runs : to_string 1070 ≡ codes "1070"
unfolding digits
number_runs = refl

-- Visible ASCII only, each character a byte.
abbrev ascii_only : Text → Option Text
ascii_only s = if all_visible s then some s else none

abbrev ascii : HeaderValues
ascii = record { from_str = ascii_only; to_str = ascii_only }

sign_in-get_example :
    (cookies : List Bytes) × (sign_in ascii (codes "tok=") 42 true ≡ some cookies)
    × (get (sends ascii cookies) session ≡ some (codes "tok="))
    × (get (sends ascii cookies) member ≡ some (to_string 42))
    × (get (sends ascii cookies) runner ≡ none)
    × (token_from (sends ascii cookies) ≡ some (codes "tok="))
unfolding is_whitespace all_visible
sign_in-get_example =
    sign_in-get ascii (codes "tok=") 42 true (λ s v. (rw v refl, rw v refl))
      ((refl, refl), ((refl, refl), ((refl, refl), ((refl, refl), tt)))) refl refl
