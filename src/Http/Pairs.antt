-- ===== src/Http/Pairs.antt =====
-- The way of a credential of src/http/cookies.rs to a browser and back.
use box_fraise_server.Prelude.{
  ℕ, ◌≡◌, refl, ap, ap₂, ◌∙◌, Bool, true, false, Option, some, none, List, [], ◌∷◌, ◌++◌, All,
}
use box_fraise_server.Prelude.Text.{Text, trim, trim_start, is_whitespace, is_empty, text_eq}
use box_fraise_server.Table.{find}
use box_fraise_server.Http.Cookies.{
  session, member, runner, pairs_of, pairs, value_of, get, to_string, HeaderValues, both, set,
  sign_in,
}
use box_fraise_server.Server.{Bytes}
use box_fraise_server.Http.Visible.{
  all_visible, to_string-all_visible, cookie_text-all_visible, names-all_visible,
}
use box_fraise_server.Http.Middleware.{token_from, bearer_from}
use box_fraise_server.Http.Plain.{IsPlain, trim-plain, to_string-IsPlain}
use box_fraise_server.Http.Lines.{
  sends, texts, cookie_line-texts, split-line, pairs-line, line-all_visible,
}

module _ (hv : HeaderValues)
    (ascii : (s : Text)
      → all_visible s ≡ true
      → (hv.from_str s ≡ some s) × (hv.to_str s ≡ some s)) where
  -- Nothing panics.
  sign_in-texts :
      (token : Text) (member_no : ℕ) (secure : Bool)
      → all_visible token ≡ true
      → sign_in hv token member_no secure ≡ some (texts token member_no secure)
  unfolding sign_in set
  sign_in-texts token member_no secure v =
      ap₂ both (ascii _ (cookie_text-all_visible session token true secure names-all_visible.0 v)).0
        (ascii _ (
          cookie_text-all_visible member (to_string member_no) false secure names-all_visible.1
            (to_string-all_visible member_no))).0

  pairs-texts :
      (token : Text) (member_no : ℕ) (secure : Bool)
      → All IsPlain token
      → all_visible token ≡ true
      → pairs (sends hv (texts token member_no secure)).cookie
        ≡ (session, token) ∷ (32 ∷ member, to_string member_no) ∷ []
  unfolding pairs
  pairs-texts token member_no secure p v =
      ap (λ (line : Bytes). pairs (hv.to_str line ∷ []))
        (cookie_line-texts token member_no secure p)
      ∙ ap (λ (line : Option Text). pairs (line ∷ []))
          (ascii _ (line-all_visible token member_no v)).1
      ∙ ap (λ parts. pairs_of parts ++ [])
          (split-line token (to_string member_no) p (to_string-IsPlain member_no).0)
      ∙ ap (λ l. l ++ []) (pairs-line token (to_string member_no))

trims : (trim session ≡ session) × (trim (32 ∷ member) ≡ member)
unfolding trim trim_start is_whitespace
trims = (refl, refl)

names_differ :
    (text_eq session session ≡ true)
    × (text_eq session member ≡ false)
    × (text_eq member member ≡ true)
    × (text_eq session runner ≡ false)
    × (text_eq member runner ≡ false)
unfolding text_eq
names_differ = (refl, refl, refl, refl, refl)

-- What `get` finds among the two pairs.
found-pairs :
    (token number : Text)
    → let rows : List (Text × Text) = (session, token) ∷ (32 ∷ member, number) ∷ [] in
      (find (λ p. text_eq (trim p.0) session) rows ≡ some (session, token))
      × (find (λ p. text_eq (trim p.0) member) rows ≡ some (32 ∷ member, number))
      × (find (λ p. text_eq (trim p.0) runner) rows ≡ none)
unfolding find
found-pairs token number =
    let (one, two) = trims in
    let (a, b, c, d, e) = names_differ in rw (one, two, a, b, c, d, e) (refl, refl, refl)

value_of-plain :
    (name value : Text)
    → All IsPlain value
    → is_empty value ≡ false
    → value_of (some (name, value)) ≡ some value
value_of-plain name value p e = rw (trim-plain value p, e) refl

-- A member's cookies come back: if the token is not empty, is visible ASCII, and has no semicolon
-- and no white space, and the crate `http` takes visible ASCII to a header value of those bytes
-- and back, then `sign_in` does not panic, and from the line that a browser sends after it the
-- session cookie reads as the token and the member cookie as the number in decimal, no runner
-- cookie is there, and the middleware takes the token for the request's.
pub sign_in-get :
    (hv : HeaderValues) (token : Text) (member_no : ℕ) (secure : Bool)
    → ((s : Text) → all_visible s ≡ true → (hv.from_str s ≡ some s) × (hv.to_str s ≡ some s))
    → All IsPlain token
    → all_visible token ≡ true
    → is_empty token ≡ false
    → (cookies : List Bytes) × (sign_in hv token member_no secure ≡ some cookies)
      × (get (sends hv cookies) session ≡ some token)
      × (get (sends hv cookies) member ≡ some (to_string member_no))
      × (get (sends hv cookies) runner ≡ none)
      × (token_from (sends hv cookies) ≡ some token)
unfolding get token_from bearer_from
sign_in-get hv token member_no secure ascii p v e =
    let rows = pairs-texts hv ascii token member_no secure p v in
    let (a, b, c) = found-pairs token (to_string member_no) in
    let (numbers, some_digit) = to_string-IsPlain member_no in
    let back = value_of-plain session token p e in
    let digits_back = value_of-plain (32 ∷ member) (to_string member_no) numbers some_digit in
    (
      texts token member_no secure,
      sign_in-texts hv ascii token member_no secure v,
      rw (rows, a) back,
      rw (rows, b) digits_back,
      rw (rows, c) refl,
      rw (rows, a) back,
    )
