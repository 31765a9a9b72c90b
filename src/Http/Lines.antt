-- ===== src/Http/Lines.antt =====
-- The line of cookies that a browser sends, and the pairs of src/http/cookies.rs in it.
use box_fraise_server.Prelude.{
  ℕ, ◌≡◌, refl, ap, ap₂, ◌∙◌, Bool, true, false, some, none, List, [], ◌∷◌, ◌++◌, All, All-append,
}
use box_fraise_server.Prelude.Text.{Text, is_whitespace}
use box_fraise_server.Http.Cookies.{
  Headers, session, member, max_age, attributes, keep_some, semicolon, equals_sign, split,
  split_once, pairs_of, to_string, cookie_text, HeaderValues,
}
use box_fraise_server.Server.{Bytes}
use box_fraise_server.Http.Visible.{
  all_visible, all_visible-append, to_string-all_visible, names-all_visible,
}
use box_fraise_server.Http.Plain.{IsPlain, split-plain, split-space, to_string-IsPlain}

-- What a browser keeps of a Set-Cookie value, and the line that it sends: RFC 6265, 5.2 and 5.4.
abbrev head_of : List Text → Text
head_of [] = []
head_of (pair ∷ attributes) = pair

abbrev cookie_pair : Text → Text
cookie_pair s = head_of (split semicolon s)

abbrev pub cookie_line : List Text → Text
cookie_line [] = []
cookie_line (c ∷ []) = cookie_pair c
cookie_line (c ∷ d ∷ cookies) = cookie_pair c ++ semicolon ∷ 32 ∷ cookie_line (d ∷ cookies)

abbrev pub sends : HeaderValues → List Bytes → Headers
sends hv cookies = record {
  cookie = hv.to_str (cookie_line cookies) ∷ [];
  authorization = none;
  x_forwarded_proto = none;
}

cookie_pair-append : (s rest : Text) → All IsPlain s → cookie_pair (s ++ semicolon ∷ rest) ≡ s
cookie_pair-append s rest p = ap head_of (split-plain s rest p)

-- The pair of a cookie with a plain name and value.
cookie_pair-set :
    (name value : Text) (age : ℕ) (http_only secure : Bool)
    → All IsPlain (name ++ equals_sign ∷ value)
    → cookie_pair (cookie_text name value age http_only secure) ≡ name ++ equals_sign ∷ value
unfolding cookie_text
cookie_pair-set name value age http_only secure p =
    cookie_pair-append (name ++ equals_sign ∷ value) (attributes age http_only secure) p

names-IsPlain : All IsPlain session × All IsPlain member
unfolding is_whitespace
names-IsPlain = (
  (
    (refl, refl),
    (
      (refl, refl),
      (
        (refl, refl),
        (
          (refl, refl),
          (
            (refl, refl),
            ((refl, refl), ((refl, refl), ((refl, refl), ((refl, refl), ((refl, refl), tt))))),
          ),
        ),
      ),
    ),
  ),
  (
    (refl, refl),
    (
      (refl, refl),
      (
        (refl, refl),
        (
          (refl, refl),
          ((refl, refl), ((refl, refl), ((refl, refl), ((refl, refl), ((refl, refl), tt))))),
        ),
      ),
    ),
  ),
)

named-IsPlain :
    (name value : Text)
    → All IsPlain name
    → All IsPlain value
    → All IsPlain (name ++ equals_sign ∷ value)
unfolding is_whitespace
named-IsPlain name value p q = All-append IsPlain name (equals_sign ∷ value) p ((refl, refl), q)

split_once-session :
    (token : Text) → split_once equals_sign (session ++ equals_sign ∷ token) ≡ some (session, token)
unfolding split_once
split_once-session token = refl

split_once-member :
    (number : Text)
    → split_once equals_sign (32 ∷ member ++ equals_sign ∷ number) ≡ some (32 ∷ member, number)
unfolding split_once
split_once-member number = refl

-- The two values of a sign-in, as texts.
abbrev pub texts : Text → ℕ → Bool → List Text
texts token member_no secure =
    cookie_text session token max_age true secure
    ∷ cookie_text member (to_string member_no) max_age false secure
    ∷ []

-- The two pairs of the line that a browser sends after signing in.
pub cookie_line-texts :
    (token : Text) (member_no : ℕ) (secure : Bool)
    → All IsPlain token
    → cookie_line (texts token member_no secure)
      ≡ (session ++ equals_sign ∷ token)
        ++ semicolon ∷ 32 ∷ (member ++ equals_sign ∷ to_string member_no)
cookie_line-texts token member_no secure p =
    let numbers = (to_string-IsPlain member_no).0 in
    ap₂ (λ (a b : Text). a ++ semicolon ∷ 32 ∷ b)
      (cookie_pair-set session token max_age true secure
        (named-IsPlain session token names-IsPlain.0 p))
      (cookie_pair-set member (to_string member_no) max_age false secure
        (named-IsPlain member (to_string member_no) names-IsPlain.1 numbers))

-- The parts of such a line.
pub split-line :
    (token number : Text)
    → All IsPlain token
    → All IsPlain number
    → split semicolon
        ((session ++ equals_sign ∷ token) ++ semicolon ∷ 32 ∷ (member ++ equals_sign ∷ number))
      ≡ (session ++ equals_sign ∷ token) ∷ (32 ∷ (member ++ equals_sign ∷ number)) ∷ []
split-line token number p q =
    split-plain (session ++ equals_sign ∷ token) (32 ∷ (member ++ equals_sign ∷ number))
      (named-IsPlain session token names-IsPlain.0 p)
    ∙ ap (λ parts. (session ++ equals_sign ∷ token) ∷ parts)
        (split-space (member ++ equals_sign ∷ number)
          (named-IsPlain member number names-IsPlain.1 q))

pub pairs-line :
    (token number : Text)
    → pairs_of ((session ++ equals_sign ∷ token) ∷ (32 ∷ (member ++ equals_sign ∷ number)) ∷ [])
      ≡ (session, token) ∷ (32 ∷ member, number) ∷ []
unfolding pairs_of
pairs-line token number =
    ap₂ (λ a b. keep_some a (keep_some b [])) (split_once-session token) (split_once-member number)

-- Such a line is visible.
pub line-all_visible :
    (token : Text) (member_no : ℕ)
    → all_visible token ≡ true
    → all_visible (
        (session ++ equals_sign ∷ token)
        ++ semicolon ∷ 32 ∷ (member ++ equals_sign ∷ to_string member_no))
      ≡ true
unfolding all_visible
line-all_visible token member_no v =
    all_visible-append (session ++ equals_sign ∷ token)
      (semicolon ∷ 32 ∷ (member ++ equals_sign ∷ to_string member_no))
      (all_visible-append session (equals_sign ∷ token) names-all_visible.0 v)
      (all_visible-append member (equals_sign ∷ to_string member_no) names-all_visible.1
        (to_string-all_visible member_no))
