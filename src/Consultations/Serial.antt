-- ===== src/Consultations/Serial.antt =====
-- The serials of cards in src/domain/consultations/service.rs: how they are made from random
-- bytes, and how the input of a lookup is brought to their form.
use Prim.Native.Nat.{◌/◌, ◌%◌}
use box_fraise_server.Prelude.{
  ℕ, ◌+◌, ◌-◌, Bool, true, not, ◌&&◌, ◌||◌, Option, none, some, [], ◌∷◌, length, leb, ltb, ◌==◌,
  if◌then◌else◌,
}
use box_fraise_server.Prelude.Text.{Text}
use box_fraise_server.Server.{Bytes}

abbrev pub hyphen : ℕ
hyphen = 45

-- `{:X}` of a number below 16.
abbrev pub hex_digit : ℕ → ℕ
hex_digit n = if ltb n 10 then 48 + n else 55 + n

-- `{:02X}` of each byte.
unfoldable pub hex : Bytes → Text
hex [] = []
hex (b ∷ bytes) = hex_digit (b / 16) ∷ hex_digit (b % 16) ∷ hex bytes

-- The loop over `chars.iter().enumerate()` from index `i` on.
unfoldable pub group : ℕ → Text → Text
group i [] = []
group i (c ∷ cs) =
    if ltb 0 i && (i % 4 == 0) then hyphen ∷ c ∷ group (i + 1) cs else c ∷ group (i + 1) cs

-- Of the ten bytes that the random generator fills.
unfoldable pub generate_serial : Bytes → Text
generate_serial bytes = group 0 (hex bytes)

abbrev pub is_ascii_alphanumeric : ℕ → Bool
is_ascii_alphanumeric c = leb 48 c && leb c 57 || leb 65 c && leb c 90 || leb 97 c && leb c 122

-- `to_uppercase`, on an ASCII letter or digit.
abbrev pub to_uppercase : ℕ → ℕ
to_uppercase c = if leb 97 c && leb c 122 then c - 32 else c

abbrev pub is_ascii_hexdigit : ℕ → Bool
is_ascii_hexdigit c = leb 48 c && leb c 57 || leb 65 c && leb c 70 || leb 97 c && leb c 102

unfoldable pub all_hex : Text → Bool
all_hex [] = true
all_hex (c ∷ s) = is_ascii_hexdigit c && all_hex s

unfoldable pub stripped : Text → Text
stripped [] = []
stripped (c ∷ s) = if is_ascii_alphanumeric c then to_uppercase c ∷ stripped s else stripped s

unfoldable pub canonicalise_serial : Text → Option Text
canonicalise_serial input =
    if not (length (stripped input) == 20) || not (all_hex (stripped input))
    then none
    else some (group 0 (stripped input))
