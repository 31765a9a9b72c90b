-- ===== src/Consultations/Canonical.antt =====
-- The canonical form of the serials in src/domain/consultations/service.rs.
use Prim.Native.Nat.{◌/◌, ◌%◌}
use box_fraise_server.Prelude.{
  ℕ, ◌+◌, ◌*◌, ◌<◌, ◌≡◌, refl, ap, ◌∙◌, sym, true, some, [], ◌∷◌, arith, All, length, inl, inr,
  Bool-cases,
}
use box_fraise_server.Prelude.Text.{Text}
use box_fraise_server.Server.{Bytes}
use box_fraise_server.Consultations.Serial.{
  hex, hex_digit, group, generate_serial, is_ascii_alphanumeric, to_uppercase, all_hex, stripped,
  canonicalise_serial,
}

-- Hyphens go, and nothing else of what `group` makes.
stripped-group : (i : ℕ) (s : Text) → stripped (group i s) ≡ stripped s
unfolding stripped group
stripped-group i [] = refl
stripped-group i (c ∷ s) = let rest = stripped-group (i + 1) s in ground (arith, rest)

upper_kept :
    (c : ℕ)
    → is_ascii_alphanumeric c ≡ true
    → (is_ascii_alphanumeric (to_uppercase c) ≡ true)
      × (to_uppercase (to_uppercase c) ≡ to_uppercase c)
upper_kept c h = ground arith

stripped_idem : (s : Text) → stripped (stripped s) ≡ stripped s
unfolding stripped
stripped_idem [] = refl
stripped_idem (c ∷ s) = elim (Bool-cases (is_ascii_alphanumeric c)) [
  | inr e ↦ rw e (stripped_idem s)
  | inl e ↦
      let (kept, same) = upper_kept c e in
      rw (e, kept, same) (ap (λ x. to_uppercase c ∷ x) (stripped_idem s))
]

digit_kept :
    (n : ℕ)
    → n < 16
    → (is_ascii_alphanumeric (hex_digit n) ≡ true) × (to_uppercase (hex_digit n) ≡ hex_digit n)
digit_kept n h = ground arith

stripped-hex : (bytes : Bytes) → All (λ b. b < 256) bytes → stripped (hex bytes) ≡ hex bytes
unfolding stripped hex
stripped-hex [] h = refl
stripped-hex (b ∷ bytes) h =
    let (high, same_high) = digit_kept (b / 16) (omega (arith, h.0)) in
    let (low, same_low) = digit_kept (b % 16) (omega arith) in
    rw (high, low, same_high, same_low, stripped-hex bytes h.1)

length-hex : (bytes : Bytes) → length (hex bytes) ≡ 2 * length bytes
unfolding hex
length-hex [] = refl
length-hex (b ∷ bytes) = omega (arith, length-hex bytes)

all_hex-hex : (bytes : Bytes) → All (λ b. b < 256) bytes → all_hex (hex bytes) ≡ true
unfolding all_hex hex
all_hex-hex [] h = refl
all_hex-hex (b ∷ bytes) h =
    let rest = all_hex-hex bytes h.1 in let small = h.0 in ground (arith, rest, small)

-- Whatever agrees with a serial in its letters and digits is brought to that serial.
pub canonicalise_serial-generate :
    (bytes : Bytes) (input : Text)
    → length bytes ≡ 10
    → All (λ b. b < 256) bytes
    → stripped input ≡ stripped (generate_serial bytes)
    → canonicalise_serial input ≡ some (generate_serial bytes)
unfolding canonicalise_serial generate_serial
canonicalise_serial-generate bytes input ten small same =
    let plain = same ∙ stripped-group 0 (hex bytes) ∙ stripped-hex bytes small in
    let full : length (hex bytes) ≡ 20 = omega (arith, length-hex bytes, ten) in
    rw (plain, full, all_hex-hex bytes small)

canonicalise_serial-some :
    (s t : Text)
    → canonicalise_serial s ≡ some t
    → (length (stripped s) ≡ 20) × (all_hex (stripped s) ≡ true) × (t ≡ group 0 (stripped s))
unfolding canonicalise_serial
canonicalise_serial-some s t h = ground arith

-- A canonical serial is its own canonical form.
pub canonicalise_serial_idem :
    (s t : Text) → canonicalise_serial s ≡ some t → canonicalise_serial t ≡ some t
unfolding canonicalise_serial
canonicalise_serial_idem s t h =
    let (sized, hexed, made) = canonicalise_serial-some s t h in
    let same = ap stripped made ∙ stripped-group 0 (stripped s) ∙ stripped_idem s in
    rw (same, sized, hexed) (ap some (sym made))
