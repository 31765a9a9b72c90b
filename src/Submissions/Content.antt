-- ===== src/Submissions/Content.antt =====
-- The validation helpers of src/domain/submissions/service.rs.
use box_fraise_server.Prelude.{
  ℕ, zero, suc, ◌*◌, String, Bool, true, false, ◌&&◌, Option, none, some, [], ◌∷◌, length, leb, ltb,
  ◌==◌, if◌then◌else◌,
}
use box_fraise_server.Prelude.Text.{Text, codes, is_empty, trim}
use box_fraise_server.Errors.{Result, ok, err, bad_request, ◌>>=◌, ◌>>◌, fail_if, ok_or}
use box_fraise_server.Server.{Bytes}
use box_fraise_server.Submissions.Types.{ContentType, image_jpeg, image_png, image_webp}

abbrev pub max_image_bytes : ℕ
max_image_bytes = 8 * 1024 * 1024

abbrev pub min_image_bytes : ℕ
min_image_bytes = 512

abbrev pub max_title_chars : ℕ
max_title_chars = 140

abbrev pub max_body_chars : ℕ
max_body_chars = 20000

abbrev pub min_body_chars : ℕ
min_body_chars = 40

unfoldable pub starts_with : Bytes → Bytes → Bool
starts_with bytes [] = true
starts_with [] (b ∷ prefix) = false
starts_with (a ∷ bytes) (b ∷ prefix) = if a == b then starts_with bytes prefix else false

-- The bytes from an offset on.
unfoldable pub from : ℕ → Bytes → Bytes
from zero bytes = bytes
from (suc n) [] = []
from (suc n) (b ∷ bytes) = from n bytes

unfoldable pub sniff_content_type : Bytes → Option ContentType
sniff_content_type bytes =
    if starts_with bytes (0xFF ∷ 0xD8 ∷ 0xFF ∷ [])
    then some image_jpeg
    else if starts_with bytes (0x89 ∷ 0x50 ∷ 0x4E ∷ 0x47 ∷ 0x0D ∷ 0x0A ∷ 0x1A ∷ 0x0A ∷ [])
    then some image_png
    else if leb 12 (length bytes)
        && starts_with bytes (codes "RIFF")
        && starts_with (from 8 bytes) (codes "WEBP")
    then some image_webp
    else none

-- The message is `format!("text exceeds {max_chars} characters")`.
unfoldable pub clean_optional_text : Option Text → ℕ → String → Result (Option Text)
clean_optional_text none max_chars message = ok none
clean_optional_text (some raw) max_chars message =
    if is_empty (trim raw)
    then ok none
    else if ltb max_chars (length (trim raw))
    then err (bad_request message)
    else ok (some (trim raw))

unfoldable pub check_body : Option Text → Result (Unit {0})
check_body none = ok tt
check_body (some text) =
    fail_if (ltb (length text) min_body_chars) (bad_request "a column needs at least 40 characters")

abbrev pub sniffed : Bytes → Result (Option (Bytes × ContentType))
sniffed bytes = do
  fail_if (ltb (length bytes) min_image_bytes) (bad_request "image too small")
  fail_if (ltb max_image_bytes (length bytes)) (bad_request "image exceeds 8 MB")
  content_type ←
      ok_or (sniff_content_type bytes)
        (bad_request "unsupported image format (use JPEG, PNG or WebP)")
  ok (some (bytes, content_type))

unfoldable pub check_image : Option Bytes → Result (Option (Bytes × ContentType))
check_image none = ok none
check_image (some []) = ok none
check_image (some (b ∷ bytes)) = sniffed (b ∷ bytes)
