-- ===== src/Server.antt =====
-- What a request meets outside its tables: clocks, randomness, the audit trail (src/audit.rs), and
-- the cryptography of the third-party crates behind src/crypto.rs.
use box_fraise_server.Prelude.{
  ℕ, ◌*◌, String, Bool, Option, none, some, List, [], ◌∷◌, ◌++◌, if◌then◌else◌,
}
use box_fraise_server.Prelude.Text.{Text}
use box_fraise_server.Errors.{Result, ok, err, bad_request, invalid_signature, ◌>>=◌}

abbrev pub Bytes : Type 0
Bytes = List ℕ

-- Times are microseconds since an epoch, the resolution of Postgres.
abbrev pub seconds : ℕ → ℕ
seconds n = n * 1000000

-- One request: the first and the later `Utc::now()` of its handler, the `now()` of its database
-- transaction, and what the random generators hand out.
pub record Env : Type 0 where
  pub now : ℕ
  pub later : ℕ
  pub db_now : ℕ
  pub uuid : ℕ
  pub other_uuid : ℕ
  pub nonce : Text
  -- whether the write to `audit_events` succeeds
  pub audit_up : Bool

-- A value of the audit metadata.
pub data Json : Type 0 where
  num : ℕ → Json
  text : Text → Json
  bool : Bool → Json
  null : Json

pub record AuditEvent : Type 0 where
  pub actor_type : String
  pub actor_id : Option ℕ
  pub action : String
  pub target : Option Json
  pub metadata : List (String × Json)

-- A failed write is logged and swallowed.
unfoldable pub write_audit : Env → AuditEvent → List AuditEvent → List AuditEvent
write_audit env e log = if env.audit_up then log ++ e ∷ [] else log

-- The crates `base64` and `p256`: decoders, and the parts of an ECDSA check, over bytes.
pub record Crypto : Type 0 where
  pub url_safe_no_pad : Text → Option Bytes
  pub url_safe : Text → Option Bytes
  pub standard : Text → Option Bytes
  pub encode_url_safe_no_pad : Bytes → Text
  pub public_key_from_sec1 : Bytes → Option Bytes
  pub signature_from_der : Bytes → Option Bytes
  pub normalize_s : Bytes → Option Bytes
  pub verify : Bytes → Text → Bytes → Bool

-- The crates `sha2` and `argon2`. A salt is what `OsRng` draws.
pub record Hashing : Type 0 where
  pub sha256_hex : Text → Text
  pub argon2_hash : Text → Text → Option Text
  pub argon2_verify : Text → Text → Bool

-- `Option::or_else`, on the results of decoders.
abbrev or_else : Option Bytes → Option Bytes → Option Bytes
or_else none o = o
or_else (some b) o = some b

abbrev decoded : Option Bytes → Result Bytes
decoded none = err (bad_request "invalid base64")
decoded (some b) = ok b

unfoldable pub b64_decode : Crypto → Text → Result Bytes
b64_decode c input =
    decoded (or_else (c.url_safe_no_pad input) (or_else (c.url_safe input) (c.standard input)))

abbrev or_signature : Option Bytes → Bytes → Bytes
or_signature none sig = sig
or_signature (some normal) sig = normal

abbrev required : Option Bytes → Result Bytes
required none = err invalid_signature
required (some b) = ok b

unfoldable pub verify_p256_signature : Crypto → Bytes → Text → Bytes → Result (Unit {0})
verify_p256_signature c public_key nonce signature_der = do
  key ← required (c.public_key_from_sec1 public_key)
  sig ← required (c.signature_from_der signature_der)
  let to_verify = or_signature (c.normalize_s sig) sig
  if c.verify key nonce to_verify then ok tt else err invalid_signature
