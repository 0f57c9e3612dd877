-- ===== src/Tls.antt =====
-- porpulsion/tls.py: fingerprints and the challenge of a hello frame. Certificates and ECDSA are
-- those of the `cryptography` package, which is a parameter.
use porpulsion.Prelude.{String, Bool, false, Option, none, some}
use mathlib.Core.Option

-- What the program uses of `cryptography`. A certificate is an opaque text; `none` and `false`
-- stand for an exception. Signatures are the base64 texts that the frames carry.
pub record Crypto : Type 0 where
  pub load_pem_x509_certificate : String → Option String
  pub sha256_hex : String → String
  pub verify_ecdsa : (cert sig message : String) → Bool

module _ (crypto : Crypto) where
  -- `none`: the PEM cannot be loaded, which raises
  unfoldable pub cert_fingerprint : String → Option String
  cert_fingerprint pem = Option.map crypto.sha256_hex (crypto.load_pem_x509_certificate pem)

  abbrev pub verify_with : (nonce sig : String) → Option String → Bool
  verify_with nonce sig none = false
  verify_with nonce sig (some cert) = crypto.verify_ecdsa cert sig nonce

  -- every exception is a refusal
  unfoldable pub verify_challenge : (nonce sig pem : String) → Bool
  verify_challenge nonce sig pem = verify_with nonce sig (crypto.load_pem_x509_certificate pem)
