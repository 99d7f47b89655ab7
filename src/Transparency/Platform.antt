-- ===== src/Transparency/Platform.antt =====
-- What the log takes from outside the repository: SHA-256 (@noble/hashes) and base64 (the platform).
use semp_ts.Common.{ℕ, ◌<◌, ◌≡◌, String, List, length, All}

-- Documented behaviour: digests are 32 bytes, and decoding an encoding gives the bytes back.
pub record PlatformLaws (sha256 : List ℕ → List ℕ) (base64_encode : List ℕ → String)
    (base64_decode : String → List ℕ) : Type 0 where
  pub sized : (b : List ℕ) → length (sha256 b) ≡ 32
  pub digest_bytes : (b : List ℕ) → All (λ x. x < 256) (sha256 b)
  pub decode-encode : (b : List ℕ) → All (λ x. x < 256) b → base64_decode (base64_encode b) ≡ b
