-- ===== src/Transparency/Merkle/Decode.antt =====
-- `decodeHash` and `decodeHashes` undo `encodeHash`, and return hashes of 32 bytes only.
use semp_ts.Common.{
  ◌>>=◌, ℕ, ◌+◌, ◌≡◌, refl, arith, List, [], ◌∷◌, Fallible, ok, throw, All, map, String, subst,
}
use semp_ts.Transparency.Platform.{PlatformLaws}
use semp_ts.Transparency.Merkle.{Bytes, decode_hash, decode_hashes_from, ProofError, path_entry}
use semp_ts.Transparency.Merkle.Binding.{IsSized, IsHash}

pub decode_hash-IsSized :
    (base64_decode : String → Bytes) (s : String) {h : Bytes}
    → decode_hash base64_decode s ≡ ok h
    → (base64_decode s ≡ h) × IsSized h
unfolding decode_hash
decode_hash-IsSized base64_decode s e = (ground arith, ground arith)

-- The two parts of a decoding that succeeded.
decoded_parts :
    (d : Fallible ProofError Bytes) (r : Fallible ProofError (List Bytes)) (i : ℕ) {hs : List Bytes}
    → (elim d [ ok h ↦ (r >>= λ rest. ok (h ∷ rest)) | throw e ↦ throw (path_entry i e) ]) ≡ ok hs
    → (h : Bytes) × (rest : List Bytes) × (d ≡ ok h) × (r ≡ ok rest) × (h ∷ rest ≡ hs)
decoded_parts (ok h) (ok rest) i e = (h, rest, refl, refl, cc)
decoded_parts (ok h) (throw x) i e = cc
decoded_parts (throw x) r i e = cc

pub decode_hashes-IsSized :
    (base64_decode : String → Bytes) (i : ℕ) (items : List String) {hs : List Bytes}
    → decode_hashes_from base64_decode i items ≡ ok hs
    → All IsSized hs
unfolding decode_hashes_from
decode_hashes-IsSized base64_decode i [] {hs} e = subst (All IsSized) {x = []} (cc) tt
decode_hashes-IsSized base64_decode i (item ∷ items) e =
    let (h, rest, dh, dr, same) = decoded_parts (decode_hash base64_decode item) _ i e in
    subst (All IsSized) same (
      (decode_hash-IsSized base64_decode item dh).1,
      decode_hashes-IsSized base64_decode (i + 1) items dr,
    )

module _ (sha256 : Bytes → Bytes) (base64_encode : Bytes → String) (base64_decode : String → Bytes)
    (laws : PlatformLaws sha256 base64_encode base64_decode) where
  pub decode_hash-encode :
      (h : Bytes) → IsHash h → decode_hash base64_decode (base64_encode h) ≡ ok h
  unfolding decode_hash
  decode_hash-encode h (l, b) = rw (laws.decode-encode h b) (ground arith)

  pub decode_hashes-encode :
      (i : ℕ) (hs : List Bytes)
      → All IsHash hs
      → decode_hashes_from base64_decode i (map base64_encode hs) ≡ ok hs
  unfolding decode_hashes_from
  decode_hashes-encode i [] a = refl
  decode_hashes-encode i (h ∷ hs) a =
      ground (arith, decode_hash-encode h a.0, decode_hashes-encode (i + 1) hs a.1)
  -- For a log of at most 2^32 hashed entries, the audit path of the leaf at index `m`, encoded for
  -- the wire, is accepted against the root of the tree.
