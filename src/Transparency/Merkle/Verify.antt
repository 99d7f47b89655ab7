-- ===== src/Transparency/Merkle/Verify.antt =====
-- `verifyInclusionProof` accepts the audit path of a leaf, and against the root of known leaves it
-- accepts nothing else, short of a collision of SHA-256.
use semp_ts.Common.{
  All-get_elem?, if◌then◌else◌, get_elem?-some, ℕ, ◌≤◌, ◌<◌, ◌≡◌, refl, ap, ◌∙◌, ◌⊎◌, inl, inr,
  Bool, true, false, arith, List, length, Fallible, ok, throw, All, map, String, some, get_elem?,
  leb, get_elem?-lt, ◌==◌, bind_parts, lt→leb, ◌-◌,
}
use semp_ts.Transparency.Platform.{PlatformLaws}
use semp_ts.Transparency.Merkle.{
  Bytes, subtree_root, audit_path, compute_root_from_inclusion, bytes_equal, decode_hash,
  decode_hashes, inclusion_root, verify_inclusion_proof, accepts, InclusionProof, ProofError,
}
use semp_ts.Transparency.Merkle.Inclusion.{compute_root-audit_path}
use semp_ts.Transparency.Merkle.Binding.{IsSized, IsHash, Collision, climb_binding}
use semp_ts.Transparency.Merkle.Hashes.{
  bytes_equal-eq, bytes_equal_refl, All-IsSized, audit_path-IsHash,
}
use semp_ts.Transparency.Merkle.Decode.{
  decode_hash-IsSized, decode_hashes-IsSized, decode_hash-encode, decode_hashes-encode,
}

-- What a call of `verifyInclusionProof` that returns true has checked.
record Accepted (sha256 : Bytes → Bytes) (base64_decode : String → Bytes) (proof : InclusionProof)
    (root : Bytes) : Type 0 where
  in_range : proof.leaf_index < proof.log_size
  leaf : Bytes
  siblings : List Bytes
  decoded : base64_decode proof.leaf_hash ≡ leaf
  leaf_sized : IsSized leaf
  all_sized : All IsSized siblings
  reached :
      compute_root_from_inclusion sha256 proof.leaf_index proof.log_size leaf siblings ≡ ok root

accepts-true :
    {A : Type 0} (m : Fallible ProofError A) (test : A → Bool)
    → accepts m test ≡ true
    → (a : A) × (m ≡ ok a) × (test a ≡ true)
unfolding accepts
accepts-true (ok a) test h = (a, refl, h)
accepts-true (throw e) test h = cc

guards :
    (size index : ℕ) (b : Bool)
    → (if size == 0 then false else if leb size index then false else b) ≡ true
    → (index < size) × (b ≡ true)
guards size index b h = (ground arith, ground arith)

verify-Accepted :
    (sha256 : Bytes → Bytes) (base64_decode : String → Bytes) (proof : InclusionProof)
    (root : Bytes)
    → verify_inclusion_proof sha256 base64_decode proof root ≡ true
    → Accepted sha256 base64_decode proof root
unfolding inclusion_root
verify-Accepted sha256 base64_decode proof root h =
    let (below, checked) = tested h in
    let (c, found, same) =
      accepts-true (inclusion_root sha256 base64_decode proof) (λ c. bytes_equal c root) checked in
    let (leaf, dl, f1) = bind_parts (decode_hash base64_decode proof.leaf_hash) _ found in
    let (siblings, ds, f2) = bind_parts (decode_hashes base64_decode proof.path) _ f1 in
    let (decoded, sized) = decode_hash-IsSized base64_decode proof.leaf_hash dl in
    record {
      in_range = below;
      leaf = leaf;
      siblings = siblings;
      decoded = decoded;
      leaf_sized = sized;
      all_sized = sized_siblings ds;
      reached = f2 ∙ ap ok (bytes_equal-eq c root same);
    }
  where
    tested :
        verify_inclusion_proof sha256 base64_decode proof root ≡ true
        → (proof.leaf_index < proof.log_size)
          × (accepts (inclusion_root sha256 base64_decode proof) (λ c. bytes_equal c root) ≡ true)
    tested h =
        guards proof.log_size proof.leaf_index
          (accepts (inclusion_root sha256 base64_decode proof) (λ c. bytes_equal c root))
          (unfold verify_inclusion_proof in h)

    sized_siblings :
        {hs : List Bytes} → decode_hashes base64_decode proof.path ≡ ok hs → All IsSized hs
    sized_siblings e = unfold decode_hashes in decode_hashes-IsSized base64_decode 0 proof.path e

module _ (sha256 : Bytes → Bytes) (base64_encode : Bytes → String) (base64_decode : String → Bytes)
    (laws : PlatformLaws sha256 base64_encode base64_decode) where
  pub verify_inclusion-audit_path :
      (m : ℕ) (leaves : List Bytes) (leaf : Bytes)
      → All IsHash leaves
      → length leaves ≤ 4294967296
      → get_elem? leaves m ≡ some leaf
      → verify_inclusion_proof sha256 base64_decode
          (record {
            leaf_index = m;
            log_size = length leaves;
            leaf_hash = base64_encode leaf;
            path = map base64_encode (audit_path sha256 m leaves);
          })
          (subtree_root sha256 leaves)
        ≡ true
  unfolding verify_inclusion_proof decode_hashes
  verify_inclusion-audit_path m leaves leaf hashes word at_m =
      let below : m < length leaves = get_elem?-lt leaves m at_m in
      let size : (length leaves == 0) ≡ false = ground arith in
      rw
        (
          size,
          lt→leb _ _ below,
          decode_hash-encode sha256 base64_encode base64_decode laws leaf
              (All-get_elem? IsHash leaves m hashes at_m),
        )
        (rw
          (decode_hashes-encode sha256 base64_encode base64_decode laws 0
            (audit_path sha256 m leaves)
            (audit_path-IsHash sha256 base64_encode base64_decode laws m leaves hashes))
          (rw (compute_root-audit_path sha256 m leaves leaf word at_m)
            (bytes_equal_refl (subtree_root sha256 leaves))))

  -- A proof that is accepted against the root of a log of at most 2^32 hashed entries is for an
  -- index of the log, and states the leaf that stands there, or SHA-256 has a collision.
  pub verify_inclusion-binds :
      (proof : InclusionProof) (leaves : List Bytes)
      → All IsHash leaves
      → length leaves ≤ 4294967296
      → proof.log_size ≡ length leaves
      → verify_inclusion_proof sha256 base64_decode proof (subtree_root sha256 leaves) ≡ true
      → (leaf : Bytes) × (get_elem? leaves proof.leaf_index ≡ some leaf)
        × ((base64_decode proof.leaf_hash ≡ leaf) ⊎ Collision sha256)
  verify_inclusion-binds proof leaves hashes word size accepted =
      let a = verify-Accepted sha256 base64_decode proof (subtree_root sha256 leaves) accepted in
      let (leaf, at_m) = get_elem?-some leaves proof.leaf_index (omega (arith, a.in_range)) in
      let honest = compute_root-audit_path sha256 proof.leaf_index leaves leaf word at_m in
      let sized = (All-get_elem? IsHash leaves proof.leaf_index hashes at_m).0 in
      (
        leaf,
        at_m,
        decided leaf a.leaf a.decoded (
            climb_binding sha256 laws.sized a.siblings (audit_path sha256 proof.leaf_index leaves)
              proof.leaf_index (length leaves - 1) a.leaf leaf (subtree_root sha256 leaves)
              a.all_sized
              (All-IsSized _ (
                audit_path-IsHash sha256 base64_encode base64_decode laws proof.leaf_index leaves
                  hashes))
              a.leaf_sized sized (unfold compute_root_from_inclusion in rw size at a.reached)
              (unfold compute_root_from_inclusion in honest)),
      )
    where
      decided :
          (leaf stated : Bytes)
          → base64_decode proof.leaf_hash ≡ stated
          → (stated ≡ leaf) ⊎ Collision sha256
          → (base64_decode proof.leaf_hash ≡ leaf) ⊎ Collision sha256
      decided leaf stated d (inl e) = inl (d ∙ e)
      decided leaf stated d (inr c) = inr c
