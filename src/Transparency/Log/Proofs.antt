-- ===== src/Transparency/Log/Proofs.antt =====
-- The proofs that a log issues verify against the tree heads that it has issued, also once it has
-- grown.
use mathlib.Core.List.{append_assoc, append-nil}
use semp_ts.Common.{
  ℕ, ◌+◌, ◌≤◌, ◌<◌, ◌≡◌, refl, sym, ap, subst, ◌∙◌, Bool, true, false, String, arith, List, [], ◌∷◌,
  ◌++◌, map, length, length-append, ok, bind_parts, then_parts, All, All-append, some, get_elem?,
  get_elem?-some, All-get_elem?, ok-injective, get_elem?-lt, le→ltb, lt→leb, take, ltb, ◌==◌,
}
use semp_ts.Transparency.Platform.{PlatformLaws}
use semp_ts.Transparency.Merkle.{
  Bytes, hash_leaf, subtree_root, audit_path, encode_hash, verify_inclusion_proof, InclusionProof,
}
use semp_ts.Transparency.Merkle.Binding.{IsHash}
use semp_ts.Transparency.Merkle.Hashes.{audit_path-IsHash}
use semp_ts.Transparency.Merkle.Verify.{verify_inclusion-audit_path}
use semp_ts.Transparency.Log.{
  LogEntry, Log, empty_log, size, validate_log_entry, append, append_all, encode_one, encode_hashes,
  inclusion_proof,
}

take-append {ℓ} : {A : Type ℓ} (xs ys : List A) → take (length xs) (xs ++ ys) ≡ xs
take-append [] ys = refl
take-append (x ∷ xs) ys = ap (λ t. x ∷ t) (take-append xs ys)

module _ (is_date : String → Bool) (sha256 : Bytes → Bytes) (marshal : LogEntry → Bytes)
    (base64_encode : Bytes → String) (base64_decode : String → Bytes)
    (laws : PlatformLaws sha256 base64_encode base64_decode) where
  -- Leaves are digests, and an append leaves those before it in place.
  record Grows (log later : Log) : Type 0 where
    added : List Bytes
    kept : later.leaves ≡ log.leaves ++ added
    hashed : All IsHash added

  append-Grows :
      (e : LogEntry) (log : Log) {r : Log × ℕ}
      → append is_date sha256 marshal e log ≡ ok r
      → Grows log r.0
  unfolding append
  append-Grows e log h =
      let (valid, same) = then_parts (validate_log_entry is_date e) _ h in
      record {
        added = hash_leaf sha256 (marshal e) ∷ [];
        kept = sym (ap (λ (t : Log × ℕ). t.0.leaves) (ok-injective same));
        hashed = (unfold hash_leaf in (laws.sized _, laws.digest_bytes _), tt);
      }

  append_all-Grows :
      (es : List LogEntry) (log later : Log)
      → append_all is_date sha256 marshal es log ≡ ok later
      → Grows log later
  unfolding append_all
  append_all-Grows [] log later h = record {
    added = [];
    kept = sym (ap (λ (t : Log). t.leaves) (ok-injective h)) ∙ sym (append-nil log.leaves);
    hashed = tt;
  }
  append_all-Grows (e ∷ es) log later h =
      let (r, first, rest) = bind_parts (append is_date sha256 marshal e log) _ h in
      grows_trans (append-Grows e log first) (append_all-Grows es r.0 later rest)
    where
      grows_trans : {b : Log} → Grows log b → Grows b later → Grows log later
      grows_trans g k = record {
        added = g.added ++ k.added;
        kept = k.kept ∙ ap (λ t. t ++ k.added) g.kept ∙ append_assoc log.leaves g.added k.added;
        hashed = All-append IsHash g.added k.added g.hashed k.hashed;
      }

  encode_one-IsHash : (h : Bytes) → IsHash h → encode_one base64_encode h ≡ ok (base64_encode h)
  unfolding encode_one encode_hash
  encode_one-IsHash h a = let sized : length h ≡ 32 = a.0 in ground arith

  encode_hashes-IsHash :
      (hs : List Bytes) → All IsHash hs → encode_hashes base64_encode hs ≡ ok (map base64_encode hs)
  unfolding encode_hashes
  encode_hashes-IsHash [] a = refl
  encode_hashes-IsHash (h ∷ hs) a = rw (encode_one-IsHash h a.0, encode_hashes-IsHash hs a.1)

  -- The proof that a log issues for an index below its size at an earlier time.
  inclusion_proof-issues :
      (log : Log) (index : ℕ) (leaf : Bytes) (earlier added : List Bytes)
      → log.leaves ≡ earlier ++ added
      → All IsHash earlier
      → get_elem? earlier index ≡ some leaf
      → inclusion_proof base64_encode sha256 index (length earlier) log
        ≡ ok (record {
          leaf_index = index;
          log_size = length earlier;
          leaf_hash = base64_encode leaf;
          path = map base64_encode (audit_path sha256 index earlier);
        })
  unfolding inclusion_proof
  inclusion_proof-issues log index leaf earlier added grown hashed at_index =
      let below : index < length earlier = get_elem?-lt earlier index at_index in
      let size_test : (length earlier == 0) ≡ false = ground arith in
      let room_test : ltb (length log.leaves) (length earlier) ≡ false =
        rw (grown, length-append earlier added)
          (le→ltb (length earlier + length added) (length earlier) (omega arith)) in
      let cut : take (length earlier) log.leaves ≡ earlier = rw grown (take-append earlier added) in
      let path =
        encode_hashes-IsHash (audit_path sha256 index earlier)
          (audit_path-IsHash sha256 base64_encode base64_decode laws index earlier hashed) in
      rw (size_test, room_test, lt→leb _ _ below, cut, at_index)
        (rw (encode_one-IsHash leaf (All-get_elem? IsHash earlier index hashed at_index), path))

  -- Take a log built by appends from the empty log, of at most 2^32 entries, and any later state of
  -- it, reached by more appends. For every index of the earlier log the later one issues a proof
  -- for the earlier size, and a verifier accepts it against the root of the earlier log.
  pub issued_proof-verifies :
      (before after : List LogEntry) (log later : Log) (index : ℕ)
      → append_all is_date sha256 marshal before empty_log ≡ ok log
      → append_all is_date sha256 marshal after log ≡ ok later
      → size log ≤ 4294967296
      → index < size log
      → (proof : InclusionProof) × (inclusion_proof base64_encode sha256 index (size log) later
          ≡ ok proof)
        × (verify_inclusion_proof sha256 base64_decode proof (subtree_root sha256 log.leaves)
            ≡ true)
  unfolding size
  issued_proof-verifies before after log later index built grown word below =
      let start = append_all-Grows before empty_log log built in
      let growth = append_all-Grows after log later grown in
      let hashed = subst (All IsHash) (sym start.kept) start.hashed in
      let (leaf, at_index) = get_elem?-some log.leaves index below in
      (
        _,
        inclusion_proof-issues later index leaf log.leaves growth.added growth.kept hashed at_index,
        verify_inclusion-audit_path sha256 base64_encode base64_decode laws index log.leaves leaf
            hashed word at_index,
      )
