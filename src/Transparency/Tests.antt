-- ===== src/Transparency/Tests.antt =====
-- Runs of the log and of its verifier over a toy platform.
use Prim.Native.Char.{code}
use semp_ts.Common.{
  All, ◌≡◌, refl, ◌⊎◌, String, Bool, true, arith, List, [], ◌∷◌, some, none, ok, throw, get_elem?,
  map,
}
use semp_ts.Transparency.Toy.{toy_digest, toy_encode, toy_decode, toy_laws}
use semp_ts.Transparency.Merkle.{
  Bytes, hash_leaf, subtree_root, audit_path, verify_inclusion_proof, InclusionProof,
}
use semp_ts.Transparency.Merkle.Binding.{IsHash, Collision}
use semp_ts.Transparency.Merkle.Verify.{verify_inclusion-binds, verify_inclusion-audit_path}
use semp_ts.Transparency.Log.{
  LogEntry, Log, empty_log, append_all, size, inclusion_proof, append, is_absent,
  rotate_needs_supersedes, validate_log_entry,
}
use semp_ts.Transparency.Log.Proofs.{issued_proof-verifies}

abbrev any_date : String → Bool
any_date s = true

abbrev codes : String → Bytes
codes String.[] = []
codes (String.◌∷◌ c s) = code c ∷ codes s

abbrev key_bytes : LogEntry → Bytes
key_bytes e = codes e.key_id

abbrev publish : String → LogEntry
publish key = record {
  event = "publish";
  user_id = "ann@example.org";
  key_id = key;
  key_type = "identity";
  algorithm = "ed25519";
  public_key = "AAAA";
  created = "2026-01-01T00:00:00Z";
  expires = none;
  revoked_at = none;
  revoked_reason = none;
  supersedes = none;
  log_timestamp = "2026-01-01T00:00:00Z";
}

rotate_without_target :
    validate_log_entry any_date (record (publish "k") { event = "rotate" })
    ≡ throw rotate_needs_supersedes
unfolding validate_log_entry is_absent
rotate_without_target = refl

abbrev leaf_of : String → Bytes
leaf_of key = hash_leaf toy_digest (codes key)

abbrev log_of : List String → Log
log_of keys = record { entries = map publish keys; leaves = map leaf_of keys }

abbrev three : List String
three = "k1" ∷ "k2" ∷ "k3" ∷ []

abbrev five : List String
five = "k1" ∷ "k2" ∷ "k3" ∷ "k4" ∷ "k5" ∷ []

built : append_all any_date toy_digest key_bytes (map publish three) empty_log ≡ ok (log_of three)
unfolding append_all append validate_log_entry is_absent
built = refl

grown :
    append_all any_date toy_digest key_bytes (map publish ("k4" ∷ "k5" ∷ [])) (log_of three)
    ≡ ok (log_of five)
unfolding append_all append validate_log_entry is_absent
grown = refl

issued_proof-verifies_example :
    (proof : InclusionProof) × (inclusion_proof toy_encode toy_digest 2
        (size (log_of three))
        (log_of five)
      ≡ ok proof)
    × (verify_inclusion_proof toy_digest toy_decode proof
          (subtree_root toy_digest (log_of three).leaves)
        ≡ true)
unfolding size
issued_proof-verifies_example =
    issued_proof-verifies any_date toy_digest key_bytes toy_encode toy_decode toy_laws
      (map publish three) (map publish ("k4" ∷ "k5" ∷ [])) (log_of three) (log_of five) 2 built
      grown (omega arith) (omega arith)

hashes : All IsHash (log_of three).leaves
unfolding hash_leaf
hashes = (hash _, (hash _, (hash _, tt)))
  where
    hash : (b : Bytes) → IsHash (toy_digest b)
    hash b = (toy_laws.sized b, toy_laws.digest_bytes b)

abbrev last_proof : InclusionProof
last_proof = record {
  leaf_index = 2;
  log_size = 3;
  leaf_hash = toy_encode (leaf_of "k3");
  path = map toy_encode (audit_path toy_digest 2 (log_of three).leaves);
}

accepted :
    verify_inclusion_proof toy_digest toy_decode last_proof
      (subtree_root toy_digest (log_of three).leaves)
    ≡ true
accepted =
    verify_inclusion-audit_path toy_digest toy_encode toy_decode toy_laws 2 (log_of three).leaves
      (leaf_of "k3") hashes (omega arith) refl

verify_inclusion-binds_example :
    (leaf : Bytes) × (get_elem? (log_of three).leaves 2 ≡ some leaf)
    × ((toy_decode (toy_encode (leaf_of "k3")) ≡ leaf) ⊎ Collision toy_digest)
verify_inclusion-binds_example =
    verify_inclusion-binds toy_digest toy_encode toy_decode toy_laws last_proof
      (log_of three).leaves hashes (omega arith) refl accepted
