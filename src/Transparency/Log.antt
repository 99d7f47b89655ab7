-- ===== src/Transparency/Log.antt =====
-- src/transparency/log.ts and `validateLogEntry` of src/transparency/sign.ts: the append-only log.
-- The canonical bytes of an entry (src/canonical), the reading of dates (`Date.parse`) and the
-- signing of a tree head (`signSTH`) are parameters: the theorems hold for every choice of them.
pub mod Proofs
use semp_ts.Common.{
  ℕ, ◌+◌, ◌-◌, ◌%◌, String, Bool, true, false, ◌&&◌, ◌||◌, not, Option, none, some, List, [], ◌∷◌,
  ◌++◌, map, Fallible, ok, throw, throw_if, ◌>>=◌, ◌>>◌, str_eq, leb, ltb, ◌==◌, if◌then◌else◌,
  length, take, get_elem?,
}
use semp_ts.Transparency.Merkle.{
  Bytes, hash_leaf, subtree_root, audit_path, encode_hash, InclusionProof, ProofError,
}

pub record LogEntry : Type 0 where
  pub event : String
  pub user_id : String
  pub key_id : String
  pub key_type : String
  pub algorithm : String
  pub public_key : String
  pub created : String
  pub expires : Option String
  pub revoked_at : Option String
  pub revoked_reason : Option String
  pub supersedes : Option String
  pub log_timestamp : String

pub data LogError : Type 0 where
  bad_event missing_user_id missing_key_id missing_algorithm missing_public_key : LogError
  bad_key_type bad_created bad_log_timestamp : LogError
  rotate_needs_supersedes publish_has_supersedes revoke_needs_at revoke_needs_reason : LogError
  invalid_tree_size tree_size_exceeds leaf_out_of_range : ℕ → LogError
  bad_hash : ProofError → LogError

-- `undefined`, `null` or the empty string.
unfoldable pub is_absent : Option String → Bool
is_absent none = true
is_absent (some s) = str_eq s ""

pub record Log : Type 0 where
  pub entries : List LogEntry
  pub leaves : List Bytes

abbrev pub empty_log : Log
empty_log = record { entries = []; leaves = [] }

pub record TreeHead : Type 0 where
  pub log_size : ℕ
  pub root_hash : String
  pub timestamp : ℕ
  pub signature : String

unfoldable pub size : Log → ℕ
size log = length log.leaves

unfoldable pub entry : Log → ℕ → Option LogEntry
entry log index = if leb (length log.entries) index then none else get_elem? log.entries index

-- The `switch` on the event, after it was found to be one of the three.
unfoldable pub validate_event : LogEntry → Fallible LogError (Unit {0})
validate_event e =
    if str_eq e.event "rotate"
    then throw_if (is_absent e.supersedes) rotate_needs_supersedes
    else if str_eq e.event "publish"
    then throw_if (not (is_absent e.supersedes)) publish_has_supersedes
    else do
      throw_if (is_absent e.revoked_at) revoke_needs_at
      throw_if (is_absent e.revoked_reason) revoke_needs_reason

module _ (is_date : String → Bool) where
  unfoldable pub validate_log_entry : LogEntry → Fallible LogError (Unit {0})
  unfolding validate_event
  validate_log_entry e = do
    throw_if
        (not (str_eq e.event "publish")
          && not (str_eq e.event "rotate")
          && not (str_eq e.event "revoke"))
        bad_event
    throw_if (str_eq e.user_id "") missing_user_id
    throw_if (str_eq e.key_id "") missing_key_id
    throw_if (str_eq e.algorithm "") missing_algorithm
    throw_if (str_eq e.public_key "") missing_public_key
    throw_if (not (str_eq e.key_type "identity") && not (str_eq e.key_type "encryption"))
        bad_key_type
    throw_if (str_eq e.created "" || not (is_date e.created)) bad_created
    throw_if (str_eq e.log_timestamp "" || not (is_date e.log_timestamp)) bad_log_timestamp
    validate_event e

  module _ (sha256 : Bytes → Bytes) (marshal : LogEntry → Bytes) where
    -- The new log and the index of the leaf.
    unfoldable pub append : LogEntry → Log → Fallible LogError (Log × ℕ)
    append e log = do
      validate_log_entry e
      let leaves = log.leaves ++ hash_leaf sha256 (marshal e) ∷ []
      ok (record { entries = log.entries ++ e ∷ []; leaves = leaves }, length leaves - 1)

    -- A run of calls of `append`.
    unfoldable pub append_all : List LogEntry → Log → Fallible LogError Log
    append_all [] log = ok log
    append_all (e ∷ es) log = do appended ← append e log; append_all es appended.0

module _ (base64_encode : Bytes → String) where
  -- `encodeHash`, with its error as one of the log's.
  unfoldable pub encode_one : Bytes → Fallible LogError String
  encode_one h = elim (encode_hash base64_encode h) [ ok s ↦ ok s | throw e ↦ throw (bad_hash e) ]

  -- `items.map(encodeHash)`, which throws on the first hash of another length.
  unfoldable pub encode_hashes : List Bytes → Fallible LogError (List String)
  encode_hashes [] = ok []
  encode_hashes (h ∷ hs) = do s ← encode_one h; rest ← encode_hashes hs; ok (s ∷ rest)

  module _ (sha256 : Bytes → Bytes) where
    unfoldable pub issue_sth : (TreeHead → TreeHead) → ℕ → Log → Fallible LogError TreeHead
    issue_sth sign now log = do
      root ← encode_one (subtree_root sha256 log.leaves)
      ok (
          sign (record {
            log_size = length log.leaves;
            root_hash = root;
            timestamp = now - now % 1000;
            signature = "";
          }))

    -- The leaf that stands at the index is passed in; there is one, since the index is in range.
    unfoldable pub proof_of : ℕ → ℕ → List Bytes → Option Bytes → Fallible LogError InclusionProof
    proof_of leaf_index tree_size leaves none = throw (leaf_out_of_range leaf_index)
    proof_of leaf_index tree_size leaves (some leaf) = do
      leaf_hash ← encode_one leaf
      path ← encode_hashes (audit_path sha256 leaf_index leaves)
      ok (record {
        leaf_index = leaf_index;
        log_size = tree_size;
        leaf_hash = leaf_hash;
        path = path;
      })

    unfoldable pub inclusion_proof : ℕ → ℕ → Log → Fallible LogError InclusionProof
    unfolding proof_of
    inclusion_proof leaf_index tree_size log = do
      throw_if (tree_size == 0) (invalid_tree_size tree_size)
      throw_if (ltb (length log.leaves) tree_size) (tree_size_exceeds tree_size)
      throw_if (leb tree_size leaf_index) (leaf_out_of_range leaf_index)
      let leaves = take tree_size log.leaves
      proof_of leaf_index tree_size leaves (get_elem? leaves leaf_index)
