-- ===== src/Transparency/Merkle.antt =====
-- src/transparency/merkle.ts: RFC 6962 tree hashes, audit paths and their verification. Bytes are
-- numbers below 256. SHA-256 (@noble/hashes) and the platform's base64 are parameters. The sizes
-- and indices of a proof are taken as natural numbers; `>>>` works on 32 bits, as in the source.
pub mod Powers
pub mod Climb
pub mod Trees
pub mod Inclusion
pub mod Binding
pub mod Hashes
pub mod Decode
pub mod Verify
use semp_ts.Common.{
  ℕ, zero, suc, ◌+◌, ◌-◌, ◌*◌, ◌/◌, ◌%◌, String, Bool, true, false, ◌&&◌, ◌||◌, not, List, [], ◌∷◌,
  ◌++◌, ltb, leb, ◌==◌, if◌then◌else◌, length, take, drop, Fallible, ok, throw, ◌>>=◌,
}

abbrev pub Bytes : Type 0
Bytes = List ℕ

abbrev pub leaf_prefix : ℕ
leaf_prefix = 0

abbrev pub interior_prefix : ℕ
interior_prefix = 1

pub data ProofError : Type 0 where
  too_short : ProofError
  unused : ℕ → ProofError
  hash_length : ℕ → ProofError
  path_entry : ℕ → ProofError → ProofError

-- n >>> 1
unfoldable pub shr : ℕ → ℕ
shr n = n % 4294967296 / 2

-- (n & 1) === 1
abbrev pub odd : ℕ → Bool
odd n = n % 2 == 1

-- The loop of `largestPowerOfTwoLessThan`; `n` rounds are enough.
unfoldable pub double_below : ℕ → ℕ → ℕ → ℕ
double_below zero k n = k
double_below (suc fuel) k n =
    let more = double_below fuel (k * 2) n in if ltb (k * 2) n then more else k

unfoldable pub largest_power_of_two_less_than : ℕ → ℕ
unfolding double_below
largest_power_of_two_less_than n = if leb n 1 then 0 else double_below n 1 n

-- The loop `while (fn !== 0 && (fn & 1) === 0)`; `fn` rounds are enough.
unfoldable pub strip : ℕ → ℕ → ℕ → ℕ × ℕ
unfolding shr
strip zero fn sn = (fn, sn)
strip (suc fuel) fn sn =
    let rest = strip fuel (shr fn) (shr sn) in
    if not (fn == 0) && not (odd fn) then rest else (fn, sn)

unfoldable pub bytes_equal_from : Bytes → Bytes → Bool
bytes_equal_from [] ys = true
bytes_equal_from (x ∷ xs) [] = false
bytes_equal_from (x ∷ xs) (y ∷ ys) = if x == y then bytes_equal_from xs ys else false

unfoldable pub bytes_equal : Bytes → Bytes → Bool
unfolding bytes_equal_from
bytes_equal a b = if length a == length b then bytes_equal_from a b else false

pub record InclusionProof : Type 0 where
  pub leaf_index : ℕ
  pub log_size : ℕ
  pub leaf_hash : String
  pub path : List String

-- The error of a `try` is dropped: the caller returns false.
unfoldable pub accepts : {A : Type 0} → Fallible ProofError A → (A → Bool) → Bool
accepts (ok a) test = test a
accepts (throw e) test = false

-- One round of the loops over a path, without its hash: where the walk stands next.
unfoldable pub from_left : ℕ → ℕ → Bool
from_left fn sn = odd fn || fn == sn

unfoldable pub step_up : ℕ → ℕ → Bool → ℕ × ℕ
unfolding strip
step_up fn sn true = let (f, t) = strip fn fn sn in (shr f, shr t)
step_up fn sn false = (shr fn, shr sn)

-- new Uint8Array(n)
abbrev pub zeros : ℕ → Bytes
zeros zero = []
zeros (suc n) = 0 ∷ zeros n

module _ (base64_encode : Bytes → String) where
  unfoldable pub encode_hash : Bytes → Fallible ProofError String
  encode_hash h = if length h == 32 then ok (base64_encode h) else throw (hash_length (length h))

module _ (base64_decode : String → Bytes) where
  unfoldable pub decode_hash : String → Fallible ProofError Bytes
  decode_hash s =
      let out = base64_decode s in
      if length out == 32 then ok out else throw (hash_length (length out))

  -- The loop of `decodeHashes`, with its counter.
  unfoldable pub decode_hashes_from : ℕ → List String → Fallible ProofError (List Bytes)
  unfolding decode_hash
  decode_hashes_from i [] = ok []
  decode_hashes_from i (item ∷ items) = elim (decode_hash item) [
    | ok h ↦ do rest ← decode_hashes_from (i + 1) items; ok (h ∷ rest)
    | throw e ↦ throw (path_entry i e)
  ]

  unfoldable pub decode_hashes : List String → Fallible ProofError (List Bytes)
  decode_hashes items = decode_hashes_from 0 items

module _ (sha256 : Bytes → Bytes) where
  unfoldable pub hash_leaf : Bytes → Bytes
  hash_leaf entry_bytes = sha256 (leaf_prefix ∷ entry_bytes)

  -- On two hashes of 32 bytes, which fill the buffer of 65.
  unfoldable pub hash_interior : Bytes → Bytes → Bytes
  hash_interior left right = sha256 (interior_prefix ∷ left ++ right)

  -- The calls are on slices, which are shorter: the list's length is enough fuel.
  unfoldable pub subtree_root_fuel : ℕ → List Bytes → Bytes
  subtree_root_fuel fuel [] = zeros 32
  subtree_root_fuel fuel (leaf ∷ []) = leaf
  subtree_root_fuel zero (leaf ∷ next ∷ rest) = zeros 32
  subtree_root_fuel (suc fuel) (leaf ∷ next ∷ rest) =
      let leaves = leaf ∷ next ∷ rest in
      let k = largest_power_of_two_less_than (length leaves) in
      hash_interior (subtree_root_fuel fuel (take k leaves))
        (subtree_root_fuel fuel (drop k leaves))

  unfoldable pub subtree_root : List Bytes → Bytes
  subtree_root leaves = subtree_root_fuel (length leaves) leaves

  unfoldable pub audit_path_fuel : ℕ → ℕ → List Bytes → List Bytes
  audit_path_fuel zero m leaves = []
  audit_path_fuel (suc fuel) m leaves =
      let n = length leaves in
      let k = largest_power_of_two_less_than n in
      let on_left = audit_path_fuel fuel m (take k leaves) ++ subtree_root (drop k leaves) ∷ [] in
      let on_right =
        audit_path_fuel fuel (m - k) (drop k leaves) ++ subtree_root (take k leaves) ∷ [] in
      if leb n 1 then [] else if ltb m k then on_left else on_right

  unfoldable pub audit_path : ℕ → List Bytes → List Bytes
  audit_path m leaves = audit_path_fuel (length leaves) m leaves

  -- The loop of `computeRootFromInclusion`: each round takes one sibling.
  unfoldable pub climb : ℕ → ℕ → Bytes → List Bytes → Fallible ProofError Bytes
  unfolding from_left
  climb fn sn r [] = if ltb 0 sn then throw too_short else ok r
  climb fn sn r (s ∷ rest) =
      let up = from_left fn sn in
      let (fn', sn') = step_up fn sn up in
      let higher = climb fn' sn' (if up then hash_interior s r else hash_interior r s) rest in
      if ltb 0 sn then higher else throw (unused (length (s ∷ rest)))

  unfoldable pub compute_root_from_inclusion :
      ℕ → ℕ → Bytes → List Bytes → Fallible ProofError Bytes
  compute_root_from_inclusion leaf_index tree_size leaf siblings =
      climb leaf_index (tree_size - 1) leaf siblings

  module _ (base64_decode : String → Bytes) where
    -- The chain of the `try` blocks: what they compute, or the error that they drop.
    unfoldable pub inclusion_root : InclusionProof → Fallible ProofError Bytes
    inclusion_root proof = do
      leaf ← decode_hash base64_decode proof.leaf_hash
      siblings ← decode_hashes base64_decode proof.path
      compute_root_from_inclusion proof.leaf_index proof.log_size leaf siblings

    unfoldable pub verify_inclusion_proof : InclusionProof → Bytes → Bool
    unfolding accepts inclusion_root
    verify_inclusion_proof proof root_hash =
        if proof.log_size == 0
        then false
        else if leb proof.log_size proof.leaf_index
        then false
        else accepts (inclusion_root proof) (λ computed. bytes_equal computed root_hash)
