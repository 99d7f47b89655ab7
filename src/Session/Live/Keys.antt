-- ===== src/Session/Live/Keys.antt =====
-- Key material: what is erased, and what a rekey leaves.
use semp_ts.Common.{
  ℕ, ◌≡◌, refl, ap, ◌∙◌, inl, inr, String, Bool, true, false, ◌||◌, Option, none, some, List, [],
  ◌∷◌, ◌==◌, if◌then◌else◌, Fallible, ok, throw, arith, Bool-cases,
}
use semp_ts.Session.Live.{
  Heap, blank, zero_buffer, SessionKeys, zero_keys, World, keys_of, send, receive, close,
  apply_rekey, erase_keys, erase, is_expired, expires_at, keys_erased, closed, rekey_after_erase,
}

blank-blank : (bs : List ℕ) → blank (blank bs) ≡ blank bs
blank-blank [] = refl
blank-blank (b ∷ bs) = ap (λ t. 0 ∷ t) (blank-blank bs)

-- A buffer is one of the keys'.
unfoldable pub holds : SessionKeys → ℕ → Bool
holds k j =
    (k.enc_c2s == j)
    || (k.enc_s2c == j)
    || (k.mac_c2s == j)
    || (k.mac_s2c == j)
    || (k.env_mac == j)
    || elim k.resumption [ none ↦ false | some b ↦ b == j ]

pub zero_keys_at :
    (k : SessionKeys) (heap : Heap) (j : ℕ)
    → zero_keys k heap j ≡ (if holds k j then blank (heap j) else heap j)
unfolding zero_keys holds zero_buffer
zero_keys_at k heap j = ground (arith, blank-blank (heap j))

close_closed :
    (w : World)
    → ((close w).session.is_closed ≡ true)
      × ((close w).session.keys ≡ w.session.keys)
      × ((close w).heap ≡ w.heap)
unfolding close
close_closed w = elim (Bool-cases w.session.is_closed) [
  | inl shut ↦ rw shut (refl, refl, refl)
  | inr live ↦ rw live (refl, refl, refl)
]

erase_keys_gone :
    (w : World)
    → ((erase_keys w).session.keys ≡ none)
      × ((erase_keys w).session.is_closed ≡ w.session.is_closed)
unfolding erase_keys
erase_keys_gone w = ground arith

erase_gone : (w : World) → ((erase w).session.keys ≡ none) × ((erase w).session.is_closed ≡ true)
unfolding erase
erase_gone w = ((erase_keys_gone (close w)).0, (erase_keys_gone (close w)).1 ∙ (close_closed w).0)

erase_keys_heap :
    (w : World) (k : SessionKeys)
    → w.session.keys ≡ some k
    → (erase_keys w).heap ≡ zero_keys k w.heap
unfolding erase_keys
erase_keys_heap w k there = ground (arith, there)

erase_done : (w : World) → w.session.is_closed ≡ true → w.session.keys ≡ none → erase w ≡ w
unfolding erase erase_keys close
erase_done w shut gone = rw shut (rw gone refl)

refused :
    (w : World)
    → w.session.is_closed ≡ true
    → w.session.keys ≡ none
    → (keys_of w.session ≡ throw keys_erased)
      × ((message : List ℕ) (failure : Option String) → (send message failure w).1 ≡ throw closed)
      × ((answer : Fallible String (Option (List ℕ))) → receive answer w ≡ throw closed)
      × ((id : String) (new : SessionKeys) → apply_rekey id new w ≡ throw rekey_after_erase)
unfolding keys_of send receive apply_rekey
refused w shut gone = (
  ground (arith, gone),
  λ message failure. ground (arith, shut),
  λ answer. ground (arith, shut),
  λ id new. ground (arith, gone),
)

-- After an erase of a session that has keys, its keys cannot be had any more, nothing is sent or
-- received over it and no rekey is accepted; its key buffers hold only zeros, no other buffer has
-- changed, and a second erase changes nothing.
pub erase-refuses :
    (w : World) (k : SessionKeys)
    → w.session.keys ≡ some k
    → let w' = erase w in
      ((keys_of w'.session ≡ throw keys_erased)
        × ((message : List ℕ) (failure : Option String)
            → (send message failure w').1 ≡ throw closed)
        × ((answer : Fallible String (Option (List ℕ))) → receive answer w' ≡ throw closed)
        × ((id : String) (new : SessionKeys) → apply_rekey id new w' ≡ throw rekey_after_erase))
      × ((j : ℕ) → w'.heap j ≡ (if holds k j then blank (w.heap j) else w.heap j))
      × (erase w' ≡ w')
erase-refuses w k there =
    let (gone, shut) = erase_gone w in
    let (_, same_keys, same_heap) = close_closed w in
    let wiped : (erase w).heap ≡ zero_keys k w.heap =
      unfold erase in
      erase_keys_heap (close w) k (same_keys ∙ there) ∙ ap (zero_keys k) same_heap in
    (
      refused (erase w) shut gone,
      λ j. ap (λ (h : Heap). h j) wiped ∙ zero_keys_at k w.heap j,
      erase_done (erase w) shut gone,
    )

-- A rekey of a live session installs the new keys under the new name, wipes the buffers of the old
-- ones and changes no other buffer, so that new keys that share none with the old keep their bytes;
-- the session keeps its lifetime.
pub apply_rekey-swaps :
    (id : String) (new k : SessionKeys) (w : World)
    → w.session.keys ≡ some k
    → w.session.is_closed ≡ false
    → (w' : World) × (apply_rekey id new w ≡ ok w')
      × (keys_of w'.session ≡ ok new)
      × (w'.session.session_id ≡ id)
      × ((now : ℕ) → is_expired now w'.session ≡ is_expired now w.session)
      × ((j : ℕ) → holds k j ≡ true → w'.heap j ≡ blank (w.heap j))
      × ((j : ℕ) → holds k j ≡ false → w'.heap j ≡ w.heap j)
unfolding apply_rekey keys_of is_expired expires_at
apply_rekey-swaps id new k w there live = (
  record {
    session = record w.session { keys = some new; session_id = id };
    heap = zero_keys k w.heap;
  },
  ground (arith, there, live),
  refl,
  refl,
  λ now. refl,
  λ j e. zero_keys_at k w.heap j ∙ ground (arith, e),
  λ j e. zero_keys_at k w.heap j ∙ ground (arith, e),
)
