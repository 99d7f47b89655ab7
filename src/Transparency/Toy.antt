-- ===== src/Transparency/Toy.antt =====
-- A platform at which the laws hold: a digest that repeats one byte, and texts that count in unary.
use Prim.Native.Char.{code}
use semp_ts.Common.{
  ℕ, zero, suc, ◌+◌, ◌*◌, ◌%◌, ◌<◌, ◌≡◌, refl, ap, ◌∙◌, String, arith, List, [], ◌∷◌, length, All,
  true, false, ◌==◌,
}
use semp_ts.Transparency.Platform.{PlatformLaws}

abbrev pub repeat : ℕ → ℕ → List ℕ
repeat zero b = []
repeat (suc n) b = b ∷ repeat n b

length-repeat : (n b : ℕ) → length (repeat n b) ≡ n
length-repeat zero b = refl
length-repeat (suc n) b = ap suc (length-repeat n b)

All-repeat : (n b : ℕ) → b < 256 → All (λ x. x < 256) (repeat n b)
All-repeat zero b h = tt
All-repeat (suc n) b h = (h, All-repeat n b h)

checksum : List ℕ → ℕ
checksum [] = 7
checksum (x ∷ xs) = x + 3 * checksum xs

unfoldable pub toy_digest : List ℕ → List ℕ
unfolding checksum
toy_digest b = repeat 32 (checksum b % 256)

tally : ℕ → String → String
tally zero s = String.◌∷◌ "b" s
tally (suc n) s = String.◌∷◌ "a" (tally n s)

unfoldable pub toy_encode : List ℕ → String
unfolding tally
toy_encode [] = ""
toy_encode (x ∷ xs) = tally x (toy_encode xs)

untally : ℕ → String → List ℕ
untally n String.[] = []
untally n (String.◌∷◌ c s) = elim (code c == b'b') [
  | true ↦ n ∷ untally 0 s
  | false ↦ untally (suc n) s
]

unfoldable pub toy_decode : String → List ℕ
unfolding untally
toy_decode s = untally 0 s

untally-tally : (n k : ℕ) (s : String) → untally k (tally n s) ≡ (k + n) ∷ untally 0 s
unfolding untally tally
untally-tally zero k s = let e : k + 0 ≡ k = omega arith in rw e
untally-tally (suc n) k s =
    let e : suc k + n ≡ k + suc n = omega arith in
    untally-tally n (suc k) s ∙ ap (λ i. i ∷ untally 0 s) e

decode-encode : (b : List ℕ) → untally 0 (toy_encode b) ≡ b
unfolding toy_encode
decode-encode [] = unfold untally in refl
decode-encode (x ∷ xs) =
    let e : 0 + x ≡ x = omega arith in
    untally-tally x 0 (toy_encode xs) ∙ rw e (ap (λ t. x ∷ t) (decode-encode xs))

pub toy_laws : PlatformLaws toy_digest toy_encode toy_decode
unfolding toy_digest toy_decode
toy_laws = record {
  sized = λ b. length-repeat 32 (checksum b % 256);
  digest_bytes = λ b. All-repeat 32 (checksum b % 256) (omega arith);
  decode-encode = λ b h. decode-encode b;
}
