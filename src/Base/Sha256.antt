-- ===== src/Base/Sha256.antt =====
-- `hashlib.sha256` of the standard library, over words below 2 ^ 32.
use Prim.Native.Nat.{ℕ, zero, suc, ◌+◌, ◌-◌, ◌*◌, ◌/◌, ◌%◌, ◌^◌, bit_and, bit_xor}
use mathlib.Core.Path.{◌≡◌, refl}
use mathlib.Core.List.{List, [], ◌∷◌, ◌++◌}
use native.Mathlib.Omega.{arith}
use micro_nux.Base.Tests.{Text, codes}
use micro_nux.Base.Lists.{length, take, drop, replicate, All}
use micro_nux.Base.Bytes.{be_bytes, be_value, IsByte}

record Words : Type 0 where
  a : ℕ
  b : ℕ
  c : ℕ
  d : ℕ
  e : ℕ
  f : ℕ
  g : ℕ
  h : ℕ

rotr : ℕ → ℕ → ℕ
rotr n x = x / 2 ^ n + x % 2 ^ n * 2 ^ (32 - n)

xor3 : ℕ → ℕ → ℕ → ℕ
xor3 x y z = bit_xor x (bit_xor y z)

abbrev round_constants : List ℕ
round_constants =
    0x428a2f98 ∷ 0x71374491 ∷ 0xb5c0fbcf ∷ 0xe9b5dba5 ∷ 0x3956c25b ∷ 0x59f111f1 ∷ 0x923f82a4
    ∷ 0xab1c5ed5 ∷ 0xd807aa98 ∷ 0x12835b01 ∷ 0x243185be ∷ 0x550c7dc3 ∷ 0x72be5d74 ∷ 0x80deb1fe
    ∷ 0x9bdc06a7 ∷ 0xc19bf174 ∷ 0xe49b69c1 ∷ 0xefbe4786 ∷ 0x0fc19dc6 ∷ 0x240ca1cc ∷ 0x2de92c6f
    ∷ 0x4a7484aa ∷ 0x5cb0a9dc ∷ 0x76f988da ∷ 0x983e5152 ∷ 0xa831c66d ∷ 0xb00327c8 ∷ 0xbf597fc7
    ∷ 0xc6e00bf3 ∷ 0xd5a79147 ∷ 0x06ca6351 ∷ 0x14292967 ∷ 0x27b70a85 ∷ 0x2e1b2138 ∷ 0x4d2c6dfc
    ∷ 0x53380d13 ∷ 0x650a7354 ∷ 0x766a0abb ∷ 0x81c2c92e ∷ 0x92722c85 ∷ 0xa2bfe8a1 ∷ 0xa81a664b
    ∷ 0xc24b8b70 ∷ 0xc76c51a3 ∷ 0xd192e819 ∷ 0xd6990624 ∷ 0xf40e3585 ∷ 0x106aa070 ∷ 0x19a4c116
    ∷ 0x1e376c08 ∷ 0x2748774c ∷ 0x34b0bcb5 ∷ 0x391c0cb3 ∷ 0x4ed8aa4a ∷ 0x5b9cca4f ∷ 0x682e6ff3
    ∷ 0x748f82ee ∷ 0x78a5636f ∷ 0x84c87814 ∷ 0x8cc70208 ∷ 0x90befffa ∷ 0xa4506ceb ∷ 0xbef9a3f7
    ∷ 0xc67178f2 ∷ []

abbrev initial : Words
initial = record {
  a = 0x6a09e667;
  b = 0xbb67ae85;
  c = 0x3c6ef372;
  d = 0xa54ff53a;
  e = 0x510e527f;
  f = 0x9b05688c;
  g = 0x1f83d9ab;
  h = 0x5be0cd19;
}

compress_round : Words → ℕ → ℕ → Words
unfolding rotr xor3
compress_round s k w =
    let choose = bit_xor (bit_and s.e s.f) (bit_and (0xffff_ffff - s.e) s.g) in
    let majority = xor3 (bit_and s.a s.b) (bit_and s.a s.c) (bit_and s.b s.c) in
    let t1 = s.h + xor3 (rotr 6 s.e) (rotr 11 s.e) (rotr 25 s.e) + choose + k + w in
    let t2 = xor3 (rotr 2 s.a) (rotr 13 s.a) (rotr 22 s.a) + majority in
    record {
      a = (t1 + t2) % 2 ^ 32;
      b = s.a;
      c = s.b;
      d = s.c;
      e = (s.d + t1) % 2 ^ 32;
      f = s.e;
      g = s.f;
      h = s.g;
    }

word_at : ℕ → List ℕ → ℕ
word_at i [] = 0
word_at zero (w ∷ ws) = w
word_at (suc i) (w ∷ ws) = word_at i ws

-- The window of sixteen words, moved on by one.
next_window : List ℕ → List ℕ
unfolding rotr xor3 word_at
next_window ws =
    let w1 = word_at 1 ws in
    let w14 = word_at 14 ws in
    let s0 = xor3 (rotr 7 w1) (rotr 18 w1) (w1 / 2 ^ 3) in
    let s1 = xor3 (rotr 17 w14) (rotr 19 w14) (w14 / 2 ^ 10) in
    drop 1 ws ++ ((word_at 0 ws + s0 + word_at 9 ws + s1) % 2 ^ 32 ∷ [])

rounds : List ℕ → List ℕ → Words → Words
unfolding compress_round next_window
rounds [] ws s = s
rounds (k ∷ ks) ws s = rounds ks (next_window ws) (compress_round s k (word_at 0 ws))

block_words : ℕ → Text → List ℕ
block_words zero bytes = []
block_words (suc n) bytes = be_value (take 4 bytes) ∷ block_words n (drop 4 bytes)

add_words : Words → Words → Words
add_words s t = record {
  a = (s.a + t.a) % 2 ^ 32;
  b = (s.b + t.b) % 2 ^ 32;
  c = (s.c + t.c) % 2 ^ 32;
  d = (s.d + t.d) % 2 ^ 32;
  e = (s.e + t.e) % 2 ^ 32;
  f = (s.f + t.f) % 2 ^ 32;
  g = (s.g + t.g) % 2 ^ 32;
  h = (s.h + t.h) % 2 ^ 32;
}

blocks : ℕ → Text → Words → Words
unfolding rounds block_words add_words
blocks zero bytes s = s
blocks (suc n) bytes s =
    blocks n (drop 64 bytes) (add_words s (rounds round_constants (block_words 16 bytes) s))

padded : Text → Text
padded bytes =
    let n = length bytes in
    bytes ++ (0x80 ∷ (replicate ((119 - n % 64) % 64) 0 ++ be_bytes 8 (8 * n)))

words_bytes : Words → Text
words_bytes s =
    be_bytes 4 s.a
    ++ (be_bytes 4 s.b
        ++ (be_bytes 4 s.c
            ++ (be_bytes 4 s.d
                ++ (be_bytes 4 s.e ++ (be_bytes 4 s.f ++ (be_bytes 4 s.g ++ (be_bytes 4 s.h)))))))

unfoldable pub sha256 : Text → Text
unfolding blocks padded words_bytes
sha256 bytes = words_bytes (blocks ((length bytes + 72) / 64) (padded bytes) initial)

pub length-sha256 : (bytes : Text) → length (sha256 bytes) ≡ 32
unfolding sha256
length-sha256 bytes = refl

words_bytes-IsByte : (s : Words) → All IsByte (words_bytes s)
unfolding words_bytes
words_bytes-IsByte s = omega arith

pub sha256-IsByte : (bytes : Text) → All IsByte (sha256 bytes)
unfolding sha256
sha256-IsByte bytes = words_bytes-IsByte _

-- The digests of the empty text and of "abc", as numbers.
sha256_empty :
    be_value (sha256 []) ≡ 0xe3b0c44298fc1c149afbf4c8996fb92427ae41e4649b934ca495991b7852b855
unfolding sha256
sha256_empty = refl

sha256_abc :
    be_value (sha256 (codes "abc"))
    ≡ 0xba7816bf8f01cfea414140de5dae2223b00361a396177a9cb410ff61f20015ad
unfolding sha256
sha256_abc = refl
