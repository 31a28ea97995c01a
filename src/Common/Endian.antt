-- ===== src/Common/Endian.antt =====
-- encoding/binary: fixed-width unsigned integers in both byte orders. The width is in bytes.
use lithicdb.Common.{
  ℕ, zero, suc, ◌+◌, ◌*◌, ◌/◌, ◌%◌, ◌^◌, ◌<◌, ◌≡◌, refl, [], ◌∷◌, ◌++◌, arith, length,
  length-append,
}
use lithicdb.Common.Bytes.{Bytes, All, IsByte, compare_bytes, compare_bytes-append, All-append}
use native.Mathlib.Nat.{div-div-eq-div-mul}
use Prim.Native.Nat.{compare}

-- PutUint of a value of `k` bytes: the bits above are cut off.
unfoldable pub big_endian : ℕ → ℕ → Bytes
big_endian zero v = []
big_endian (suc k) v = big_endian k (v / 256) ++ ((v % 256) ∷ [])

unfoldable pub little_endian : ℕ → ℕ → Bytes
little_endian zero v = []
little_endian (suc k) v = (v % 256) ∷ little_endian k (v / 256)

-- Uint of all the bytes of a slice.
unfoldable pub from_big_endian : ℕ → Bytes → ℕ
from_big_endian acc [] = acc
from_big_endian acc (b ∷ bs) = from_big_endian (acc * 256 + b) bs

unfoldable pub from_little_endian : Bytes → ℕ
from_little_endian [] = 0
from_little_endian (b ∷ bs) = b + 256 * from_little_endian bs

pub length-big_endian : (k v : ℕ) → length (big_endian k v) ≡ k
unfolding big_endian
length-big_endian zero v = refl
length-big_endian (suc k) v =
    omega (
      arith,
      length-append (big_endian k (v / 256)) ((v % 256) ∷ []),
      length-big_endian k (v / 256),
    )

pub length-little_endian : (k v : ℕ) → length (little_endian k v) ≡ k
unfolding little_endian
length-little_endian zero v = refl
length-little_endian (suc k) v = omega (arith, length-little_endian k (v / 256))

from_big_endian_snoc :
    (acc b : ℕ) (bs : Bytes)
    → from_big_endian acc (bs ++ (b ∷ [])) ≡ from_big_endian acc bs * 256 + b
unfolding from_big_endian
from_big_endian_snoc acc b [] = refl
from_big_endian_snoc acc b (c ∷ cs) = from_big_endian_snoc (acc * 256 + c) b cs

pub from_big_endian_lem : (k v : ℕ) → v < 256 ^ k → from_big_endian 0 (big_endian k v) ≡ v
unfolding big_endian
from_big_endian_lem zero v h = unfold from_big_endian in omega arith
from_big_endian_lem (suc k) v h = omega (
  arith,
  from_big_endian_snoc 0 (v % 256) (big_endian k (v / 256)),
  from_big_endian_lem k (v / 256) (omega arith),
)

pub from_little_endian_lem : (k v : ℕ) → v < 256 ^ k → from_little_endian (little_endian k v) ≡ v
unfolding little_endian from_little_endian
from_little_endian_lem zero v h = omega arith
from_little_endian_lem (suc k) v h = omega (arith, from_little_endian_lem k (v / 256) (omega arith))

pub pow_suc : (k : ℕ) → 256 ^ suc k ≡ 256 * 256 ^ k
pow_suc k = omega arith

pub from_little_endian-lt : (bs : Bytes) → All IsByte bs → from_little_endian bs < 256 ^ length bs
unfolding from_little_endian
from_little_endian-lt [] h = omega arith
from_little_endian-lt (b ∷ bs) (hb, hs) =
    omega (arith, from_little_endian-lt bs hs, pow_suc (length bs))

pub big_endian-IsByte : (k v : ℕ) → All IsByte (big_endian k v)
unfolding big_endian
big_endian-IsByte zero v = tt
big_endian-IsByte (suc k) v =
    All-append _ (big_endian k (v / 256)) _ (big_endian-IsByte k (v / 256)) (omega arith, tt)

pub little_endian-IsByte : (k v : ℕ) → All IsByte (little_endian k v)
unfolding little_endian
little_endian-IsByte zero v = tt
little_endian-IsByte (suc k) v = (omega arith, little_endian-IsByte k (v / 256))

-- Big-endian slices of one width are ordered as the numbers.
pub compare-big_endian :
    (k a b : ℕ)
    → a < 256 ^ k
    → b < 256 ^ k
    → compare_bytes (big_endian k a) (big_endian k b) ≡ compare a b
unfolding big_endian
compare-big_endian zero a b h k = unfold compare_bytes in ground arith
compare-big_endian (suc n) a b h k = ground (
  arith,
  compare_bytes-append (big_endian n (a / 256)) (big_endian n (b / 256)) ((a % 256) ∷ [])
      ((b % 256) ∷ []),
  length-big_endian n (a / 256),
  length-big_endian n (b / 256),
  compare-big_endian n (a / 256) (b / 256),
  compare_digit (a % 256) (b % 256),
)
  where
    compare_digit : (x y : ℕ) → compare_bytes (x ∷ []) (y ∷ []) ≡ compare x y
    compare_digit x y = unfold compare_bytes in ground arith

div_pow : (k v : ℕ) → v / 256 / 256 ^ k ≡ v / 256 ^ suc k
div_pow k v = rw pow_suc (div-div-eq-div-mul v 256 (256 ^ k))

-- The most significant byte comes first.
pub big_endian-cons : (k v : ℕ) → big_endian (suc k) v ≡ (v / 256 ^ k % 256) ∷ big_endian k v
unfolding big_endian
big_endian-cons zero v = ground arith
big_endian-cons (suc k) v = ground (arith, big_endian-cons k (v / 256), div_pow k v)
