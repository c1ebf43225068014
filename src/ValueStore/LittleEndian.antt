-- ===== src/ValueStore/LittleEndian.antt =====
-- A host for the runs: numbers that lie in memory with the low byte first.
use seec.Common.{
  ℕ, zero, suc, ◌+◌, ◌*◌, ◌/◌, ◌%◌, ◌<◌, ◌≡◌, refl, ap, List, [], ◌∷◌, arith, ◌==◌, length,
}
use package.seec.ValueStore.Store.{Scalar, Host}

abbrev pub to_bytes : ℕ → ℕ → List ℕ
to_bytes zero v = []
to_bytes (suc n) v = v % 256 ∷ to_bytes n (v / 256)

abbrev pub from_bytes : List ℕ → ℕ
from_bytes [] = 0
from_bytes (b ∷ bs) = b + 256 * from_bytes bs

abbrev pub byte_bound : ℕ → ℕ
byte_bound zero = 1
byte_bound (suc n) = 256 * byte_bound n

pub length-to_bytes : (n v : ℕ) → length (to_bytes n v) ≡ n
length-to_bytes zero v = refl
length-to_bytes (suc n) v = ap suc (length-to_bytes n (v / 256))

pub from_bytes-to_bytes : (n v : ℕ) → v < byte_bound n → from_bytes (to_bytes n v) ≡ v
from_bytes-to_bytes zero v h = omega arith
from_bytes-to_bytes (suc n) v h = omega (arith, from_bytes-to_bytes n (v / 256) (omega arith))

abbrev pub number : ℕ → Scalar ℕ
number n = record {
  size = n;
  encode = to_bytes n;
  decode = from_bytes;
  agrees = ◌==◌;
  IsValue = λ v. v < byte_bound n;
  length-encode = length-to_bytes n;
  decode-encode = from_bytes-to_bytes n;
}

abbrev pub numbers : Host
numbers = record {
  Float = ℕ;
  Double = ℕ;
  ApFloat = ℕ;
  uint64 = number 8;
  ptr = number 8;
  float = number 4;
  double = number 8;
  zero_apfloat = 0;
}
