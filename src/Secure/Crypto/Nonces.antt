-- ===== src/Secure/Crypto/Nonces.antt =====
-- Numbers as big-endian bytes, and what a nonce tells of a packet.
use intranet_penetration_clo.Common.{
  ℕ, zero, suc, ◌+◌, ◌-◌, ◌*◌, ◌/◌, ◌%◌, ◌^◌, ◌<◌, ◌≡◌, refl, [], ◌∷◌, ◌++◌, length, take, drop,
  length-append, arith, ap,
}
use mathlib.Core.Path.{ap₂}
use native.Mathlib.Nat.{pow-suc, zero-add, suc-add}
use intranet_penetration_clo.Packet.{Bytes}
use intranet_penetration_clo.Secure.Crypto.{be_bytes, from_be, nonce_bytes}

from_be-append : (bs : Bytes) (b n : ℕ) → from_be (bs ++ b ∷ []) n ≡ from_be bs n * 256 + b
unfolding from_be
from_be-append [] b n = refl
from_be-append (x ∷ bs) b n = from_be-append bs b (n * 256 + x)

pub from_be-be_bytes : (k n : ℕ) → n < 256 ^ k → from_be (be_bytes k n) 0 ≡ n
unfolding be_bytes from_be
from_be-be_bytes zero n h = omega arith
from_be-be_bytes (suc k) n h =
    let e : 256 ^ suc k ≡ 256 ^ k * 256 = pow-suc 256 k in
    let below : n / 256 < 256 ^ k = omega (arith, e) in
    let ih : from_be (be_bytes k (n / 256)) 0 ≡ n / 256 = from_be-be_bytes k (n / 256) below in
    rw (from_be-append (be_bytes k (n / 256)) (n % 256) 0, ih) (omega arith)

-- The epoch and the sequence number of a nonce.
abbrev pub nonce_id : Bytes → ℕ × ℕ
nonce_id nonce = (from_be (take 4 nonce) 0, from_be (drop 4 nonce) 0)

pub nonce_id-nonce_bytes :
    (epoch sequence : ℕ)
    → epoch < 2 ^ 32
    → sequence < 2 ^ 64
    → nonce_id (nonce_bytes epoch sequence) ≡ (epoch, sequence)
unfolding be_bytes
nonce_id-nonce_bytes epoch sequence he hs =
    ap₂ (λ (e s : ℕ). (e, s)) (from_be-be_bytes 4 epoch he) (from_be-be_bytes 8 sequence hs)

pub length-be_bytes : (k n : ℕ) → length (be_bytes k n) ≡ k
unfolding be_bytes
length-be_bytes zero n = refl
length-be_bytes (suc k) n =
    omega (arith, length-append (be_bytes k (n / 256)) (n % 256 ∷ []), length-be_bytes k (n / 256))

pub length-nonce_bytes : (epoch sequence : ℕ) → length (nonce_bytes epoch sequence) ≡ 12
unfolding be_bytes
length-nonce_bytes epoch sequence = refl

-- The bytes of a packet's end.
pub drop-append : (xs ys : Bytes) → drop (length xs) (xs ++ ys) ≡ ys
drop-append [] ys = refl
drop-append (x ∷ xs) ys = drop-append xs ys

pub take-append : (xs ys : Bytes) → take (length xs) (xs ++ ys) ≡ xs
take-append [] ys = refl
take-append (x ∷ xs) ys = ap (λ t. x ∷ t) (take-append xs ys)

-- The last bytes of a sealed payload.
pub drop_front :
    (ciphertext tag nonce : Bytes)
    → drop (length (ciphertext ++ (tag ++ nonce)) - length nonce) (ciphertext ++ (tag ++ nonce))
      ≡ nonce
drop_front [] [] nonce = let e : length nonce - length nonce ≡ 0 = omega arith in rw e refl
drop_front [] (b ∷ tag) nonce =
    let e : suc (length (tag ++ nonce)) - length nonce
        ≡ suc (length (tag ++ nonce) - length nonce) =
      omega (arith, length-append tag nonce) in
    rw e (drop_front [] tag nonce)
drop_front (b ∷ ciphertext) tag nonce =
    let whole = ciphertext ++ (tag ++ nonce) in
    let e : suc (length whole) - length nonce ≡ suc (length whole - length nonce) =
      omega (arith, length-append ciphertext (tag ++ nonce), length-append tag nonce) in
    rw e (drop_front ciphertext tag nonce)

pub drop-append_more : (xs ys : Bytes) (k : ℕ) → drop (length xs + k) (xs ++ ys) ≡ drop k ys
drop-append_more [] ys k = rw (zero-add k) refl
drop-append_more (x ∷ xs) ys k = rw (suc-add (length xs) k) (drop-append_more xs ys k)
