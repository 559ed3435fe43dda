-- ===== src/Rpc/Fragments/Pieces.antt =====
-- One transaction: its pieces, how many of them are there, and their bytes.
use intranet_penetration_clo.Common.{
  ℕ, zero, suc, ◌+◌, ◌-◌, ◌≤◌, ◌<◌, ◌≡◌, refl, Option, none, some, List, [], ◌∷◌, ◌++◌, length,
  get_or, set, replicate, eqb, if◌then◌else◌, arith, length-set, length-append, length-replicate,
}
use intranet_penetration_clo.Packet.{Bytes}
use intranet_penetration_clo.Rpc.{RpcPacket}
use intranet_penetration_clo.Rpc.Fragments.{
  PendingRpc, new_pending, piece_bytes, is_none, with_piece, assemble,
}

abbrev pub sum_bytes : List (Option Bytes) → ℕ
sum_bytes [] = 0
sum_bytes (piece ∷ pieces) = piece_bytes piece + sum_bytes pieces

abbrev pub count_some : List (Option Bytes) → ℕ
count_some [] = 0
count_some (piece ∷ pieces) = (if is_none piece then 0 else 1) + count_some pieces

pub sum_bytes-set :
    (pieces : List (Option Bytes)) (i : ℕ) (body : Bytes)
    → i < length pieces
    → sum_bytes (set pieces i (some body)) + piece_bytes (get_or pieces i none)
      ≡ sum_bytes pieces + length body
sum_bytes-set [] i body h = absurd (omega arith)
sum_bytes-set (piece ∷ pieces) zero body h = omega arith
sum_bytes-set (piece ∷ pieces) (suc i) body h =
    omega (arith, sum_bytes-set pieces i body (omega arith))

pub piece_bytes_le :
    (pieces : List (Option Bytes)) (i : ℕ) → piece_bytes (get_or pieces i none) ≤ sum_bytes pieces
piece_bytes_le [] i = omega arith
piece_bytes_le (piece ∷ pieces) zero = omega arith
piece_bytes_le (piece ∷ pieces) (suc i) = omega (arith, piece_bytes_le pieces i)

pub count_some-set :
    (pieces : List (Option Bytes)) (i : ℕ) (body : Bytes)
    → i < length pieces
    → count_some (set pieces i (some body))
      ≡ (if is_none (get_or pieces i none) then count_some pieces + 1 else count_some pieces)
count_some-set [] i body h = absurd (omega arith)
count_some-set (none ∷ pieces) zero body h = omega arith
count_some-set (some b ∷ pieces) zero body h = omega arith
count_some-set (piece ∷ pieces) (suc i) body h =
    ground (arith, count_some-set pieces i body (omega arith))

pub sum_bytes-replicate : (n : ℕ) → sum_bytes (replicate n none) ≡ 0
sum_bytes-replicate zero = refl
sum_bytes-replicate (suc n) = omega (arith, sum_bytes-replicate n)

pub count_some-replicate : (n : ℕ) → count_some (replicate n none) ≡ 0
count_some-replicate zero = refl
count_some-replicate (suc n) = omega (arith, count_some-replicate n)

pub get_or-replicate : (n i : ℕ) → get_or {A = Option Bytes} (replicate n none) i none ≡ none
get_or-replicate zero i = refl
get_or-replicate (suc n) zero = refl
get_or-replicate (suc n) (suc i) = get_or-replicate n i

pub count_some_le : (pieces : List (Option Bytes)) → count_some pieces ≤ length pieces
count_some_le [] = omega arith
count_some_le (piece ∷ pieces) = ground (arith, count_some_le pieces)

-- A transaction with all of its pieces can be put together.
pub assemble_full :
    (pieces : List (Option Bytes))
    → count_some pieces ≡ length pieces
    → (body : Bytes) × (assemble pieces ≡ some body) × (length body ≡ sum_bytes pieces)
unfolding assemble
assemble_full [] h = ([], refl, refl)
assemble_full (none ∷ pieces) h = absurd (omega (arith, count_some_le pieces))
assemble_full (some b ∷ pieces) h =
    let (rest, all_there, len) = assemble_full pieces (omega arith) in
    (b ++ rest, rw all_there refl, omega (arith, length-append b rest, len))

-- The fields of a pending transaction agree with its pieces.
pub record IsPending (p : PendingRpc) : Type 0 where
  pub size : length p.pieces ≡ p.total_pieces
  pub body : p.body_bytes ≡ sum_bytes p.pieces
  pub count : p.received_pieces ≡ count_some p.pieces
  pub first_known : is_none p.first ≡ is_none (get_or p.pieces 0 none)

pub new_pending-IsPending : (n now : ℕ) → IsPending (new_pending n now)
new_pending-IsPending n now = record {
  size = length-replicate n none;
  body = omega (arith, sum_bytes-replicate n);
  count = omega (arith, count_some-replicate n);
  first_known = rw (get_or-replicate n 0) refl;
}

first_after :
    (pieces : List (Option Bytes)) (i : ℕ) (packet : RpcPacket) (first : Option RpcPacket)
    → i < length pieces
    → is_none first ≡ is_none (get_or pieces 0 none)
    → is_none (if eqb i 0 then some packet else first)
      ≡ is_none (get_or (set pieces i (some packet.body)) 0 none)
first_after [] i packet first lt h = absurd (omega arith)
first_after (piece ∷ pieces) zero packet first lt h = refl
first_after (piece ∷ pieces) (suc i) packet first lt h = ground (arith, h)

-- One more piece, where the sum of the bytes does not reach the end of the size type.
pub with_piece-IsPending :
    (packet : RpcPacket) (now : ℕ) (p : PendingRpc)
    → IsPending p
    → packet.piece_idx < p.total_pieces
    → p.body_bytes - piece_bytes (get_or p.pieces packet.piece_idx none) + length packet.body
      < 4_294_967_295
    → IsPending (with_piece packet now p)
with_piece-IsPending packet now p h lt fits = record {
  size = omega (arith, length-set p.pieces packet.piece_idx (some packet.body), h.size);
  body = ground (
    arith,
    h.body,
    h.size,
    sum_bytes-set p.pieces packet.piece_idx packet.body,
    piece_bytes_le p.pieces packet.piece_idx,
  );
  count = ground (arith, h.count, h.size, count_some-set p.pieces packet.piece_idx packet.body);
  first_known =
      first_after p.pieces packet.piece_idx packet p.first (omega (arith, h.size)) h.first_known;
}
