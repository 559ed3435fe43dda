-- ===== src/Rpc/Fragments/Accounts.antt =====
-- The accounts of the pending transactions, kept by every operation on them.
use intranet_penetration_clo.Common.{
  ℕ, ◌+◌, ◌-◌, ◌≤◌, ◌<◌, ◌≡◌, refl, ◌&&◌, Option, none, some, List, [], ◌∷◌, length, get_or, eqb,
  if◌then◌else◌, arith, String,
}
use intranet_penetration_clo.Common.Dict.{lookup, insert, delete}
use intranet_penetration_clo.Common.Dict.Sums.{
  IsDistinct, insert-IsDistinct, delete-IsDistinct, total, total-delete, total-insert,
  total-insert-none, Every, Every-lookup, insert-Every, delete-Every,
}
use intranet_penetration_clo.Common.Key.{pair_key, text_key, nat_key, bool_key}
use intranet_penetration_clo.Rpc.{RpcPacket, RpcKey}
use intranet_penetration_clo.Rpc.Fragments.{
  Fragments, PendingRpc, PendingMap, new_pending, with_piece, piece_bytes, drop_pending,
  remove_pending, remove_keys, clean_pending, expired_keys, peer_pending, max_pending_bytes,
  max_pending_pieces, max_pending_transactions_per_peer, saturating_add,
}
use intranet_penetration_clo.Rpc.Fragments.Pieces.{
  IsPending, new_pending-IsPending, with_piece-IsPending, piece_bytes_le,
}

abbrev pub bytes_of : PendingMap → ℕ
bytes_of m = total (λ p. p.body_bytes) m

abbrev pub pieces_of : PendingMap → ℕ
pieces_of m = total (λ p. p.total_pieces) m

peer_pending-delete :
    (network : String) (peer_id : ℕ) (key : RpcKey) (m : PendingMap)
    → peer_pending network peer_id (delete key m) ≤ peer_pending network peer_id m
unfolding peer_pending delete
peer_pending-delete network peer_id key [] = omega arith
peer_pending-delete network peer_id key ((k, p) ∷ m) =
    ground (arith, peer_pending-delete network peer_id key m)

peer_pending-insert-some :
    (network : String) (peer_id : ℕ) (key : RpcKey) (p q : PendingRpc) (m : PendingMap)
    → lookup key m ≡ some q
    → peer_pending network peer_id (insert key p m) ≡ peer_pending network peer_id m
unfolding peer_pending insert lookup
peer_pending-insert-some network peer_id key p q [] e = ground arith
peer_pending-insert-some network peer_id key p q ((k, r) ∷ m) e =
    ground (arith, peer_pending-insert-some network peer_id key p q m)

peer_pending-insert-none :
    (network : String) (peer_id : ℕ) (key : RpcKey) (p : PendingRpc) (m : PendingMap)
    → lookup key m ≡ none
    → peer_pending network peer_id (insert key p m)
      ≡ peer_pending network peer_id m
        + (if text_key.same key.0 network && eqb key.1.0 peer_id then 1 else 0)
unfolding peer_pending insert lookup
peer_pending-insert-none network peer_id key p [] e = omega arith
peer_pending-insert-none network peer_id key p ((k, r) ∷ m) e =
    ground (arith, peer_pending-insert-none network peer_id key p m)

-- The counters are the totals over the pending transactions, within the limits, of which the last
-- is that of each peer.
pub record IsAccounted (fs : Fragments) : Type 0 where
  pub distinct : IsDistinct fs.pending
  pub each : Every IsPending fs.pending
  pub bytes : fs.pending_bytes ≡ bytes_of fs.pending
  pub pieces : fs.pending_pieces ≡ pieces_of fs.pending
  pub byte_limit : fs.pending_bytes ≤ max_pending_bytes
  pub piece_limit : fs.pending_pieces ≤ max_pending_pieces
  pub fair :
      (network : String) (peer_id : ℕ)
      → peer_pending network peer_id fs.pending ≤ max_pending_transactions_per_peer

drop_pending-IsAccounted :
    (key : RpcKey) (o : Option PendingRpc) (fs : Fragments)
    → lookup key fs.pending ≡ o
    → IsAccounted fs
    → IsAccounted (drop_pending key o fs)
unfolding drop_pending
drop_pending-IsAccounted key none fs e a = a
drop_pending-IsAccounted key (some p) fs e a =
    let fewer_bytes = total-delete (λ p. p.body_bytes) key p fs.pending a.distinct e in
    let fewer_pieces = total-delete (λ p. p.total_pieces) key p fs.pending a.distinct e in
    record {
      distinct = delete-IsDistinct key fs.pending a.distinct;
      each = delete-Every IsPending key fs.pending a.each;
      bytes = omega (arith, a.bytes, fewer_bytes);
      pieces = omega (arith, a.pieces, fewer_pieces);
      byte_limit = omega (arith, a.byte_limit);
      piece_limit = omega (arith, a.piece_limit);
      fair = λ network peer_id.
          omega (arith, peer_pending-delete network peer_id key fs.pending, a.fair network peer_id);
    }

pub remove_pending-IsAccounted :
    (key : RpcKey) (fs : Fragments) → IsAccounted fs → IsAccounted (remove_pending key fs)
unfolding remove_pending
remove_pending-IsAccounted key fs a = drop_pending-IsAccounted key (lookup key fs.pending) fs refl a

remove_keys-IsAccounted :
    (keys : List RpcKey) (fs : Fragments) → IsAccounted fs → IsAccounted (remove_keys keys fs)
unfolding remove_keys
remove_keys-IsAccounted [] fs a = a
remove_keys-IsAccounted (key ∷ keys) fs a =
    remove_keys-IsAccounted keys (remove_pending key fs) (remove_pending-IsAccounted key fs a)

pub clean_pending-IsAccounted :
    (now : ℕ) (fs : Fragments) → IsAccounted fs → IsAccounted (clean_pending now fs)
unfolding clean_pending
clean_pending-IsAccounted now fs a = remove_keys-IsAccounted (expired_keys now fs.pending) fs a

pub insert_new-IsAccounted :
    (key : RpcKey) (n now : ℕ) (fs : Fragments)
    → lookup key fs.pending ≡ none
    → fs.pending_pieces + n ≤ max_pending_pieces
    → peer_pending key.0 key.1.0 fs.pending < max_pending_transactions_per_peer
    → IsAccounted fs
    → IsAccounted (record fs {
      pending = insert key (new_pending n now) fs.pending;
      pending_pieces = fs.pending_pieces + n;
    })
insert_new-IsAccounted key n now fs e room few a = record {
  distinct = insert-IsDistinct key (new_pending n now) fs.pending a.distinct;
  each =
      insert-Every IsPending key (new_pending n now) fs.pending a.each
        (new_pending-IsPending n now);
  bytes =
      omega (
        arith,
        a.bytes,
        total-insert-none (λ p. p.body_bytes) key (new_pending n now) fs.pending e,
      );
  pieces = omega (
    arith,
    a.pieces,
    total-insert-none (λ p. p.total_pieces) key (new_pending n now) fs.pending e,
  );
  byte_limit = a.byte_limit;
  piece_limit = room;
  fair = λ network peer_id. ground (
    arith,
    few,
    peer_pending-insert-none network peer_id key (new_pending n now) fs.pending e,
    a.fair network peer_id,
    text_key.same_iff key.0 network,
  );
}

-- A pending transaction's bytes are among the pending bytes.
body_bytes_le :
    (key : RpcKey) (p : PendingRpc) (fs : Fragments)
    → IsAccounted fs
    → lookup key fs.pending ≡ some p
    → p.body_bytes ≤ fs.pending_bytes
body_bytes_le key p fs a e =
    omega (arith, a.bytes, total-delete (λ p. p.body_bytes) key p fs.pending a.distinct e)

abbrev pub next_bytes : RpcPacket → PendingRpc → Fragments → ℕ
next_bytes packet p fs =
    saturating_add (fs.pending_bytes - piece_bytes (get_or p.pieces packet.piece_idx none))
      (length packet.body)

pub stored-IsAccounted :
    (key : RpcKey) (packet : RpcPacket) (now : ℕ) (p : PendingRpc) (fs : Fragments)
    → lookup key fs.pending ≡ some p
    → packet.piece_idx < p.total_pieces
    → next_bytes packet p fs ≤ max_pending_bytes
    → IsAccounted fs
    → IsAccounted (record fs {
      pending = insert key (with_piece packet now p) fs.pending;
      pending_bytes = next_bytes packet p fs;
    })
stored-IsAccounted key packet now p fs e lt fits a =
    let ip = Every-lookup IsPending key p fs.pending a.each e in
    let within = body_bytes_le key p fs a e in
    let old_le = piece_bytes_le p.pieces packet.piece_idx in
    record {
      distinct = insert-IsDistinct key (with_piece packet now p) fs.pending a.distinct;
      each =
          insert-Every IsPending key (with_piece packet now p) fs.pending a.each (
            with_piece-IsPending packet now p ip lt (omega (arith, within, fits, old_le, ip.body)));
      bytes = omega (
        arith,
        a.bytes,
        within,
        fits,
        old_le,
        ip.body,
        total-insert (λ p. p.body_bytes) key (with_piece packet now p) p fs.pending e,
      );
      pieces = omega (
        arith,
        a.pieces,
        total-insert (λ p. p.total_pieces) key (with_piece packet now p) p fs.pending e,
      );
      byte_limit = fits;
      piece_limit = a.piece_limit;
      fair = λ network peer_id. omega (
        arith,
        a.fair network peer_id,
        peer_pending-insert-some network peer_id key (with_piece packet now p) p fs.pending e,
      );
    }
