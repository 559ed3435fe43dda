-- ===== src/Rpc/Fragments.antt =====
-- Fragmented RPC packets: the pending transactions of cloudflare/wasm/src/rpc.rs with their
-- accounts, `merge_packet`, `clean_pending` and `remove_pending`. A size is a 32-bit `usize`.
pub mod Pieces
pub mod Accounts
pub mod Merge
mod Tests
use intranet_penetration_clo.Common.{
  ℕ, ◌+◌, ◌-◌, ◌*◌, ◌%◌, ◌^◌, min, String, Bool, true, false, not, ◌&&◌, ◌||◌, Option, none, some,
  List, [], ◌∷◌, ◌++◌, length, get_or, set, replicate, eqb, ltb, leb, if◌then◌else◌,
}
use intranet_penetration_clo.Common.Result.{Result, ok, err}
use intranet_penetration_clo.Common.Action.{Action, pure, raise, ◌>>=◌, ◌>>◌, update}
use intranet_penetration_clo.Common.Dict.{Dict, lookup, insert, delete}
use intranet_penetration_clo.Common.Key.{pair_key, text_key, nat_key, bool_key}
use intranet_penetration_clo.Packet.{Bytes}
use intranet_penetration_clo.Rpc.{RpcPacket, RpcDescriptor, RpcKey}

abbrev pub max_rpc_pieces : ℕ
max_rpc_pieces = 32_768

abbrev pub max_pending_transactions_per_peer : ℕ
max_pending_transactions_per_peer = 64

abbrev pub max_pending_bytes : ℕ
max_pending_bytes = 33_554_432

abbrev pub max_pending_pieces : ℕ
max_pending_pieces = 32_768

abbrev pub rpc_fragment_ttl_ms : ℕ
rpc_fragment_ttl_ms = 10_000

pub data FragmentError : Type 0 where
  invalid_envelope first_without_descriptor changed_piece_count too_many_transactions :
      FragmentError
  too_many_pieces too_many_bytes state_disappeared first_missing piece_missing : FragmentError

pub record PendingRpc : Type 0 where
  pub total_pieces : ℕ
  pub pieces : List (Option Bytes)
  pub first : Option RpcPacket
  pub received_pieces : ℕ
  pub body_bytes : ℕ
  pub updated_at_ms : ℕ

abbrev pub PendingMap : Type 0
PendingMap = Dict RpcKey PendingRpc

pub record Fragments : Type 0 where
  pub pending : PendingMap
  pub pending_bytes : ℕ
  pub pending_pieces : ℕ

pub data MergedPacket : Type 0 where
  pending : MergedPacket
  complete : RpcPacket → MergedPacket

-- `usize::saturating_add`
abbrev pub saturating_add : ℕ → ℕ → ℕ
saturating_add a b = min (a + b) 4_294_967_295

abbrev pub rpc_key : String → ℕ → ℕ → Bool → RpcKey
rpc_key network peer_id transaction_id is_request =
    (network, (peer_id, (transaction_id, is_request)))

abbrev pub same_key : RpcKey → RpcKey → Bool
same_key j k = pair_key.same j k

drop_pending : RpcKey → Option PendingRpc → Fragments → Fragments
drop_pending key none fs = fs
drop_pending key (some p) fs = record {
  pending = delete key fs.pending;
  pending_bytes = fs.pending_bytes - p.body_bytes;
  pending_pieces = fs.pending_pieces - p.total_pieces;
}

unfoldable pub remove_pending : RpcKey → Fragments → Fragments
unfolding drop_pending
remove_pending key fs = drop_pending key (lookup key fs.pending) fs

unfoldable pub remove_keys : List RpcKey → Fragments → Fragments
remove_keys [] fs = fs
remove_keys (key ∷ keys) fs = remove_keys keys (remove_pending key fs)

-- `now_ms.saturating_sub(value.updated_at_ms) >= RPC_FRAGMENT_TTL_MS`
abbrev pub is_stale : ℕ → PendingRpc → Bool
is_stale now p = leb rpc_fragment_ttl_ms (now - p.updated_at_ms)

unfoldable pub expired_keys : ℕ → PendingMap → List RpcKey
expired_keys now [] = []
expired_keys now ((key, p) ∷ rest) =
    if is_stale now p then key ∷ expired_keys now rest else expired_keys now rest

unfoldable pub clean_pending : ℕ → Fragments → Fragments
clean_pending now fs = remove_keys (expired_keys now fs.pending) fs

-- The pending transactions of one peer.
unfoldable pub peer_pending : String → ℕ → PendingMap → ℕ
peer_pending network peer_id [] = 0
peer_pending network peer_id ((key, p) ∷ rest) =
    (if text_key.same key.0 network && eqb key.1.0 peer_id then 1 else 0)
    + peer_pending network peer_id rest

abbrev pub new_pending : ℕ → ℕ → PendingRpc
new_pending total now = record {
  total_pieces = total;
  pieces = replicate total none;
  first = none;
  received_pieces = 0;
  body_bytes = 0;
  updated_at_ms = now;
}

abbrev pub piece_bytes : Option Bytes → ℕ
piece_bytes none = 0
piece_bytes (some body) = length body

abbrev pub is_none {ℓ} : {A : Type ℓ} → Option A → Bool
is_none none = true
is_none (some a) = false

abbrev pub FragmentAction : Type 0 → Type 0
FragmentAction A = Action FragmentError Fragments A

-- The checks on a transaction, which a first fragment opens.
pub open_transaction : RpcKey → ℕ → ℕ → Option PendingRpc → FragmentAction (Unit {0})
open_transaction key total now (some p) fs =
    if eqb p.total_pieces total
    then (ok tt, fs)
    else (err changed_piece_count, remove_pending key fs)
open_transaction key total now none fs =
    if leb max_pending_transactions_per_peer (peer_pending key.0 key.1.0 fs.pending)
    then (err too_many_transactions, fs)
    else if ltb max_pending_pieces (saturating_add fs.pending_pieces total)
    then (err too_many_pieces, fs)
    else (
      ok tt,
      record fs {
        pending = insert key (new_pending total now) fs.pending;
        pending_pieces = fs.pending_pieces + total;
      },
    )

-- The pending transaction with one more piece.
abbrev pub with_piece : RpcPacket → ℕ → PendingRpc → PendingRpc
with_piece packet now p =
    let old = get_or p.pieces packet.piece_idx none in
    record p {
      pieces = set p.pieces packet.piece_idx (some packet.body);
      first = if eqb packet.piece_idx 0 then some packet else p.first;
      received_pieces = if is_none old then p.received_pieces + 1 else p.received_pieces;
      body_bytes = saturating_add (p.body_bytes - piece_bytes old) (length packet.body);
      updated_at_ms = now;
    }

pub store_piece : RpcKey → RpcPacket → ℕ → Option PendingRpc → FragmentAction PendingRpc
store_piece key packet now none fs = (err state_disappeared, fs)
store_piece key packet now (some p) fs =
    let old = get_or p.pieces packet.piece_idx none in
    let next = saturating_add (fs.pending_bytes - piece_bytes old) (length packet.body) in
    if ltb max_pending_bytes next then (err too_many_bytes, remove_pending key fs) else (
      ok (with_piece packet now p),
      record fs { pending = insert key (with_piece packet now p) fs.pending; pending_bytes = next },
    )

-- The bodies in order, where none is missing.
unfoldable pub assemble : List (Option Bytes) → Option Bytes
assemble [] = some []
assemble (none ∷ pieces) = none
assemble (some body ∷ pieces) = elim (assemble pieces) [
  | none ↦ none
  | some rest ↦ some (body ++ rest)
]

pub reassembled : Option RpcPacket → Option Bytes → FragmentAction MergedPacket
reassembled none body fs = (err first_missing, fs)
reassembled (some first) none fs = (err piece_missing, fs)
reassembled (some first) (some body) fs =
    (ok (complete (record first { body = body; total_pieces = 1; piece_idx = 0 })), fs)

pub finish : RpcKey → ℕ → PendingRpc → FragmentAction MergedPacket
unfolding reassembled
finish key total p fs =
    if eqb p.received_pieces total
    then reassembled p.first (assemble p.pieces) (remove_pending key fs)
    else (ok pending, fs)

unfoldable pub merge_fragment : RpcKey → RpcPacket → ℕ → FragmentAction MergedPacket
unfolding open_transaction store_piece finish
merge_fragment key packet now = do
  (λ fs. open_transaction key packet.total_pieces now (lookup key fs.pending) fs)
  p ← (λ fs. store_piece key packet now (lookup key fs.pending) fs)
  finish key packet.total_pieces p

unfoldable pub merge_packet : String → ℕ → RpcPacket → ℕ → FragmentAction MergedPacket
merge_packet network peer_id packet now fs =
    if eqb packet.total_pieces 0 && eqb packet.piece_idx 0
    then (ok (complete packet), fs)
    else if eqb packet.total_pieces 0
        || ltb max_rpc_pieces packet.total_pieces
        || leb packet.total_pieces packet.piece_idx
    then (err invalid_envelope, fs)
    else if eqb packet.total_pieces 1
    then (ok (complete packet), fs)
    else if eqb packet.piece_idx 0 && is_none packet.descriptor
    then (err first_without_descriptor, fs)
    else merge_fragment (rpc_key network peer_id packet.transaction_id packet.is_request) packet now
        (clean_pending now fs)
