-- ===== src/Rpc/Fragments/Merge.antt =====
-- What one packet does to its transaction.
use intranet_penetration_clo.Common.{
  ℕ, ◌+◌, ◌<◌, ◌≡◌, ◌≢◌, refl, Bool, true, false, ◌&&◌, ◌||◌, Option, none, some, List, [], ◌∷◌,
  length, get_or, set, replicate, eqb, ltb, leb, arith, Bool-cases, inl, inr, String, ◌∙◌,
}
use intranet_penetration_clo.Common.Result.{Result, ok, err}
use intranet_penetration_clo.Common.Action.{chain}
use intranet_penetration_clo.Common.Dict.{lookup, insert, lookup-insert_self, lookup-delete_self}
use intranet_penetration_clo.Common.Dict.Sums.{Every-lookup}
use intranet_penetration_clo.Common.Key.{pair_key, text_key, nat_key, bool_key}
use intranet_penetration_clo.Packet.{Bytes}
use intranet_penetration_clo.Rpc.{RpcPacket, RpcKey}
use intranet_penetration_clo.Rpc.Fragments.{
  Fragments, PendingRpc, FragmentError, invalid_envelope, first_without_descriptor,
  changed_piece_count, too_many_transactions, too_many_pieces, too_many_bytes, state_disappeared,
  first_missing, piece_missing, MergedPacket, pending, complete, new_pending, with_piece, is_none,
  remove_pending, clean_pending, open_transaction, store_piece, finish, drop_pending, rpc_key,
  max_rpc_pieces, merge_fragment, merge_packet, peer_pending, max_pending_bytes, max_pending_pieces,
  max_pending_transactions_per_peer, saturating_add, reassembled, assemble,
}
use intranet_penetration_clo.Rpc.Fragments.Pieces.{
  IsPending, assemble_full, count_some, count_some_le,
}
use intranet_penetration_clo.Rpc.Fragments.Accounts.{
  IsAccounted, remove_pending-IsAccounted, clean_pending-IsAccounted, stored-IsAccounted,
  insert_new-IsAccounted, next_bytes,
}

-- The errors that would mean a broken state.
abbrev pub is_internal : FragmentError → Bool
is_internal state_disappeared = true
is_internal first_missing = true
is_internal piece_missing = true
is_internal invalid_envelope = false
is_internal first_without_descriptor = false
is_internal changed_piece_count = false
is_internal too_many_transactions = false
is_internal too_many_pieces = false
is_internal too_many_bytes = false

abbrev pieces_or_new : ℕ → Option PendingRpc → List (Option Bytes)
pieces_or_new n none = replicate n none
pieces_or_new n (some p) = p.pieces

-- The pieces of a transaction once this packet is in.
abbrev pub next_pieces : RpcKey → RpcPacket → Fragments → List (Option Bytes)
next_pieces key packet fs =
    set (pieces_or_new packet.total_pieces (lookup key fs.pending)) packet.piece_idx
      (some packet.body)

-- The outcome of a packet with the pieces `next` of its transaction.
abbrev pub Merged :
    RpcKey → ℕ → List (Option Bytes) → Result FragmentError MergedPacket × Fragments → Type 0
Merged key n next (ok pending, fs) =
    (p : PendingRpc) × (lookup key fs.pending ≡ some p)
    × (p.pieces ≡ next)
    × (p.total_pieces ≡ n)
    × (count_some next ≢ n)
Merged key n next (ok (complete m), fs) =
    (assemble next ≡ some m.body)
    × (m.total_pieces ≡ 1)
    × (m.piece_idx ≡ 0)
    × (lookup key fs.pending ≡ none)
Merged key n next (err e, fs) = is_internal e ≡ false

lookup-drop_pending :
    (key : RpcKey) (o : Option PendingRpc) (fs : Fragments)
    → lookup key fs.pending ≡ o
    → lookup key (drop_pending key o fs).pending ≡ none
unfolding drop_pending
lookup-drop_pending key none fs e = e
lookup-drop_pending key (some p) fs e = lookup-delete_self key fs.pending

full_first :
    (pieces : List (Option Bytes))
    → count_some pieces ≡ length pieces
    → 0 < length pieces
    → is_none (get_or pieces 0 none) ≡ false
full_first [] h lt = absurd (omega arith)
full_first (some b ∷ pieces) h lt = refl
full_first (none ∷ pieces) h lt = absurd (omega (arith, count_some_le pieces))

reassembled-Merged :
    (key : RpcKey) (n : ℕ) (pieces : List (Option Bytes)) (first : Option RpcPacket)
    (fs : Fragments)
    → is_none first ≡ false
    → count_some pieces ≡ length pieces
    → lookup key fs.pending ≡ none
    → Merged key n pieces (reassembled first (assemble pieces) fs)
unfolding reassembled
reassembled-Merged key n pieces none fs h full gone = ground arith
reassembled-Merged key n pieces (some f) fs h full gone =
    let (body, there, _) = assemble_full pieces full in rw there (there, refl, refl, gone)

reassembled-IsAccounted :
    (first : Option RpcPacket) (body : Option Bytes) (fs : Fragments)
    → IsAccounted fs
    → IsAccounted (reassembled first body fs).1
unfolding reassembled
reassembled-IsAccounted none body fs a = a
reassembled-IsAccounted (some f) none fs a = a
reassembled-IsAccounted (some f) (some body) fs a = a

finish-Merged :
    (key : RpcKey) (n : ℕ) (p : PendingRpc) (fs : Fragments)
    → IsAccounted fs
    → lookup key fs.pending ≡ some p
    → p.total_pieces ≡ n
    → 0 < n
    → Merged key n p.pieces (finish key n p fs) × IsAccounted (finish key n p fs).1
unfolding finish remove_pending
finish-Merged key n p fs a e size some_piece =
    let ip = Every-lookup IsPending key p fs.pending a.each e in
    elim (Bool-cases (eqb p.received_pieces n)) [
      | inl full ↦ rw full (
        reassembled-Merged key n p.pieces p.first (remove_pending key fs)
            (ip.first_known
              ∙ full_first p.pieces (ground (arith, ip.count, ip.size)) (omega (arith, ip.size)))
            (ground (arith, ip.count, ip.size))
            (lookup-drop_pending key (lookup key fs.pending) fs refl),
        reassembled-IsAccounted p.first (assemble p.pieces) (remove_pending key fs)
            (remove_pending-IsAccounted key fs a),
      )
      | inr part ↦ rw part ((p, e, refl, size, ground (arith, ip.count)), a)
    ]

store-Merged :
    (key : RpcKey) (packet : RpcPacket) (now : ℕ) (p : PendingRpc) (fs : Fragments)
    → IsAccounted fs
    → lookup key fs.pending ≡ some p
    → p.total_pieces ≡ packet.total_pieces
    → packet.piece_idx < packet.total_pieces
    → let r = chain (store_piece key packet now (some p) fs) (finish key packet.total_pieces) in
      Merged key packet.total_pieces (set p.pieces packet.piece_idx (some packet.body)) r
      × IsAccounted r.1
unfolding store_piece
store-Merged key packet now p fs a e size lt =
    elim (Bool-cases (ltb max_pending_bytes (next_bytes packet p fs))) [
      | inl full ↦ rw full (refl, remove_pending-IsAccounted key fs a)
      | inr room ↦ rw room (
          finish-Merged key packet.total_pieces (with_piece packet now p)
            (record fs {
              pending = insert key (with_piece packet now p) fs.pending;
              pending_bytes = next_bytes packet p fs;
            })
            (stored-IsAccounted key packet now p fs e (omega arith) (ground arith) a)
            (lookup-insert_self key (with_piece packet now p) fs.pending) size (omega arith))
    ]

fragment-Merged :
    (key : RpcKey) (packet : RpcPacket) (now : ℕ) (o : Option PendingRpc) (fs : Fragments)
    → IsAccounted fs
    → lookup key fs.pending ≡ o
    → packet.piece_idx < packet.total_pieces
    → let r = chain (open_transaction key packet.total_pieces now o fs) (λ _ fs.
      chain
        (store_piece key packet now (lookup key fs.pending) fs)
        (finish key packet.total_pieces)) in
      Merged key packet.total_pieces
        (set (pieces_or_new packet.total_pieces o) packet.piece_idx (some packet.body))
        r
      × IsAccounted r.1
unfolding open_transaction
fragment-Merged key packet now (some p) fs a e lt =
    elim (Bool-cases (eqb p.total_pieces packet.total_pieces)) [
      | inr other ↦ rw other (refl, remove_pending-IsAccounted key fs a)
      | inl same ↦ rw (same, e) (store-Merged key packet now p fs a e (ground arith) lt)
    ]
fragment-Merged key packet now none fs a e lt =
    elim (Bool-cases
      (leb max_pending_transactions_per_peer (peer_pending key.0 key.1.0 fs.pending))) [
        | inl many ↦ rw many (refl, a)
        | inr few ↦
            elim (Bool-cases
              (ltb max_pending_pieces (saturating_add fs.pending_pieces packet.total_pieces))) [
                | inl full ↦ rw (few, full) (refl, a)
                | inr room ↦
                    let fresh = new_pending packet.total_pieces now in
                    rw (few, room, lookup-insert_self key fresh fs.pending)
                      (store-Merged key packet now fresh
                        (record fs {
                          pending = insert key fresh fs.pending;
                          pending_pieces = fs.pending_pieces + packet.total_pieces;
                        })
                        (insert_new-IsAccounted key packet.total_pieces now fs e (ground arith)
                          (ground arith) a)
                        (lookup-insert_self key fresh fs.pending) refl lt)
              ]
      ]

-- A fragment of a transaction, while the accounts are right, either is refused for a reason of its
-- own, or joins its transaction, which is put together and forgotten as soon as no piece is missing,
-- with the bodies of its pieces in order, and is kept with these pieces until then. The accounts
-- stay right.
pub merge_fragment-Merged :
    (key : RpcKey) (packet : RpcPacket) (now : ℕ) (fs : Fragments)
    → IsAccounted fs
    → packet.piece_idx < packet.total_pieces
    → Merged key packet.total_pieces (next_pieces key packet fs) (merge_fragment key packet now fs)
      × IsAccounted (merge_fragment key packet now fs).1
unfolding merge_fragment
merge_fragment-Merged key packet now fs a lt =
    fragment-Merged key packet now (lookup key fs.pending) fs a refl lt

-- A result that does not speak of a broken state.
abbrev pub IsExplained : Result FragmentError MergedPacket → Type 0
IsExplained (ok merged) = Unit
IsExplained (err e) = is_internal e ≡ false

Merged-IsExplained :
    (key : RpcKey) (n : ℕ) (next : List (Option Bytes))
    (r : Result FragmentError MergedPacket × Fragments)
    → Merged key n next r
    → IsExplained r.0
Merged-IsExplained key n next (ok merged, fs) h = tt
Merged-IsExplained key n next (err e, fs) h = h

-- Every packet, fragment or not, leaves the accounts right: distinct transactions, each with as many
-- bytes and pieces as its counters say, at most 32 MiB and 32768 pieces in all, and at most 64
-- transactions of any one peer. No packet runs into a state that should not exist.
pub merge_packet-IsAccounted :
    (network : String) (peer_id : ℕ) (packet : RpcPacket) (now : ℕ) (fs : Fragments)
    → IsAccounted fs
    → IsAccounted (merge_packet network peer_id packet now fs).1
      × IsExplained (merge_packet network peer_id packet now fs).0
unfolding merge_packet
merge_packet-IsAccounted network peer_id packet now fs a =
    elim (Bool-cases (eqb packet.total_pieces 0 && eqb packet.piece_idx 0)) [
      | inl whole ↦ rw whole (a, tt)
      | inr parts ↦
          elim (Bool-cases (
            eqb packet.total_pieces 0
            || ltb max_rpc_pieces packet.total_pieces
            || leb packet.total_pieces packet.piece_idx)) [
              | inl bad ↦ rw (parts, bad) (a, refl)
              | inr good ↦ elim (Bool-cases (eqb packet.total_pieces 1)) [
                | inl single ↦ rw (parts, good, single) (a, tt)
                | inr several ↦
                    elim (Bool-cases (eqb packet.piece_idx 0 && is_none packet.descriptor)) [
                      | inl blind ↦ rw (parts, good, several, blind) (a, refl)
                      | inr sighted ↦
                          let key =
                            rpc_key network peer_id packet.transaction_id packet.is_request in
                          let (merged, kept) =
                            merge_fragment-Merged key packet now (clean_pending now fs)
                              (clean_pending-IsAccounted now fs a) (ground arith) in
                          rw (parts, good, several, sighted)
                            (
                              kept,
                              Merged-IsExplained key packet.total_pieces
                                  (next_pieces key packet (clean_pending now fs))
                                  (merge_fragment key packet now (clean_pending now fs)) merged,
                            )
                    ]
              ]
            ]
    ]
