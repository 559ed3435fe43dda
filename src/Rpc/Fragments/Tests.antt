-- ===== src/Rpc/Fragments/Tests.antt =====
-- A request in two fragments, the second of them first.
use intranet_penetration_clo.Common.{ℕ, ◌≡◌, refl, true, none, some, [], ◌∷◌, arith}
use intranet_penetration_clo.Common.Result.{ok}
use intranet_penetration_clo.Common.Dict.{lookup, insert, delete}
use intranet_penetration_clo.Packet.{Bytes}
use intranet_penetration_clo.Rpc.{RpcPacket, RpcKey}
use intranet_penetration_clo.Rpc.Fragments.{
  Fragments, complete, rpc_key, merge_fragment, merge_packet, peer_pending, clean_pending,
  expired_keys, remove_keys, remove_pending, assemble,
}
use intranet_penetration_clo.Rpc.Fragments.Accounts.{IsAccounted}
use intranet_penetration_clo.Rpc.Fragments.Merge.{
  Merged, IsExplained, next_pieces, merge_fragment-Merged, merge_packet-IsAccounted,
}

abbrev piece : ℕ → Bytes → RpcPacket
piece idx body = record {
  from_peer = 7;
  to_peer = 10_000_001;
  transaction_id = 5;
  descriptor =
      some
        (record { domain_name = "home"; proto_name = "p"; service_name = "s"; method_index = 1 });
  body = body;
  is_request = true;
  total_pieces = 2;
  piece_idx = idx;
  trace_id = 0;
  compression_info = none;
}

abbrev key : RpcKey
key = rpc_key "home" 7 5 true

abbrev nothing_pending : Fragments
nothing_pending = record { pending = []; pending_bytes = 0; pending_pieces = 0 }

nothing_pending-IsAccounted : IsAccounted nothing_pending
unfolding peer_pending
nothing_pending-IsAccounted = record {
  distinct = tt;
  each = tt;
  bytes = refl;
  pieces = refl;
  byte_limit = omega arith;
  piece_limit = omega arith;
  fair = λ network peer_id. omega arith;
}

abbrev after_second : Fragments
after_second = (merge_fragment key (piece 1 (3 ∷ [])) 100 nothing_pending).1

after_second-IsAccounted : IsAccounted after_second
after_second-IsAccounted =
    (merge_fragment-Merged key (piece 1 (3 ∷ [])) 100 nothing_pending nothing_pending-IsAccounted
      (omega arith)).1

out_of_order :
    (merge_packet "home" 7 (piece 0 (1 ∷ 2 ∷ [])) 200 after_second).0
    ≡ ok (complete (record (piece 0 (1 ∷ 2 ∷ 3 ∷ [])) { total_pieces = 1 }))
unfolding merge_packet merge_fragment peer_pending clean_pending expired_keys remove_keys
    remove_pending assemble lookup insert delete
out_of_order = refl

merge_fragment-Merged_example :
    Merged key 2
      (next_pieces key (piece 0 (1 ∷ 2 ∷ [])) after_second)
      (merge_fragment key (piece 0 (1 ∷ 2 ∷ [])) 200 after_second)
    × IsAccounted (merge_fragment key (piece 0 (1 ∷ 2 ∷ [])) 200 after_second).1
merge_fragment-Merged_example =
    merge_fragment-Merged key (piece 0 (1 ∷ 2 ∷ [])) 200 after_second after_second-IsAccounted
      (omega arith)

merge_packet-IsAccounted_example :
    IsAccounted (merge_packet "home" 7 (piece 0 (1 ∷ 2 ∷ [])) 200 after_second).1
    × IsExplained (merge_packet "home" 7 (piece 0 (1 ∷ 2 ∷ [])) 200 after_second).0
merge_packet-IsAccounted_example =
    merge_packet-IsAccounted "home" 7 (piece 0 (1 ∷ 2 ∷ [])) 200 after_second
      after_second-IsAccounted
