-- ===== src/Routes/Conn/Star.antt =====
-- The bitmap of connections, cell by cell.
use intranet_penetration_clo.Common.{
  ℕ, zero, suc, ◌+◌, ◌-◌, ◌*◌, ◌/◌, ◌%◌, ◌^◌, ◌≤◌, ◌<◌, ◌≡◌, bit_or, refl, Bool, true, false, ◌&&◌,
  ◌||◌, some, List, [], ◌∷◌, length, get_or, ltb→lt, replicate, eqb, if◌then◌else◌, arith, All,
  All-get_or, All-set, length-set, get_or-set_self, get_or-set_ne, Bool-cases, Option-cases, inl,
  inr, sym, ◌∙◌, ap, not, length-replicate, ltb,
}
use intranet_penetration_clo.Packet.{Bytes}
use intranet_penetration_clo.Window.{set_bit, test_bit}
use intranet_penetration_clo.Window.Tables.{byte_bit-set, set_byte_range, zero_bit}
use intranet_penetration_clo.Routes.Conn.{set_cell, set_diagonal, set_star, index_of, build_bitmap}

rows_apart : (n i r : ℕ) → i < r → i * n + n ≤ r * n
rows_apart n i r h =
    let k : ℕ = r - i - 1 in let e : r ≡ i + 1 + k = omega arith in rw e (omega arith)

same_column : (n i j r c : ℕ) → i ≡ r → i * n + j ≡ r * n + c → j ≡ c
same_column n i j r c same e =
    let e' : i * n + j ≡ i * n + c = e ∙ ap (λ k. k * n + c) (sym same) in omega (arith, e')

cell_inj : (n i j r c : ℕ) → j < n → c < n → i * n + j ≡ r * n + c → (i ≡ r) × (j ≡ c)
cell_inj n i j r c hj hc e = elim (Bool-cases (ltb i r)) [
  | inl less ↦ absurd (omega (arith, rows_apart n i r (ltb→lt i r less)))
  | inr not_less ↦ elim (Bool-cases (ltb r i)) [
    | inl more ↦ absurd (omega (arith, rows_apart n r i (ltb→lt r i more)))
    | inr not_more ↦ let same : i ≡ r = ground arith in (same, same_column n i j r c same e)
  ]
]

-- A bitmap of bytes with room for the cells.
pub record IsGrid (n : ℕ) (bitmap : Bytes) : Type 0 where
  pub bytes : All (λ b. b < 256) bitmap
  pub room : n * n ≤ 8 * length bitmap

cell_in_grid : (n i j : ℕ) → i < n → j < n → i * n + j < n * n
cell_in_grid n i j hi hj = omega (arith, rows_apart n i n hi)

set_bit-bits :
    (bm : Bytes) (x y : ℕ)
    → All (λ b. b < 256) bm
    → x / 8 < length bm
    → test_bit (set_bit bm x) y ≡ (if eqb x y then true else test_bit bm y)
unfolding set_bit test_bit
set_bit-bits bm x y v h = ground (
  arith,
  get_or-set_self bm (x / 8) (bit_or (get_or bm (x / 8) 0) (2 ^ (x % 8))) 0,
  get_or-set_ne bm (x / 8) (y / 8) (bit_or (get_or bm (x / 8) 0) (2 ^ (x % 8))) 0,
  byte_bit-set (get_or bm (x / 8) 0) (x % 8) (y % 8)
      (All-get_or (λ b. b < 256) bm (x / 8) 0 v (omega arith)),
)

set_cell-IsGrid : (n r c : ℕ) (bm : Bytes) → IsGrid n bm → IsGrid n (set_cell n r c bm)
unfolding set_cell set_bit
set_cell-IsGrid n r c bm g =
    let x : ℕ = r * n + c in
    let byte = bit_or (get_or bm (x / 8) 0) (2 ^ (x % 8)) in
    record {
      bytes =
          All-set (λ b. b < 256) bm (x / 8) byte g.bytes
            (set_byte_range (get_or bm (x / 8) 0) (x % 8)
              (All-get_or (λ b. b < 256) bm (x / 8) 0 g.bytes (omega arith)) (omega arith));
      room = omega (arith, g.room, length-set bm (x / 8) byte);
    }

-- A cell of the bitmap.
abbrev pub test_cell : ℕ → ℕ → ℕ → Bytes → Bool
test_cell n i j bm = test_bit bm (i * n + j)

test_cell-set_cell :
    (n r c i j : ℕ) (bm : Bytes)
    → IsGrid n bm
    → r < n
    → c < n
    → j < n
    → test_cell n i j (set_cell n r c bm) ≡ ((eqb i r && eqb j c) || test_cell n i j bm)
unfolding set_cell
test_cell-set_cell n r c i j bm g hr hc hj =
    let below : r * n + c < n * n = cell_in_grid n r c hr hc in
    rw (set_bit-bits bm (r * n + c) (i * n + j) g.bytes (omega (arith, below, g.room)))
      (elim (Bool-cases (eqb i r && eqb j c)) [
        | inl same ↦ ground arith
        | inr other ↦ elim (Bool-cases (eqb (r * n + c) (i * n + j))) [
          | inl hit ↦ absurd (ground (arith, cell_inj n i j r c hj hc))
          | inr miss ↦ rw (other, miss) refl
        ]
      ])

set_diagonal-cells :
    (n k i j : ℕ) (bm : Bytes)
    → IsGrid n bm
    → k ≤ n
    → j < n
    → IsGrid n (set_diagonal n k bm)
      × (test_cell n i j (set_diagonal n k bm) ≡ ((ltb i k && eqb i j) || test_cell n i j bm))
unfolding set_diagonal
set_diagonal-cells n zero i j bm g hk hj = (g, ground arith)
set_diagonal-cells n (suc k) i j bm g hk hj =
    let (g', before) = set_diagonal-cells n k i j bm g (omega arith) hj in
    (
      set_cell-IsGrid n k k (set_diagonal n k bm) g',
      ground (
        arith,
        before,
        test_cell-set_cell n k k i j (set_diagonal n k bm) g' (omega arith) (omega arith) hj,
      ),
    )

-- The links of the first `k` peers with the centre `c`.
abbrev linked : ℕ → ℕ → ℕ → ℕ → Bool
linked c k i j = (eqb i c && ltb j k && not (eqb j c)) || (eqb j c && ltb i k && not (eqb i c))

linked_centre : (c k i j : ℕ) → eqb k c ≡ true → linked c k i j ≡ linked c (suc k) i j
linked_centre c k i j centre = ground arith

linked_step :
    (c k i j : ℕ) (before : Bool)
    → eqb k c ≡ false
    → ((eqb i k && eqb j c) || ((eqb i c && eqb j k) || (linked c k i j || before)))
      ≡ (linked c (suc k) i j || before)
linked_step c k i j true other = ground arith
linked_step c k i j false other = elim (Bool-cases (eqb i c)) [
  | inl row ↦ ground arith
  | inr no_row ↦ ground arith
]

-- The two links of one peer.
link_cells :
    (n c k i j : ℕ) (bm : Bytes)
    → IsGrid n bm
    → c < n
    → k < n
    → j < n
    → IsGrid n (set_cell n k c (set_cell n c k bm))
      × (test_cell n i j (set_cell n k c (set_cell n c k bm))
          ≡ ((eqb i k && eqb j c) || ((eqb i c && eqb j k) || test_cell n i j bm)))
link_cells n c k i j bm g hc hk hj =
    let g' = set_cell-IsGrid n c k bm g in
    (
      set_cell-IsGrid n k c (set_cell n c k bm) g',
      test_cell-set_cell n k c i j (set_cell n c k bm) g' hk hc hj
          ∙ ap (λ b. (eqb i k && eqb j c) || b) (test_cell-set_cell n c k i j bm g hc hk hj),
    )

set_star-cells :
    (n c k i j : ℕ) (bm : Bytes)
    → IsGrid n bm
    → c < n
    → k ≤ n
    → j < n
    → IsGrid n (set_star n c k bm)
      × (test_cell n i j (set_star n c k bm) ≡ (linked c k i j || test_cell n i j bm))
unfolding set_star
set_star-cells n c zero i j bm g hc hk hj = (g, ground arith)
set_star-cells n c (suc k) i j bm g hc hk hj =
    let (g', before) = set_star-cells n c k i j bm g hc (omega arith) hj in
    elim (Bool-cases (eqb k c)) [
      | inl centre ↦
          rw centre (g', before ∙ ap (λ b. b || test_cell n i j bm) (linked_centre c k i j centre))
      | inr other ↦
          let (g'', after) = link_cells n c k i j (set_star n c k bm) g' hc (omega arith) hj in
          rw other (
            g'',
            after
                ∙ ap (λ b. (eqb i k && eqb j c) || ((eqb i c && eqb j k) || b)) before
                ∙ linked_step c k i j (test_cell n i j bm) other,
          )
    ]

zero_bytes : (k : ℕ) → All (λ b. b < 256) (replicate k 0)
zero_bytes zero = tt
zero_bytes (suc k) = (omega arith, zero_bytes k)

empty-IsGrid : (n : ℕ) → IsGrid n (replicate ((n * n + 7) / 8) 0)
empty-IsGrid n = record {
  bytes = zero_bytes ((n * n + 7) / 8);
  room = omega (arith, length-replicate {A = ℕ} ((n * n + 7) / 8) 0);
}

get_or-zeros : (k i : ℕ) → get_or {A = ℕ} (replicate k 0) i 0 ≡ 0
get_or-zeros zero i = refl
get_or-zeros (suc k) zero = refl
get_or-zeros (suc k) (suc i) = get_or-zeros k i

empty_cell : (k x : ℕ) → test_bit (replicate k 0) x ≡ false
unfolding test_bit
empty_cell k x = rw (get_or-zeros k (x / 8)) (zero_bit (x % 8) (omega arith))

index_of_lt : (x c : ℕ) (xs : List ℕ) → index_of x xs ≡ some c → c < length xs
unfolding index_of
index_of_lt x c [] e = ground arith
index_of_lt x c (y ∷ ys) e = elim (Option-cases (index_of x ys)) [
  | inl missing ↦ ground arith
  | inr (k, found) ↦ ground (arith, index_of_lt x k ys found)
]

-- In the bitmap for a list of peers in which the relay is at place `c`, the peers at places `i` and
-- `j` are connected exactly if they are the same peer or one of them is the relay.
pub build_bitmap-Star :
    (my_peer_id c i j : ℕ) (relevant : List ℕ)
    → index_of my_peer_id relevant ≡ some c
    → i < length relevant
    → j < length relevant
    → test_cell (length relevant) i j (build_bitmap my_peer_id relevant)
      ≡ (eqb i j || eqb i c || eqb j c)
unfolding build_bitmap
build_bitmap-Star my_peer_id c i j relevant e hi hj =
    let n = length relevant in
    let none_set : Bytes = replicate ((n * n + 7) / 8) 0 in
    let (g, diagonal) = set_diagonal-cells n n i j none_set (empty-IsGrid n) (omega arith) hj in
    let (_, star) =
      set_star-cells n c n i j (set_diagonal n n none_set) g (index_of_lt my_peer_id c relevant e)
        (omega arith) hj in
    rw e (
      ground (
        arith,
        star,
        diagonal,
        empty_cell ((n * n + 7) / 8) (i * n + j),
        index_of_lt my_peer_id c relevant e,
      ))
