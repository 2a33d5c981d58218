-- ===== src/BlockchainState/Growth.antt =====
-- src/blockchainstate.rs: `add_headers`, and the operations on the block cache, under the invariant.
use native.Mathlib.Nat.{le_refl, le_trans}
use bitcoin_adaptor.Base.{
  ℕ, ◌+◌, ◌%◌, ◌^◌, ◌<◌, ◌∙◌, ◌≤◌, ◌≡◌, ap, inl, inr, Option, none, some, List, [], ◌∷◌, ◌++◌, In,
  All, arith, same, true, false, ok, err, Bool-cases, Result,
}
use bitcoin_adaptor.Bitcoin.{BlockHash, hash_eq, BlockHeader, BitcoinLib}
use bitcoin_adaptor.HeaderCache.{HeaderNode, get, child_of}
use bitcoin_adaptor.HeaderCache.Tree.{get-attach}
use bitcoin_adaptor.BlockchainState.{
  BlockchainState, Tip, node_tip, add_header, add_headers, add_each, after_add, sorted,
  header_added, header_already_exists, AddHeaderError, AddHeaderResult, get_active_chain_tip,
}
use bitcoin_adaptor.BlockchainState.Tips.{
  IsDescending, In-update_tips, In-update_tips_self, sort_tips-In, In-sort_tips, sort_tips-IsUnique,
  sort_tips-IsDescending,
}
use bitcoin_adaptor.BlockchainState.Valid.{
  IsValid, IsTopped, known, invalid, orphan, grown, extended, add_header-Outcome,
  add_header-IsValid,
}

work_le_of_All : (n : ℕ) (t : Tip) (ts : List Tip) → All (λ u. u.work ≤ n) ts → In t ts → t.work ≤ n
work_le_of_All n t [] a i = elim i [ ]
work_le_of_All n t (u ∷ ts) a i = ground (arith, work_le_of_All n t ts a.1)

-- The first of the sorted tips has the most work.
head_work :
    (d t : Tip) (ts : List Tip)
    → IsDescending ts
    → In t ts
    → t.work ≤ (elim ts as (λ _. Tip) [ [] ↦ d | u ∷ _ ↦ u ]).work
head_work d t [] h i = elim i [ ]
head_work d t (u ∷ ts) h i = ground (arith, work_le_of_All u.work t ts h.0)

module _ (btc : BitcoinLib) where
  open btc use {block_hash}

  pub sorted-IsValid : (s : BlockchainState) → IsValid btc s → IsValid btc (sorted s)
  sorted-IsValid s v = record {
    tree = v.tree;
    unique = sort_tips-IsUnique block_hash s.tips v.unique;
    leaf = λ t i. v.leaf t (sort_tips-In t s.tips i);
    tipped = λ h c e k. In-sort_tips (node_tip c) s.tips (v.tipped h c e k);
    blocks = v.blocks;
  }

  -- What `add_header` keeps, `add_headers` keeps up to the order of the tips.
  after_add_rule :
      (P R : BlockchainState → Type 0)
      (rest : List HeaderNode
        → BlockchainState
        → BlockchainState × List HeaderNode × Option AddHeaderError)
      (acc : List HeaderNode) (s : BlockchainState) (r : Result AddHeaderResult AddHeaderError)
      → ((acc' : List HeaderNode) (s' : BlockchainState) → P s' → R (rest acc' s').0)
      → (P s → R s)
      → P s
      → R (after_add rest acc (s, r)).0
  unfolding after_add
  after_add_rule P R rest acc s (ok (header_added c)) k stop p = k (acc ++ c ∷ []) s p
  after_add_rule P R rest acc s (ok (header_already_exists c)) k stop p = k acc s p
  after_add_rule P R rest acc s (err e) k stop p = stop p

  pub add_each_rule :
      (P : BlockchainState → Type 0)
      → ((s : BlockchainState) (h : BlockHeader) → P s → P (add_header btc s h).0)
      → (hs : List BlockHeader) (acc : List HeaderNode) (s : BlockchainState) → P s
      → P (add_each btc hs acc s).0
  unfolding add_each
  add_each_rule P keep [] acc s p = p
  add_each_rule P keep (h ∷ hs) acc s p =
      after_add_rule P P (add_each btc hs) acc (add_header btc s h).0 (add_header btc s h).1
        (add_each_rule P keep hs) (λ q. q) (keep s h p)

  pub add_headers-IsValid :
      (s : BlockchainState) (hs : List BlockHeader)
      → IsValid btc s
      → IsValid btc (add_headers btc s hs).0
  unfolding add_headers
  add_headers-IsValid s hs v =
      sorted-IsValid (add_each btc hs [] s).0
        (add_each_rule (IsValid btc) (add_header-IsValid btc) hs [] s v)

  extended-IsTopped :
      (s : BlockchainState) (parent : HeaderNode) (header : BlockHeader)
      → IsValid btc s
      → get s.header_cache (block_hash header) ≡ none
      → get s.header_cache header.prev_blockhash ≡ some parent
      → parent.work ≤ btc.add_work parent.work (btc.work header)
      → IsTopped btc s
      → IsTopped btc (extended btc s parent header)
  extended-IsTopped s parent header v fresh found rise top h c e =
      elim (Bool-cases (same hash_eq h (block_hash header))) [
        | inl q ↦
            let new_node : node ≡ c = ground (arith, get_new h) in
            (node_tip node, In-update_tips_self block_hash _ _ s.tips, rw (← new_node) (le_refl _))
        | inr q ↦
            let (t, i, le) = top h c (ground (arith, get_new h)) in
            elim (hash_eq (block_hash t.header) header.prev_blockhash) [
              | yes here ↦
                  let (p, e', k, _) = v.leaf t i in
                  let same_node : p ≡ parent = ground arith in
                  (
                    node_tip node,
                    In-update_tips_self block_hash _ _ s.tips,
                    omega (
                      arith,
                      rise,
                      ap (λ (x : HeaderNode). x.work) same_node,
                      ap (λ (x : Tip). x.work) k,
                    ),
                  )
              | no away ↦ (t, In-update_tips block_hash _ _ t s.tips i away, le)
            ]
      ]
    where
      node : HeaderNode
      node = child_of btc parent header

      get_new :
          (j : BlockHash)
          → get (extended btc s parent header).header_cache j
            ≡ elim (same hash_eq j (block_hash header)) [
              | true ↦ some node
              | false ↦ get s.header_cache j
            ]
      get_new = get-attach btc s.header_cache parent header v.tree fresh found

  -- The work of headers together.
  abbrev pub works : List BlockHeader → ℕ
  works [] = 0
  works (h ∷ hs) = btc.work h + works hs

  -- Every cached header has at most so much work.
  abbrev pub IsCapped : ℕ → BlockchainState → Type 0
  IsCapped n s = (h : BlockHash) (c : HeaderNode) → get s.header_cache h ≡ some c → c.work ≤ n

  abbrev All3 : ℕ → BlockchainState → Type 0
  All3 n s = IsValid btc s × IsTopped btc s × IsCapped n s

  All3-mono : (n m : ℕ) (s : BlockchainState) → n ≤ m → All3 n s → All3 m s
  All3-mono n m s le (v, top, cap) = (v, top, λ h c e. omega (arith, le, cap h c e))

  -- The addition of works is that of `Uint256`, which wraps.
  module _ (wraps : (a b : ℕ) → btc.add_work a b ≡ (a + b) % 2 ^ 256) where
    extended-IsCapped :
        (s : BlockchainState) (parent : HeaderNode) (header : BlockHeader) (n : ℕ)
        → IsValid btc s
        → get s.header_cache (block_hash header) ≡ none
        → get s.header_cache header.prev_blockhash ≡ some parent
        → IsCapped n s
        → n + btc.work header < 2 ^ 256
        → IsCapped (n + btc.work header) (extended btc s parent header)
          × (parent.work ≤ btc.add_work parent.work (btc.work header))
    extended-IsCapped s parent header n v fresh found cap fits =
        let sum : btc.add_work parent.work (btc.work header) ≡ parent.work + btc.work header =
          wraps parent.work (btc.work header)
          ∙ below (parent.work + btc.work header) (omega (arith, fits, cap _ parent found)) in
        (
          λ h c e. elim (Bool-cases (same hash_eq h (block_hash header))) [
            | inl q ↦
                let new_node : child_of btc parent header ≡ c =
                  ground
                    (arith, get-attach btc s.header_cache parent header v.tree fresh found h) in
                omega (arith, ap (λ (x : HeaderNode). x.work) new_node, sum, cap _ parent found)
            | inr q ↦
                let old : get s.header_cache h ≡ some c =
                  ground
                    (arith, get-attach btc s.header_cache parent header v.tree fresh found h) in
                omega (arith, cap h c old)
          ],
          omega (arith, sum),
        )
      where
        below : (k : ℕ) → k < 2 ^ 256 → k % 2 ^ 256 ≡ k
        below k lt = omega (arith, lt)

    add_header-All3 :
        (s : BlockchainState) (header : BlockHeader) (n : ℕ)
        → n + btc.work header < 2 ^ 256
        → All3 n s
        → All3 (n + btc.work header) (add_header btc s header).0
    add_header-All3 s header n fits (v, top, cap) =
        let stays = All3-mono n (n + btc.work header) s (omega arith) (v, top, cap) in
        elim (add_header-Outcome btc s header v) [
          | known c e r ↦ rw r stays
          | invalid e f g r ↦ rw r stays
          | orphan f g l r ↦ rw r stays
          | grown parent f g l r ↦
              let (capped, rise) = extended-IsCapped s parent header n v f l cap fits in
              (
                add_header-IsValid btc s header v,
                rw r (extended-IsTopped s parent header v f l rise top),
                rw r capped,
              )
        ]

    add_each-All3 :
        (hs : List BlockHeader) (acc : List HeaderNode) (s : BlockchainState) (n : ℕ)
        → n + works hs < 2 ^ 256
        → All3 n s
        → All3 (n + works hs) (add_each btc hs acc s).0
    unfolding add_each
    add_each-All3 [] acc s n fits all = All3-mono n (n + 0) s (omega arith) all
    add_each-All3 (h ∷ hs) acc s n fits all =
        let k = n + btc.work h in
        after_add_rule (All3 k) (All3 (n + works (h ∷ hs))) (add_each btc hs) acc
          (add_header btc s h).0 (add_header btc s h).1
          (λ acc' t a.
            All3-mono (k + works hs) (n + works (h ∷ hs)) (add_each btc hs acc' t).0 (omega arith)
              (add_each-All3 hs acc' t k (omega (arith, fits)) a))
          (All3-mono k (n + works (h ∷ hs)) (add_header btc s h).0 (omega arith))
          (add_header-All3 s h n (omega (arith, fits)) all)

    add_headers-IsTopped :
        (s : BlockchainState) (hs : List BlockHeader) (n : ℕ)
        → IsCapped n s
        → n + works hs < 2 ^ 256
        → IsValid btc s
        → IsTopped btc s
        → IsTopped btc (add_headers btc s hs).0
    unfolding add_headers
    add_headers-IsTopped s hs n cap fits v top h c e =
        let s' = (add_each btc hs [] s).0 in
        let (t, i, le) = (add_each-All3 hs [] s n fits (v, top, cap)).1 h c e in
        (t, In-sort_tips t s'.tips i, le)

  active_tip_most :
      (s : BlockchainState)
      → IsDescending s.tips
      → IsTopped btc s
      → (h : BlockHash) (c : HeaderNode) → get s.header_cache h ≡ some c
      → c.work ≤ (get_active_chain_tip s).work
  active_tip_most s d top h c e =
      let (t, i, le) = top h c e in
      le_trans le (head_work (node_tip s.header_cache.genesis) t s.tips d i)

  -- From a valid state in which the tips have the most work, where the addition of works is that of a
  -- `Uint256`, which wraps, and where the work of each cached header with that of all given ones is
  -- below 2 ^ 256: `add_headers` gives a valid state whose tips descend in work, and no cached header
  -- has more work than the active tip.
  pub add_headers_active_tip :
      ((a b : ℕ) → btc.add_work a b ≡ (a + b) % 2 ^ 256)
      → (s : BlockchainState) (hs : List BlockHeader) (n : ℕ) → IsCapped n s
      → n + works hs < 2 ^ 256
      → IsValid btc s
      → IsTopped btc s
      → let s' = (add_headers btc s hs).0 in
        IsValid btc s'
        × IsDescending s'.tips
        × ((h : BlockHash) (c : HeaderNode)
            → get s'.header_cache h ≡ some c
            → c.work ≤ (get_active_chain_tip s').work)
  unfolding add_headers
  add_headers_active_tip wraps s hs n cap fits v top =
      let s' = (add_headers btc s hs).0 in
      let descending = sort_tips-IsDescending (add_each btc hs [] s).0.tips in
      (
        add_headers-IsValid s hs v,
        descending,
        active_tip_most s' descending (add_headers-IsTopped wraps s hs n cap fits v top),
      )
