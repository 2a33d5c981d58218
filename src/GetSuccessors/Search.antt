-- ===== src/GetSuccessors/Search.antt =====
-- src/get_successors_handler.rs: the breadth-first searches end. A node enters the queue once, so
-- the number of cached headers is fuel enough.
use bitcoin_adaptor.Base.{
  ℕ, zero, suc, ◌+◌, ◌≤◌, ◌<◌, ◌≡◌, ◌≢◌, refl, sym, ap, ◌∙◌, ◌⊎◌, inl, inr, true, false, some, List,
  [], ◌∷◌, ◌++◌, In, In-append, All-In, arith, length, length-append, Bool-cases,
}
use bitcoin_adaptor.Base.Map
use bitcoin_adaptor.Base.Set
use bitcoin_adaptor.Bitcoin.{BlockHash, hash_eq, BitcoinLib}
use bitcoin_adaptor.HeaderCache.{HeaderCache, HeaderNode, get, children_at, children}
use bitcoin_adaptor.HeaderCache.Tree.{IsTree, IsDistinct}
use bitcoin_adaptor.GetSuccessors.Listing.{
  hash, listing, listing_less, contains-listing, listed_kept, listed_new, append-IsDistinct,
  unlisted, unlisted-keys, contains_key-keys,
}

module _ (btc : BitcoinLib) (cache : HeaderCache) where
  -- The loop ends within the fuel, whether it goes on below a node or leaves it out.
  abbrev pub Ends : ℕ → List HeaderNode → Type 0
  Ends n [] = Unit
  Ends zero (c ∷ queue) = ⊥
  Ends (suc n) (c ∷ queue) = Ends n queue × Ends n (queue ++ children btc cache c)

  module _ (tree : IsTree btc cache) (anchor : BlockHash) where
    abbrev rank : BlockHash → ℕ
    rank = tree.ranked.0

    abbrev Below : List BlockHash → BlockHash → Type 0
    Below listed h = (h ≡ anchor) ⊎ (Set.contains hash_eq h listed ≡ true)

    -- `expanded` are the hashes whose children were pushed, `listed` those of the pushed nodes.
    record IsSearch (expanded listed : List BlockHash) (queue : List HeaderNode) : Type 0 where
      queued : (c : HeaderNode) → In c queue → Set.contains hash_eq (hash btc c) listed ≡ true
      origin :
          (h : BlockHash)
          → Set.contains hash_eq h listed ≡ true
          → (c : HeaderNode) × (get cache h ≡ some c)
            × (Set.contains hash_eq c.header.prev_blockhash expanded ≡ true)
      above : (h : BlockHash) → Set.contains hash_eq h listed ≡ true → rank anchor < rank h
      below : (h : BlockHash) → Set.contains hash_eq h expanded ≡ true → Below listed h
      waiting : (c : HeaderNode) → In c queue → Set.contains hash_eq (hash btc c) expanded ≡ false
      differ : IsDistinct btc queue

    module _ (expanded listed : List BlockHash) (queue : List HeaderNode)
        (inv : IsSearch expanded listed queue) (h : BlockHash) (place : Below listed h)
        (unexpanded : Set.contains hash_eq h expanded ≡ false)
        (gone : (c : HeaderNode) → In c queue → hash btc c ≢ h) where
      abbrev cs : List HeaderNode
      cs = children_at cache h

      rank_le : rank anchor ≤ rank h
      rank_le = elim place [ inl e ↦ rw e (omega arith) | inr l ↦ omega (arith, inv.above h l) ]

      new : (c : HeaderNode) → In c cs → Set.contains hash_eq (hash btc c) listed ≡ false
      new c i = elim (Bool-cases (Set.contains hash_eq (hash btc c) listed)) [
        | inr f ↦ f
        | inl l ↦
            let (e, p, _, _) = tree.sound h c i in
            let (d, g, x) = inv.origin (hash btc c) l in
            let q : d ≡ c = ground arith in
            let x' : Set.contains hash_eq c.header.prev_blockhash expanded ≡ true = rw (← q) x in
            absurd (ground arith)
      ]

      rises : (c : HeaderNode) → In c cs → rank h < rank (hash btc c)
      rises c i = tree.ranked.1 h c i

      not_expanded :
          (c : HeaderNode) → In c cs → Set.contains hash_eq (hash btc c) (h ∷ expanded) ≡ false
      not_expanded c i = elim (Bool-cases (Set.contains hash_eq (hash btc c) (h ∷ expanded))) [
        | inr f ↦ f
        | inl l ↦ elim (hash_eq (hash btc c) h) [
          | yes e ↦ absurd (omega (arith, rises c i, ap rank e))
          | no n ↦ elim (inv.below (hash btc c) (ground arith)) [
            | inl e ↦ absurd (omega (arith, rises c i, rank_le, ap rank e))
            | inr b ↦ absurd (ground (arith, new c i))
          ]
        ]
      ]

      still : (k : BlockHash) → Below listed k → Below (listing btc cs listed) k
      still k (inl e) = inl e
      still k (inr l) = inr (listed_kept btc k cs listed l)

      child_origin :
          (c : HeaderNode)
          → In c cs
          → (d : HeaderNode) × (get cache (hash btc c) ≡ some d)
            × (Set.contains hash_eq d.header.prev_blockhash (h ∷ expanded) ≡ true)
      child_origin c i = let (e, p, _, _) = tree.sound h c i in (c, e, ground (arith, p))

      expand : IsSearch (h ∷ expanded) (listing btc cs listed) (queue ++ cs)
      expand = record {
        queued = λ c i. elim (In-append c queue cs i) [
          | inl l ↦ listed_kept btc (hash btc c) cs listed (inv.queued c l)
          | inr r ↦ listed_new btc c cs listed r
        ];
        origin = λ k l. elim (contains-listing btc k cs listed l) [
          | inl (c, i, e) ↦ rw e (child_origin c i)
          | inr o ↦ let (c, g, x) = inv.origin k o in (c, g, ground arith)
        ];
        above = λ k l. elim (contains-listing btc k cs listed l) [
          | inl (c, i, e) ↦ rw e (omega (arith, rises c i, rank_le))
          | inr o ↦ inv.above k o
        ];
        below = λ k l. elim (hash_eq k h) [
          | yes e ↦ rw e (still h place)
          | no n ↦ still k (inv.below k (ground arith))
        ];
        waiting = λ c i. elim (In-append c queue cs i) [
          | inl l ↦ ground (arith, inv.waiting c l, gone c l)
          | inr r ↦ not_expanded c r
        ];
        differ =
            append-IsDistinct btc queue cs (λ x y i j e. ground (arith, inv.queued x i, new y j))
              inv.differ (tree.distinct h);
      }

      pushed_le :
          length cs + unlisted (listing btc cs listed) (Map.keys cache.headers)
          ≤ unlisted listed (Map.keys cache.headers)
      pushed_le =
          listing_less btc (Map.keys cache.headers) cs listed
            (λ c i. (
              sym (contains_key-keys (hash btc c) cache.headers) ∙ found (tree.sound h c i).0,
              new c i,
            ))
            (tree.distinct h)
        where
          found :
              {c : HeaderNode}
              → get cache (hash btc c) ≡ some c
              → Map.contains_key hash_eq (hash btc c) cache.headers ≡ true
          found e = ground arith

    subset :
        (expanded listed : List BlockHash) (c : HeaderNode) (queue : List HeaderNode)
        → IsSearch expanded listed (c ∷ queue)
        → IsSearch expanded listed queue
    subset expanded listed c queue inv = record {
      queued = λ d i. inv.queued d (inr i);
      origin = inv.origin;
      above = inv.above;
      below = inv.below;
      waiting = λ d i. inv.waiting d (inr i);
      differ = inv.differ.1;
    }

    -- Each node that is still to come costs one step, and a node is pushed once.
    IsSearch-Ends :
        (n : ℕ) (expanded listed : List BlockHash) (queue : List HeaderNode)
        → IsSearch expanded listed queue
        → length queue + unlisted listed (Map.keys cache.headers) ≤ n
        → Ends n queue
    IsSearch-Ends n expanded listed [] inv le = tt
    IsSearch-Ends zero expanded listed (c ∷ queue) inv le = absurd (omega (arith, le))
    IsSearch-Ends (suc n) expanded listed (c ∷ queue) inv le =
        let rest = subset expanded listed c queue inv in
        let gone : (d : HeaderNode) → In d queue → hash btc d ≢ hash btc c =
          λ d i e. All-In _ d queue inv.differ.0 i (sym e) in
        let wait = inv.waiting c (inl refl) in
        let place : Below listed (hash btc c) = inr (inv.queued c (inl refl)) in
        let cs = children btc cache c in
        let less = pushed_le expanded listed queue rest (hash btc c) place wait gone in
        (
          IsSearch-Ends n expanded listed queue rest (omega (arith, le)),
          IsSearch-Ends n (hash btc c ∷ expanded) (listing btc cs listed) (queue ++ cs)
              (expand expanded listed queue rest (hash btc c) place wait gone)
              (omega (arith, le, length-append queue cs, less)),
        )

    -- The search from the children of the anchor.
    pub start-Ends : (n : ℕ) → length cache.headers ≤ n → Ends n (children_at cache anchor)
    start-Ends n le =
        IsSearch-Ends n (anchor ∷ []) (listing btc (children_at cache anchor) [])
          (children_at cache anchor)
          (expand [] [] [] none_yet anchor (inl refl) refl (λ c i. elim i [ ]))
          (omega (
            arith,
            le,
            pushed_le [] [] [] none_yet anchor (inl refl) refl (λ c i. elim i [ ]),
            unlisted-keys cache.headers,
          ))
      where
        none_yet : IsSearch [] [] []
        none_yet = record {
          queued = λ c i. elim i [ ];
          origin = λ h e. absurd (ground arith);
          above = λ h e. absurd (ground arith);
          below = λ h e. absurd (ground arith);
          waiting = λ c i. elim i [ ];
          differ = tt;
        }
