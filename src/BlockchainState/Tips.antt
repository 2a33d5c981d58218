-- ===== src/BlockchainState/Tips.antt =====
-- src/blockchainstate.rs: the vector of tips, updated in place and sorted by work.
use bitcoin_adaptor.Base.{
  ◌≤◌, ◌≡◌, refl, ◌≢◌, sym, ◌⊎◌, inl, inr, List, [], ◌∷◌, In, All, All-map, arith, Bool-cases, ◌==◌,
  leb,
}
use bitcoin_adaptor.Bitcoin.{BlockHash, BlockHeader}
use bitcoin_adaptor.BlockchainState.{Tip, update_tips, insert_tip, sort_tips}

-- Descending work: the first tip is the active one.
abbrev pub IsDescending : List Tip → Type 0
IsDescending [] = Unit
IsDescending (t ∷ ts) = All (λ u. u.work ≤ t.work) ts × IsDescending ts

pub insert_tip-In : (t u : Tip) (ts : List Tip) → In u (insert_tip t ts) → (u ≡ t) ⊎ In u ts
unfolding insert_tip
insert_tip-In t u [] i = i
insert_tip-In t u (v ∷ ts) i = ground (arith, insert_tip-In t u ts)

pub In-insert_tip : (t u : Tip) (ts : List Tip) → (u ≡ t) ⊎ In u ts → In u (insert_tip t ts)
unfolding insert_tip
In-insert_tip t u [] i = i
In-insert_tip t u (v ∷ ts) i = ground (arith, In-insert_tip t u ts)

pub sort_tips-In : (u : Tip) (ts : List Tip) → In u (sort_tips ts) → In u ts
unfolding sort_tips
sort_tips-In u [] i = i
sort_tips-In u (t ∷ ts) i = ground (arith, insert_tip-In t u (sort_tips ts) i, sort_tips-In u ts)

pub In-sort_tips : (u : Tip) (ts : List Tip) → In u ts → In u (sort_tips ts)
unfolding sort_tips
In-sort_tips u [] i = i
In-sort_tips u (t ∷ ts) i = ground (arith, In-insert_tip t u (sort_tips ts), In-sort_tips u ts)

insert_tip-All :
    (P : Tip → Type 0) (t : Tip) (ts : List Tip) → P t → All P ts → All P (insert_tip t ts)
unfolding insert_tip
insert_tip-All P t [] p h = (p, tt)
insert_tip-All P t (u ∷ ts) p h = ground (arith, insert_tip-All P t ts p h.1)

insert_tip-IsDescending :
    (t : Tip) (ts : List Tip) → IsDescending ts → IsDescending (insert_tip t ts)
unfolding insert_tip
insert_tip-IsDescending t [] h = (tt, tt)
insert_tip-IsDescending t (u ∷ ts) h = elim (Bool-cases (leb u.work t.work)) [
  | inl le ↦ rw le ((ground arith, All-map _ _ ts (λ v (p : v.work ≤ u.work). ground arith) h.0), h)
  | inr gt ↦ rw gt (insert_tip-All _ t ts (ground arith) h.0, insert_tip-IsDescending t ts h.1)
]

pub sort_tips-IsDescending : (ts : List Tip) → IsDescending (sort_tips ts)
unfolding sort_tips
sort_tips-IsDescending [] = tt
sort_tips-IsDescending (t ∷ ts) =
    insert_tip-IsDescending t (sort_tips ts) (sort_tips-IsDescending ts)

module _ (hash : BlockHeader → BlockHash) where
  abbrev pub Differs : Tip → Tip → Type 0
  Differs t u = hash t.header ≢ hash u.header

  -- No two tips have one hash.
  abbrev pub IsUnique : List Tip → Type 0
  IsUnique [] = Unit
  IsUnique (t ∷ ts) = All (Differs t) ts × IsUnique ts

  insert_tip-IsUnique :
      (t : Tip) (ts : List Tip) → All (Differs t) ts → IsUnique ts → IsUnique (insert_tip t ts)
  unfolding insert_tip
  insert_tip-IsUnique t [] d u = (tt, tt)
  insert_tip-IsUnique t (v ∷ ts) d u = elim (Bool-cases (leb v.work t.work)) [
    | inl le ↦ rw le (d, u)
    | inr gt ↦
        rw gt
          (insert_tip-All (Differs v) t ts (λ e. d.0 (sym e)) u.0, insert_tip-IsUnique t ts d.1 u.1)
  ]

  sort_tips-All : (P : Tip → Type 0) (ts : List Tip) → All P ts → All P (sort_tips ts)
  unfolding sort_tips
  sort_tips-All P [] h = tt
  sort_tips-All P (t ∷ ts) h = insert_tip-All P t (sort_tips ts) h.0 (sort_tips-All P ts h.1)

  pub sort_tips-IsUnique : (ts : List Tip) → IsUnique ts → IsUnique (sort_tips ts)
  unfolding sort_tips
  sort_tips-IsUnique [] u = tt
  sort_tips-IsUnique (t ∷ ts) u =
      insert_tip-IsUnique t (sort_tips ts) (sort_tips-All _ ts u.0) (sort_tips-IsUnique ts u.1)

  module _ (prev : BlockHash) (tip : Tip) where
    pub In-update_tips_self : (ts : List Tip) → In tip (update_tips hash prev tip ts)
    unfolding update_tips
    In-update_tips_self [] = inl refl
    In-update_tips_self (t ∷ ts) = ground (arith, In-update_tips_self ts)

    pub In-update_tips :
        (u : Tip) (ts : List Tip)
        → In u ts
        → hash u.header ≢ prev
        → In u (update_tips hash prev tip ts)
    unfolding update_tips
    In-update_tips u (t ∷ ts) i n = ground (arith, In-update_tips u ts)
    In-update_tips u [] i n = elim i [ ]

    Differs-of_In : (t u : Tip) (ts : List Tip) → All (Differs t) ts → In u ts → Differs t u
    Differs-of_In t u [] a i = elim i [ ]
    Differs-of_In t u (v ∷ ts) a i = ground (arith, Differs-of_In t u ts a.1)

    pub update_tips-In :
        (u : Tip) (ts : List Tip)
        → IsUnique ts
        → In u (update_tips hash prev tip ts)
        → (u ≡ tip) ⊎ (In u ts × (hash u.header ≢ prev))
    unfolding update_tips
    update_tips-In u [] q i = ground arith
    update_tips-In u (t ∷ ts) q i =
        ground (arith, update_tips-In u ts q.1, Differs-of_In t u ts q.0)

    update_tips-All :
        (P : Tip → Type 0) (ts : List Tip) → P tip → All P ts → All P (update_tips hash prev tip ts)
    unfolding update_tips
    update_tips-All P [] p h = (p, tt)
    update_tips-All P (t ∷ ts) p h = ground (arith, update_tips-All P ts p h.1)

    pub update_tips-IsUnique :
        (ts : List Tip)
        → ((u : Tip) → In u ts → Differs u tip)
        → IsUnique ts
        → IsUnique (update_tips hash prev tip ts)
    unfolding update_tips
    update_tips-IsUnique [] n q = (tt, tt)
    update_tips-IsUnique (t ∷ ts) n q = elim (Bool-cases (hash t.header == prev)) [
      | inl e ↦ rw e (fresh ts (λ u i. n u (inr i)), q.1)
      | inr e ↦ rw e (
        update_tips-All (Differs t) ts (n t (inl refl)) q.0,
        update_tips-IsUnique ts (λ u i. n u (inr i)) q.1,
      )
    ]
      where
        fresh : (us : List Tip) → ((u : Tip) → In u us → Differs u tip) → All (Differs tip) us
        fresh [] d = tt
        fresh (u ∷ us) d = (λ e. d u (inl refl) (sym e), fresh us (λ v i. d v (inr i)))
