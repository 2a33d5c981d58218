-- ===== src/GetSuccessors/Generations.antt =====
-- src/get_successors_handler.rs: the order of a breadth-first search. Its queue holds the rest of one
-- generation and the start of the next.
use bitcoin_adaptor.Base.{ℕ, zero, suc, ◌≤◌, ◌≡◌, refl, sym, ap, ◌∙◌, List, [], ◌∷◌, ◌++◌, arith}
use mathlib.Core.List.{append_assoc, append-nil}
use bitcoin_adaptor.HeaderCache.{HeaderNode}

module _ (next : HeaderNode → List HeaderNode) where
  -- The generation after a given one.
  unfoldable pub below : List HeaderNode → List HeaderNode
  below [] = []
  below (c ∷ level) = next c ++ below level

  -- So many generations, the given one first.
  unfoldable pub generations : ℕ → List HeaderNode → List HeaderNode
  generations zero level = []
  generations (suc k) level = level ++ generations k (below level)

  -- The nodes in the order in which a queue, to which the next nodes of each are pushed, gives them.
  unfoldable pub popped : ℕ → List HeaderNode → List HeaderNode
  popped zero queue = []
  popped (suc n) [] = []
  popped (suc n) (c ∷ queue) = c ∷ popped n (queue ++ next c)

  -- The queue is empty after so many steps.
  abbrev pub Empties : ℕ → List HeaderNode → Type 0
  Empties n [] = Unit
  Empties zero (c ∷ queue) = ⊥
  Empties (suc n) (c ∷ queue) = Empties n (queue ++ next c)

  regroup :
      (xs ys : List HeaderNode) (c : HeaderNode) → ys ++ below (c ∷ xs) ≡ (ys ++ next c) ++ below xs
  unfolding below
  regroup xs ys c = sym (append_assoc ys (next c) (below xs))

  generations-nil : (k : ℕ) → generations k [] ≡ []
  unfolding generations below
  generations-nil zero = refl
  generations-nil (suc k) = generations-nil k

  -- The queue holds the rest `xs` of a generation and the start `ys` of the next.
  popped-eq :
      (n k : ℕ) (xs ys : List HeaderNode)
      → n ≤ k
      → Empties n (xs ++ ys)
      → popped n (xs ++ ys) ≡ xs ++ generations k (ys ++ below xs)
  unfolding popped below generations
  popped-eq zero k [] [] le e = sym (generations-nil k)
  popped-eq (suc n) k [] [] le e = sym (generations-nil k)
  popped-eq zero k [] (d ∷ ys) le e = absurd e
  popped-eq zero k (c ∷ xs) ys le e = absurd e
  popped-eq (suc n) zero [] (d ∷ ys) le e = absurd (omega arith)
  popped-eq (suc n) (suc k) [] (d ∷ ys) le e =
      ap (λ q. d ∷ q) (popped-eq n k ys (next d) (omega arith) e)
      ∙ ap (λ (level : List HeaderNode). level ++ generations k (below level))
          (sym (append-nil (d ∷ ys)))
  popped-eq (suc n) k (c ∷ xs) ys le e =
      ap (λ q. c ∷ popped n q) (append_assoc xs ys (next c))
      ∙ ap (λ q. c ∷ q)
          (popped-eq n k xs (ys ++ next c) (omega arith)
            (rw (append_assoc xs ys (next c), Empties, ◌++◌) at e))
      ∙ ap (λ q. c ∷ (xs ++ generations k q)) (sym (regroup xs ys c))

  pub popped-generations :
      (n : ℕ) (queue : List HeaderNode) → Empties n queue → popped n queue ≡ generations n queue
  unfolding below
  popped-generations n queue e =
      popped-eq n n [] queue (omega arith) e ∙ ap (generations n) (append-nil queue)
