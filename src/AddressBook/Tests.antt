-- ===== src/AddressBook/Tests.antt =====
-- Tests of the address book.
use bitcoin_adaptor.Base.{ℕ, some, List, [], ◌∷◌}
use bitcoin_adaptor.Bitcoin.{Address}
use bitcoin_adaptor.Samples.{lib, env, config, peer}
use bitcoin_adaptor.AddressBook.{new, pop, add_many}
use bitcoin_adaptor.AddressBook.Bounds.{
  IsDisjoint, begin, next, pop_step, add_many_step, Reach-IsDisjoint,
}

abbrev addresses : List (ℕ × Address)
addresses =
    (0, record { services = 1; socket_addr = some (peer 3) })
    ∷ (0, record { services = 0; socket_addr = some (peer 4) })
    ∷ []

Reach-IsDisjoint_example : IsDisjoint (add_many lib (peer 1) addresses (pop env (new config)).0).0
Reach-IsDisjoint_example =
    Reach-IsDisjoint lib config _
      (next (next begin (pop_step env)) (add_many_step (peer 1) addresses))
