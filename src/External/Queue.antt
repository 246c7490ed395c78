-- ===== src/External/Queue.antt =====
-- moodycamel::ConcurrentQueue (src/concurrentqueue/concurrentqueue.h), with one producer: the
-- items of one producer come out in the order in which it put them in.
use hvbench.Base.{◌≡◌, Bool, true, false, List, [], ◌∷◌, ◌++◌, Option, none, some}

pub record ConcurrentQueue (A : Type 0) : Type 1 where
  pub Q : Type 0
  pub new : Q
  -- `false` where no memory can be had.
  pub try_enqueue : Q → A → Q × Bool
  pub try_dequeue : Q → Option (A × Q)
  -- The items, oldest first. The code cannot see them.
  pub contents : Q → List A
  pub contents-new : contents new ≡ []
  pub enqueued :
      (q : Q) (a : A)
      → (try_enqueue q a).1 ≡ true
      → contents (try_enqueue q a).0 ≡ contents q ++ a ∷ []
  pub refused :
      (q : Q) (a : A) → (try_enqueue q a).1 ≡ false → contents (try_enqueue q a).0 ≡ contents q
  pub dequeue_empty : (q : Q) → contents q ≡ [] → try_dequeue q ≡ none
  pub dequeue_first :
      (q : Q) (a : A) (rest : List A)
      → contents q ≡ a ∷ rest
      → (r : Q) × (try_dequeue q ≡ some (a, r)) × (contents r ≡ rest)
