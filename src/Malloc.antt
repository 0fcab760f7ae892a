-- ===== src/Malloc.antt =====
-- The allocator that the library takes through `fly_set_malloc` and `fly_set_free` (src/fly.c), as
-- far as its callers see it: whether each call succeeds, and how many blocks are in use.
use libfly.Prelude.{ℕ, zero, suc, ◌+◌, ◌-◌, Bool, true, false, List, [], ◌∷◌}

-- `answers` says of the calls of `fly_malloc` to come whether they succeed; behind it all fail.
pub record Memory : Type 0 where
  pub answers : List Bool
  pub live : ℕ

-- `fly_malloc`: a block or `NULL`.
abbrev pub malloc_answer : List Bool → ℕ → Bool × Memory
malloc_answer [] live = (false, record { answers = []; live = live })
malloc_answer (true ∷ rest) live = (true, record { answers = rest; live = live + 1 })
malloc_answer (false ∷ rest) live = (false, record { answers = rest; live = live })

unfoldable pub malloc : Memory → Bool × Memory
malloc m = malloc_answer m.answers m.live

-- `fly_free` of a block in use.
unfoldable pub free : Memory → Memory
free m = record m { live = m.live - 1 }

-- The next `k` calls succeed.
abbrev pub Enough : ℕ → List Bool → Type 0
Enough zero answers = Unit
Enough (suc k) [] = ⊥
Enough (suc k) (true ∷ rest) = Enough k rest
Enough (suc k) (false ∷ rest) = ⊥
