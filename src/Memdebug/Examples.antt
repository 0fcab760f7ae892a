-- ===== src/Memdebug/Examples.antt =====
-- A short use of the default allocator of src/fly.c with the table of src/fly_memdebug.h.
use libfly.Prelude.{ℕ, ◌≡◌, true, refl, some, List, [], ◌∷◌, arith, weigh}
use libfly.Memdebug.{Slot, Table, Growth, count_alloc, grown, init_memdebug, report}
use libfly.Memdebug.Leaks.{Use, alloc, release, run, in_use, without, Fits, report-in_use}
use libfly.Memdebug.Full.{count_alloc-full}

-- Two blocks, one of them given back, a `malloc` that fails, and a `free` of `NULL`.
abbrev uses : List Use
uses = alloc 100 8 ∷ alloc 200 16 ∷ alloc 0 32 ∷ release 100 ∷ release 0 ∷ []

abbrev garbage : ℕ → Slot
garbage i = record { ptr = i; size = 7 }

abbrev growth : Growth
growth = record { ok = true; garbage = garbage }

uses-Fits : Fits 256 uses []
unfolding Fits without weigh
uses-Fits = (refl, omega arith, (refl, omega arith, (refl, omega arith, tt)))

-- What is left is the block at 200, with 16 bytes.
left : in_use uses [] ≡ record { ptr = 200; size = 16 } ∷ []
unfolding in_use without
left = refl

report-in_use_example :
    (t : Table) × (run growth uses (init_memdebug garbage) ≡ some t)
    × (weigh (λ b. b.size) (report t) ≡ weigh (λ b. b.size) (in_use uses []))
report-in_use_example = report-in_use garbage growth uses (λ b. b.size) uses-Fits

-- A table of one slot, which is taken, and a new array that holds no 0.
abbrev small : Table
small = record { slots = λ i. record { ptr = 100; size = 8 }; array_size = 1 }

count_alloc-full_example :
    count_alloc
      (record { ok = true; garbage = λ i. record { ptr = 1; size = 1 } })
      (record { ptr = 200; size = 16 })
      small
    ≡ some (record {
      slots = grown (record { ok = true; garbage = λ i. record { ptr = 1; size = 1 } }) small;
      array_size = 2;
    })
count_alloc-full_example =
    count_alloc-full (record { ok = true; garbage = λ i. record { ptr = 1; size = 1 } })
      (record { ptr = 200; size = 16 }) small refl (omega arith) (λ k lt. omega arith)
      (λ k. omega arith)
