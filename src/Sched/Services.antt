-- ===== src/Sched/Services.antt =====
-- The functions of other files that proc.c calls: kalloc.c, vm.c, file.c and fs.c.
use compsci537_introduction.Common.{ℕ}

-- What they change is the `World`. Pages, page tables, files and inodes are numbers, 0 for null.
pub record Services : Type 1 where
  pub World : Type 0
  pub kalloc : World → ℕ × World
  pub kfree : ℕ → World → World
  pub copyuvm : ℕ → ℕ → World → ℕ × World
  pub freevm : ℕ → World → World
  pub allocuvm : ℕ → ℕ → ℕ → World → ℕ × World
  pub deallocuvm : ℕ → ℕ → ℕ → World → ℕ × World
  pub filedup : ℕ → World → World
  pub fileclose : ℕ → World → World
  pub idup : ℕ → World → World
  pub iput : ℕ → World → World
