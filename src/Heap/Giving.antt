-- ===== src/Heap/Giving.antt =====
-- What `free` of YYSloth/src/memory/kheap.cpp does to the pools of small objects.
use yay_os.Base.{ℕ, ◌≡◌, some, Option, List, [], ◌∷◌, ◌==◌, if◌then◌else◌}
use yay_os.Heap.{KernelHeap, cut_pool_from, pool_free}
use yay_os.Heap.Lists.{View}
use yay_os.Heap.Taking.{IsValid}

-- The list without a pool.
abbrev pub remove : ℕ → List ℕ → List ℕ
remove p [] = []
remove p (x ∷ xs) = if p == x then xs else x ∷ remove p xs

-- The heap in which `free` has put an object back into its pool, while the pool is in no list.
abbrev given : ℕ → ℕ → ℕ → ℕ → KernelHeap → KernelHeap
given s c p x h = pool_free p x (cut_pool_from p s c h)

-- A heap in which the index last checked was raised within its array.
Raised : KernelHeap → View → (ℕ → List ℕ) → ℕ → Option KernelHeap → Type 0
Raised h v free p o = (h' : KernelHeap) × (o ≡ some h') × IsValid h' v free
