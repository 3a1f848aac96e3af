-- ===== src/Median.antt =====
-- `kth_smallest` and `median` of include/median.h. `m1` and `j1` are the source's `m + 1` and
-- `j + 1`, so that -1 is 0. Each loop takes fuel; `none` is a read outside the array, or no fuel.
-- The source's `int n` stands for counts below 2 ^ 31, as those of the samples of a stride are.
pub mod Bounds
pub mod Swapped
pub mod Sorts
pub mod Rank
pub mod Exchange
pub mod Ends
use diskscan.Base.{
  ℕ, zero, suc, ◌+◌, ◌-◌, ◌/◌, ◌%◌, true, false, Option, none, some, List, length, get_elem?, set,
  ltb, ◌==◌, if◌then◌else◌, ◌>>=◌,
}

-- `ELEM_SWAP(a[i],a[j])`
unfoldable pub elem_swap : List ℕ → ℕ → ℕ → Option (List ℕ)
elem_swap a i j = do x ← get_elem? a i; y ← get_elem? a j; some (set (set a i y) j x)

-- `while (a[i]<x) i++`
unfoldable pub scan_up : ℕ → List ℕ → ℕ → ℕ → Option ℕ
scan_up zero a x i = none
scan_up (suc fuel) a x i =
    get_elem? a i >>= λ v. elim (ltb v x) [ true ↦ scan_up fuel a x (i + 1) | false ↦ some i ]

-- `while (x<a[j]) j--`
unfoldable pub scan_down : List ℕ → ℕ → ℕ → Option ℕ
scan_down a x zero = none
scan_down a x (suc j) =
    get_elem? a j >>= λ v. elim (ltb x v) [ true ↦ scan_down a x j | false ↦ some (suc j) ]

-- One round of the `do` loop.
unfoldable pub exchange : List ℕ → ℕ → ℕ → ℕ → Option (List ℕ × ℕ × ℕ)
exchange a x i j1 = do
  i' ← scan_up (length a + 1) a x i
  j1' ← scan_down a x j1
  if ltb i' j1'
      then (elem_swap a i' (j1' - 1) >>= λ a'. some (a', i' + 1, j1' - 1))
      else some (a, i', j1')

unfoldable pub partition : ℕ → List ℕ → ℕ → ℕ → ℕ → Option (List ℕ × ℕ × ℕ)
partition zero a x i j1 = none
partition (suc fuel) a x i j1 = exchange a x i j1 >>= λ (a', i', j1'). elim (ltb i' j1') [
  | true ↦ partition fuel a' x i' j1'
  | false ↦ some (a', i', j1')
]

unfoldable pub narrow : ℕ → List ℕ → ℕ → ℕ → ℕ → Option (List ℕ)
narrow zero a k l m1 = none
narrow (suc fuel) a k l m1 = elim (ltb (l + 1) m1) [
  | false ↦ some a
  | true ↦ do
    x ← get_elem? a k
    (a', i, j1) ← partition (length a + 1) a x l m1
    narrow fuel a' k (if ltb j1 (k + 1) then i else l) (if ltb k i then j1 else m1)
]

unfoldable pub kth_smallest : List ℕ → ℕ → ℕ → Option (ℕ × List ℕ)
kth_smallest a n k = narrow (n + 1) a k 0 n >>= λ a'. get_elem? a' k >>= λ v. some (v, a')

-- The rank of the macro `median`; for an empty array it is -1, and `a[-1]` is read.
unfoldable pub median : List ℕ → ℕ → Option (ℕ × List ℕ)
median a n = if n == 0 then none else kth_smallest a n (if n % 2 == 1 then n / 2 else n / 2 - 1)
