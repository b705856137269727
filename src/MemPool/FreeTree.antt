-- ===== src/MemPool/FreeTree.antt =====
-- lib/libtscommon/src/mempool.c, the binary search tree of the free fragments of a heap page:
-- `mp_heap_btree_insert`, `mp_heap_btree_delete`, `mp_heap_btree_find_delete` and
-- `mp_heap_btree_linearize`. A child offset of 0 (the header itself) is a `leaf`; what the source
-- reaches through `parent` and `direction` is the subtree at a path from the root.
pub mod Weight
pub mod Order
pub mod BestFit
mod Tests
use v_perf_generator.Common.{
  ℕ, ◌+◌, Bool, List, [], ◌∷◌, ◌++◌, Option, none, some, ltb, leb, ◌==◌, ◌&&◌, ◌||◌, if◌then◌else◌,
  true, false,
}

-- A fragment of a page: the address of its header in heap units, and `hh_size`, its length in them.
pub record Fragment : Type 0 where
  pub hh : ℕ
  pub hh_size : ℕ

pub data Tree : Type 0 where
  leaf : Tree
  node : Tree → Fragment → Tree → Tree

-- MP_HH_L and MP_HH_R; a path from `root` is empty where the source has MP_HH_N.
pub data Direction : Type 0 where
  mp_hh_l : Direction
  mp_hh_r : Direction

-- The walk for the new header's parent. Of the same size, the new header takes over the parent's
-- left child and becomes its left child itself.
unfoldable pub mp_heap_btree_insert : Tree → Fragment → Tree
mp_heap_btree_insert leaf h = node leaf h leaf
mp_heap_btree_insert (node l parent r) h =
    let left = mp_heap_btree_insert l h in
    let right = mp_heap_btree_insert r h in
    if ltb parent.hh_size h.hh_size
    then node l parent right
    else if ltb h.hh_size parent.hh_size
    then node left parent r
    else node (node l h leaf) parent r

-- The walk along `hh_left` to the smallest successor, which takes the four values of a subtree's
-- root: the successor, and what its deletion leaves of the subtree.
unfoldable pub take_tail : Tree → Fragment → Tree → Fragment × Tree
take_tail leaf tail r = (tail, r)
take_tail (node ll lh lr) h r = let (tail, rest) = take_tail ll lh lr in (tail, node rest h r)

-- What takes the place of a deleted header with children `l` and `r`.
unfoldable pub replacement : Tree → Tree → Tree
unfolding take_tail
replacement leaf r = r
replacement (node ll lh lr) leaf = node ll lh lr
replacement (node ll lh lr) (node rl rh rr) =
    let (tail, rest) = take_tail rl rh rr in node (node ll lh lr) tail rest

-- The deletion of the header at a path.
unfoldable pub mp_heap_btree_delete : Tree → List Direction → Tree
unfolding replacement
mp_heap_btree_delete leaf path = leaf
mp_heap_btree_delete (node l h r) [] = replacement l r
mp_heap_btree_delete (node l h r) (mp_hh_l ∷ path) = node (mp_heap_btree_delete l path) h r
mp_heap_btree_delete (node l h r) (mp_hh_r ∷ path) = node l h (mp_heap_btree_delete r path)

-- `best`, with `b_parent` and `b_direction` as its path; `b_diff` is `best.hh_size - units`.
pub record Best : Type 0 where
  pub best : Fragment
  pub b_path : List Direction

-- `diff >= 0 && (diff <= b_diff || b_diff < 0)`
unfoldable pub better : ℕ → Fragment → Fragment → Bool
better units h best = leb units h.hh_size && (leb h.hh_size best.hh_size || ltb best.hh_size units)

-- The loop of `mp_heap_btree_find_delete` at a header: the best so far, the path, the children. A
-- header of the size that is asked for ends it.
unfoldable pub find_best : Tree → ℕ → List Direction → Best → Best
unfolding better
find_best leaf units path b = b
find_best (node l h r) units path b =
    let b' = if better units h b.best then record { best = h; b_path = path } else b in
    let in_left = find_best l units (path ++ (mp_hh_l ∷ [])) b' in
    let in_right = find_best r units (path ++ (mp_hh_r ∷ [])) b' in
    if ltb units h.hh_size then in_left else if ltb h.hh_size units then in_right else b'

-- `none` where every fragment is too small. The source follows a NULL root; the callers have none.
unfoldable pub mp_heap_btree_find_delete : Tree → ℕ → Option (Fragment × Tree)
unfolding find_best mp_heap_btree_delete
mp_heap_btree_find_delete leaf units = none
mp_heap_btree_find_delete (node l h r) units =
    let b = find_best (node l h r) units [] (record { best = h; b_path = [] }) in
    if ltb b.best.hh_size units
    then none
    else some (b.best, mp_heap_btree_delete (node l h r) b.b_path)

-- The array that the recursion fills: each header before its left and its right subtree. A `leaf` is
-- a child that is not there; for a root that is NULL, which the source follows, `mp_heap_page_defrag`
-- is `none`.
unfoldable pub mp_heap_btree_linearize : Tree → List Fragment
mp_heap_btree_linearize leaf = []
mp_heap_btree_linearize (node l h r) = h ∷ (mp_heap_btree_linearize l ++ mp_heap_btree_linearize r)
