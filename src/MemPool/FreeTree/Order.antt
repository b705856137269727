-- ===== src/MemPool/FreeTree/Order.antt =====
-- The order of the free tree by size, and that the operations keep it. Fragments of one size stand
-- on either side: an insertion puts the new one on the left, and a deletion can move the root's
-- place to a fragment whose equal is on the right.
use v_perf_generator.Common.{arith, ℕ, ◌≤◌, List, [], ◌∷◌, arith}
use v_perf_generator.MemPool.FreeTree.{
  Fragment, Tree, leaf, node, Direction, mp_hh_l, mp_hh_r, mp_heap_btree_insert, take_tail,
  replacement, mp_heap_btree_delete,
}

-- Every fragment of the tree satisfies `P`.
abbrev pub Each : (Fragment → Type 0) → Tree → Type 0
Each P leaf = Unit
Each P (node l h r) = Each P l × P h × Each P r

abbrev pub AtMost : ℕ → Tree → Type 0
AtMost n = Each (λ h. h.hh_size ≤ n)

abbrev pub AtLeast : ℕ → Tree → Type 0
AtLeast n = Each (λ h. n ≤ h.hh_size)

abbrev pub IsOrdered : Tree → Type 0
IsOrdered leaf = Unit
IsOrdered (node l h r) = AtMost h.hh_size l × AtLeast h.hh_size r × IsOrdered l × IsOrdered r

pub Each-imp :
    {P Q : Fragment → Type 0} → ((h : Fragment) → P h → Q h) → (t : Tree) → Each P t → Each Q t
Each-imp f leaf a = tt
Each-imp f (node l h r) (pl, p, pr) = (Each-imp f l pl, f h p, Each-imp f r pr)

module _ (P : Fragment → Type 0) where
  pub Each-mp_heap_btree_insert :
      (t : Tree) (h : Fragment) → P h → Each P t → Each P (mp_heap_btree_insert t h)
  unfolding mp_heap_btree_insert
  Each-mp_heap_btree_insert leaf h p a = (tt, p, tt)
  Each-mp_heap_btree_insert (node l g r) h p a =
      ground (arith, Each-mp_heap_btree_insert l h, Each-mp_heap_btree_insert r h)

  Each-take_tail :
      (l : Tree) (h : Fragment) (r : Tree)
      → Each P (node l h r)
      → P (take_tail l h r).0 × Each P (take_tail l h r).1
  unfolding take_tail
  Each-take_tail leaf h r a = (a.1, a.2)
  Each-take_tail (node ll lh lr) h r a =
      let (first, rest) = Each-take_tail ll lh lr a.0 in (first, (rest, a.1, a.2))

  Each-replacement : (l r : Tree) → Each P l → Each P r → Each P (replacement l r)
  unfolding replacement
  Each-replacement leaf r a b = b
  Each-replacement (node ll lh lr) leaf a b = a
  Each-replacement (node ll lh lr) (node rl rh rr) a b =
      let (first, rest) = Each-take_tail rl rh rr b in (a, first, rest)

  pub Each-mp_heap_btree_delete :
      (t : Tree) (path : List Direction) → Each P t → Each P (mp_heap_btree_delete t path)
  unfolding mp_heap_btree_delete
  Each-mp_heap_btree_delete leaf path a = tt
  Each-mp_heap_btree_delete (node l h r) [] a = Each-replacement l r a.0 a.2
  Each-mp_heap_btree_delete (node l h r) (mp_hh_l ∷ path) a =
      (Each-mp_heap_btree_delete l path a.0, a.1, a.2)
  Each-mp_heap_btree_delete (node l h r) (mp_hh_r ∷ path) a =
      (a.0, a.1, Each-mp_heap_btree_delete r path a.2)

AtMost-le : (t : Tree) (m n : ℕ) → m ≤ n → AtMost m t → AtMost n t
AtMost-le t m n le a = Each-imp (λ x e. omega (arith, le)) t a

pub mp_heap_btree_insert-IsOrdered :
    (t : Tree) (h : Fragment) → IsOrdered t → IsOrdered (mp_heap_btree_insert t h)
unfolding mp_heap_btree_insert
mp_heap_btree_insert-IsOrdered leaf h o = (tt, tt, tt, tt)
mp_heap_btree_insert-IsOrdered (node l g r) h o = ground (
  arith,
  mp_heap_btree_insert-IsOrdered l h,
  mp_heap_btree_insert-IsOrdered r h,
  Each-mp_heap_btree_insert (λ x. x.hh_size ≤ g.hh_size) l h,
  Each-mp_heap_btree_insert (λ x. g.hh_size ≤ x.hh_size) r h,
  AtMost-le l g.hh_size h.hh_size,
)

-- The successor is the least of its subtree.
take_tail-IsOrdered :
    (l : Tree) (h : Fragment) (r : Tree)
    → IsOrdered (node l h r)
    → AtLeast (take_tail l h r).0.hh_size (take_tail l h r).1 × IsOrdered (take_tail l h r).1
unfolding take_tail
take_tail-IsOrdered leaf h r o = (o.1, o.3)
take_tail-IsOrdered (node ll lh lr) h r o =
    let (least, ordered) = take_tail-IsOrdered ll lh lr o.2 in
    let low = Each-take_tail (λ x. x.hh_size ≤ h.hh_size) ll lh lr o.0 in
    let first = low.0 in
    ((least, first, Each-imp (λ x e. omega (arith, first)) r o.1), (low.1, o.1, ordered, o.3))

replacement-IsOrdered :
    (l : Tree) (h : Fragment) (r : Tree) → IsOrdered (node l h r) → IsOrdered (replacement l r)
unfolding replacement
replacement-IsOrdered leaf h r o = o.3
replacement-IsOrdered (node ll lh lr) h leaf o = o.2
replacement-IsOrdered (node ll lh lr) h (node rl rh rr) o =
    let (least, ordered) = take_tail-IsOrdered rl rh rr o.3 in
    let high = Each-take_tail (λ x. h.hh_size ≤ x.hh_size) rl rh rr o.1 in
    let first = high.0 in
    (Each-imp (λ x e. omega (arith, first)) (node ll lh lr) o.0, least, o.2, ordered)

pub mp_heap_btree_delete-IsOrdered :
    (t : Tree) (path : List Direction) → IsOrdered t → IsOrdered (mp_heap_btree_delete t path)
unfolding mp_heap_btree_delete
mp_heap_btree_delete-IsOrdered leaf path o = tt
mp_heap_btree_delete-IsOrdered (node l h r) [] o = replacement-IsOrdered l h r o
mp_heap_btree_delete-IsOrdered (node l h r) (mp_hh_l ∷ path) o = (
  Each-mp_heap_btree_delete (λ x. x.hh_size ≤ h.hh_size) l path o.0,
  o.1,
  mp_heap_btree_delete-IsOrdered l path o.2,
  o.3,
)
mp_heap_btree_delete-IsOrdered (node l h r) (mp_hh_r ∷ path) o = (
  o.0,
  Each-mp_heap_btree_delete (λ x. h.hh_size ≤ x.hh_size) r path o.1,
  o.2,
  mp_heap_btree_delete-IsOrdered r path o.3,
)
