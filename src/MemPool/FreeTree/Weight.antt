-- ===== src/MemPool/FreeTree/Weight.antt =====
-- What the operations of the free tree do to its fragments, order apart: a weight of fragments is
-- summed over the tree, so that 1 counts them, `hh_size` adds up their units, and the test for one
-- fragment says how often it is there.
use v_perf_generator.Common.{Option, ℕ, ◌+◌, ◌≡◌, List, [], ◌∷◌, ◌++◌, refl, arith, some, Option}
use v_perf_generator.MemPool.FreeTree.{
  Fragment, Tree, leaf, node, Direction, mp_hh_l, mp_hh_r, mp_heap_btree_insert, take_tail,
  replacement, mp_heap_btree_delete, mp_heap_btree_linearize,
}

abbrev pub Weight : Type 0
Weight = Fragment → ℕ

unfoldable pub weight : Weight → Tree → ℕ
weight w leaf = 0
weight w (node l h r) = weight w l + w h + weight w r

unfoldable pub list_weight : Weight → List Fragment → ℕ
list_weight w [] = 0
list_weight w (h ∷ hs) = w h + list_weight w hs

-- The fragment at a path.
unfoldable pub fragment_at : Tree → List Direction → Option Fragment
fragment_at leaf path = Option.none
fragment_at (node l h r) [] = some h
fragment_at (node l h r) (mp_hh_l ∷ path) = fragment_at l path
fragment_at (node l h r) (mp_hh_r ∷ path) = fragment_at r path

module _ (w : Weight) where
  pub weight-mp_heap_btree_insert :
      (t : Tree) (h : Fragment) → weight w (mp_heap_btree_insert t h) ≡ weight w t + w h
  unfolding weight mp_heap_btree_insert
  weight-mp_heap_btree_insert leaf h = omega arith
  weight-mp_heap_btree_insert (node l p r) h =
      ground (arith, weight-mp_heap_btree_insert l h, weight-mp_heap_btree_insert r h)

  pub weight-take_tail :
      (l : Tree) (h : Fragment) (r : Tree)
      → weight w l + w h + weight w r ≡ w (take_tail l h r).0 + weight w (take_tail l h r).1
  unfolding weight take_tail
  weight-take_tail leaf h r = omega arith
  weight-take_tail (node ll lh lr) h r = omega (arith, weight-take_tail ll lh lr)

  pub weight-replacement : (l r : Tree) → weight w (replacement l r) ≡ weight w l + weight w r
  unfolding weight replacement
  weight-replacement leaf r = omega arith
  weight-replacement (node ll lh lr) leaf = omega arith
  weight-replacement (node ll lh lr) (node rl rh rr) = omega (arith, weight-take_tail rl rh rr)

  -- A deletion takes away the fragment at the path and no other.
  pub weight-mp_heap_btree_delete :
      (t : Tree) (path : List Direction) (h : Fragment)
      → fragment_at t path ≡ some h
      → weight w t ≡ w h + weight w (mp_heap_btree_delete t path)
  unfolding weight mp_heap_btree_delete fragment_at
  weight-mp_heap_btree_delete leaf path h at = absurd (cc)
  weight-mp_heap_btree_delete (node l g r) [] h at = ground (arith, weight-replacement l r)
  weight-mp_heap_btree_delete (node l g r) (mp_hh_l ∷ path) h at =
      omega (arith, weight-mp_heap_btree_delete l path h at)
  weight-mp_heap_btree_delete (node l g r) (mp_hh_r ∷ path) h at =
      omega (arith, weight-mp_heap_btree_delete r path h at)

  list_weight-append :
      (xs ys : List Fragment) → list_weight w (xs ++ ys) ≡ list_weight w xs + list_weight w ys
  unfolding list_weight
  list_weight-append [] ys = omega arith
  list_weight-append (x ∷ xs) ys = omega (arith, list_weight-append xs ys)

  pub list_weight-mp_heap_btree_linearize :
      (t : Tree) → list_weight w (mp_heap_btree_linearize t) ≡ weight w t
  unfolding list_weight weight mp_heap_btree_linearize
  list_weight-mp_heap_btree_linearize leaf = refl
  list_weight-mp_heap_btree_linearize (node l h r) = omega (
    arith,
    list_weight-append (mp_heap_btree_linearize l) (mp_heap_btree_linearize r),
    list_weight-mp_heap_btree_linearize l,
    list_weight-mp_heap_btree_linearize r,
  )
