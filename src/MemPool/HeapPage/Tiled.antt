-- ===== src/MemPool/HeapPage/Tiled.antt =====
-- When a heap page is sound: its free and its allocated fragments tile it, its free tree is ordered,
-- and its counters count.
use v_perf_generator.MemPool.FreeTree.Weight.{Weight, weight, list_weight}
use v_perf_generator.MemPool.FreeTree.Order.{IsOrdered}
use v_perf_generator.MemPool.HeapPage.{HeapPage}
use v_perf_generator.Common.{ℕ, ℕ, ◌+◌, ◌≡◌, ltb, leb, ◌&&◌, if◌then◌else◌, length}

-- Does a fragment cover the unit at address `u`?
unfoldable pub covers : ℕ → Weight
covers u h = if leb h.hh u && ltb u (h.hh + h.hh_size) then 1 else 0

abbrev pub one : Weight
one h = 1

abbrev pub units : Weight
units h = h.hh_size

-- How many fragments of the page cover the unit at `u`.
unfoldable pub cover : HeapPage → ℕ → ℕ
unfolding weight list_weight covers
cover page u = weight (covers u) page.hp_root_free + list_weight (covers u) page.allocated

-- The units of the page that headers and fragments share: `room` of them from `first` on.
abbrev pub inside : ℕ → ℕ → ℕ → ℕ
inside first room u = if leb first u && ltb u (first + room) then 1 else 0

pub record IsSound (first room : ℕ) (page : HeapPage) : Type 0 where
  pub ordered : IsOrdered page.hp_root_free
  pub free_units : page.hp_free ≡ weight units page.hp_root_free
  pub free_fragments : page.hp_free_count ≡ weight one page.hp_root_free
  pub allocated_fragments : page.hp_allocated_count ≡ length page.allocated
  pub tiled : (u : ℕ) → cover page u ≡ inside first room u
