-- ===== src/CircularList.antt =====
-- lib/libtscommon/include/list.h: doubly linked circular lists. Nodes are addresses, `l_head` of a
-- head among them; the links of all of them are the state.
pub mod Ring
pub mod Add
pub mod Join
pub mod Change
pub mod Splice
mod Tests
use v_perf_generator.Common.{Bool, ℕ, ◌==◌, ◌&&◌, not, if◌then◌else◌, Bool}
use v_perf_generator.Common.Memory.{update}

pub record Links : Type 0 where
  pub next : ℕ → ℕ
  pub prev : ℕ → ℕ

abbrev pub with_next : Links → ℕ → ℕ → Links
with_next l a b = record l { next = update l.next a b }

abbrev pub with_prev : Links → ℕ → ℕ → Links
with_prev l a b = record l { prev = update l.prev a b }

abbrev pub list_poison1 : ℕ
list_poison1 = 0xDEADCAFE

abbrev pub list_poison2 : ℕ
list_poison2 = 0xCAFEDEAD

unfoldable pub list_node_init : Links → ℕ → Links
list_node_init l node = with_prev (with_next l node node) node node

-- `__list_add` of `node` between `prev` and `next`
unfoldable pub add_between : Links → ℕ → ℕ → ℕ → Links
add_between l node before behind =
    with_next (with_prev (with_next (with_prev l behind node) node behind) node before) before node

unfoldable pub list_add : Links → ℕ → ℕ → Links
unfolding add_between
list_add l node head = add_between l node head (l.next head)

unfoldable pub list_add_tail : Links → ℕ → ℕ → Links
unfolding add_between
list_add_tail l node head = add_between l node (l.prev head) head

-- `__list_del`
unfoldable pub join : Links → ℕ → ℕ → Links
join l before behind = with_next (with_prev l behind before) before behind

unfoldable pub del_entry : Links → ℕ → Links
unfolding join
del_entry l entry = join l (l.prev entry) (l.next entry)

unfoldable pub list_del : Links → ℕ → Links
unfolding del_entry
list_del l entry = with_prev (with_next (del_entry l entry) entry list_poison1) entry list_poison2

unfoldable pub list_del_init : Links → ℕ → Links
unfolding del_entry list_node_init
list_del_init l entry = list_node_init (del_entry l entry) entry

unfoldable pub list_replace : Links → ℕ → ℕ → Links
list_replace l old node =
    let l1 = with_next l node (l.next old) in
    let l2 = with_prev l1 (l1.next node) node in
    let l3 = with_prev l2 node (l2.prev old) in with_next l3 (l3.prev node) node

unfoldable pub list_replace_init : Links → ℕ → ℕ → Links
unfolding list_replace list_node_init
list_replace_init l old node = list_node_init (list_replace l old node) old

unfoldable pub list_move : Links → ℕ → ℕ → Links
unfolding del_entry list_add
list_move l node head = list_add (del_entry l node) node head

unfoldable pub list_move_tail : Links → ℕ → ℕ → Links
unfolding del_entry list_add_tail
list_move_tail l node head = list_add_tail (del_entry l node) node head

unfoldable pub list_is_last : Links → ℕ → ℕ → Bool
list_is_last l node head = l.next node == head

unfoldable pub list_empty : Links → ℕ → Bool
list_empty l head = l.next head == head

unfoldable pub list_empty_careful : Links → ℕ → Bool
list_empty_careful l head = (l.next head == head) && (l.next head == l.prev head)

unfoldable pub list_rotate_left : Links → ℕ → Links
unfolding list_empty list_move_tail
list_rotate_left l head = if not (list_empty l head) then list_move_tail l (l.next head) head else l

unfoldable pub list_is_singular : Links → ℕ → Bool
unfolding list_empty
list_is_singular l head = not (list_empty l head) && (l.next head == l.prev head)

-- `__list_cut_position`
unfoldable pub cut_at : Links → ℕ → ℕ → ℕ → Links
unfolding list_node_init
cut_at l list head entry =
    let new_first = l.next entry in
    let l1 = list_node_init l list in
    let l2 = with_next l1 list (l1.next head) in
    let l3 = with_prev l2 (l2.next list) list in
    let l4 = with_prev l3 list entry in
    let l5 = with_next l4 entry list in
    let l6 = with_next l5 head new_first in with_prev l6 new_first head

unfoldable pub list_cut_position : Links → ℕ → ℕ → ℕ → Links
unfolding list_empty list_is_singular list_node_init cut_at
list_cut_position l list head entry =
    if list_empty l head
    then l
    else if list_is_singular l head && (not (l.next head == entry) && not (head == entry))
    then l
    else if entry == head
    then list_node_init l list
    else cut_at l list head entry

-- `__list_splice` of the nodes from `first` to `last` between `before` and `behind`
unfoldable pub splice_ends : Links → ℕ → ℕ → ℕ → ℕ → Links
splice_ends l first last before behind =
    with_prev (with_next (with_next (with_prev l first before) before first) last behind) behind
      last

unfoldable pub splice_between : Links → ℕ → ℕ → ℕ → Links
unfolding splice_ends
splice_between l list before behind = splice_ends l (l.next list) (l.prev list) before behind

unfoldable pub list_splice : Links → ℕ → ℕ → Links
unfolding list_empty splice_between
list_splice l list node =
    if not (list_empty l list) then splice_between l list node (l.next node) else l

unfoldable pub list_splice_tail : Links → ℕ → ℕ → Links
unfolding list_empty splice_between
list_splice_tail l list node =
    if not (list_empty l list) then splice_between l list (l.prev node) node else l

unfoldable pub list_splice_init : Links → ℕ → ℕ → Links
unfolding list_empty splice_between list_node_init
list_splice_init l list node =
    if not (list_empty l list)
    then list_node_init (splice_between l list node (l.next node)) list
    else l

unfoldable pub list_splice_tail_init : Links → ℕ → ℕ → Links
unfolding list_empty splice_between list_node_init
list_splice_tail_init l list node =
    if not (list_empty l list)
    then list_node_init (splice_between l list (l.prev node) node) list
    else l
