-- ===== src/LinkList.antt =====
-- kernel/adt/list.h: circular doubly linked lists. A `link_t` is an address, and a `list_t` is the
-- address of its `head` link; NULL is 0. The store keeps the two fields of each link.
pub mod Ring
pub mod Insert
pub mod Remove
mod Tests
use osy.Common.{
  ℕ, Bool, Option, none, some, ◌&&◌, not, ◌==◌, if◌then◌else◌, Cmd, pure, fail, ◌>>=◌, ◌>>◌, assert,
}

pub record Links : Type 0 where
  pub prev : ℕ → ℕ
  pub next : ℕ → ℕ

abbrev pub null : ℕ
null = 0

abbrev pub update : (ℕ → ℕ) → ℕ → ℕ → ℕ → ℕ
update f a v b = if b == a then v else f b

-- Reads and writes through a link pointer; NULL is no link.
unfoldable pub get_prev : ℕ → Cmd Links ℕ
get_prev a = if a == null then fail else λ s. some (s.prev a, s)

unfoldable pub get_next : ℕ → Cmd Links ℕ
get_next a = if a == null then fail else λ s. some (s.next a, s)

unfoldable pub set_prev : ℕ → ℕ → Cmd Links (Unit {0})
set_prev a v = if a == null then fail else λ s. some (tt, record s { prev = update s.prev a v })

unfoldable pub set_next : ℕ → ℕ → Cmd Links (Unit {0})
set_next a v = if a == null then fail else λ s. some (tt, record s { next = update s.next a v })

unfoldable pub link_init : ℕ → Cmd Links (Unit {0})
unfolding set_prev set_next
link_init link = do assert (not (link == null)); set_prev link null; set_next link null

unfoldable pub list_init : ℕ → Cmd Links (Unit {0})
unfolding set_prev set_next
list_init list = do assert (not (list == null)); set_prev list list; set_next list list

unfoldable pub link_connected : ℕ → Cmd Links Bool
unfolding get_prev get_next
link_connected link = do
  assert (not (link == null))
  p ← get_prev link
  n ← get_next link
  pure (not (p == null) && not (n == null))

unfoldable pub list_empty : ℕ → Cmd Links Bool
unfolding get_next
list_empty list = do assert (not (list == null)); n ← get_next list; pure (n == list)

unfoldable pub list_prepend : ℕ → ℕ → Cmd Links (Unit {0})
unfolding get_next set_prev set_next
list_prepend list link = do
  assert (not (list == null))
  assert (not (link == null))
  first ← get_next list
  set_next link first
  set_prev link list
  after ← get_next list
  set_prev after link
  set_next list link

unfoldable pub list_append : ℕ → ℕ → Cmd Links (Unit {0})
unfolding get_prev set_prev set_next
list_append list link = do
  assert (not (list == null))
  assert (not (link == null))
  set_next link list
  last ← get_prev list
  set_prev link last
  before ← get_prev list
  set_next before link
  set_prev list link

-- The two writes of a connected link's neighbours.
unlink : ℕ → Cmd Links (Unit {0})
unfolding get_prev get_next set_prev set_next
unlink link = do
  after ← get_next link
  before ← get_prev link
  set_prev after before
  before' ← get_prev link
  after' ← get_next link
  set_next before' after'

unfoldable pub list_remove : ℕ → Cmd Links (Unit {0})
unfolding link_connected unlink link_init
list_remove link = do
  assert (not (link == null))
  connected ← link_connected link
  if connected then unlink link else pure tt
  link_init link

-- `none` is the result NULL.
unfoldable pub list_pop : ℕ → Cmd Links (Option ℕ)
unfolding get_next
list_pop list = do
  assert (not (list == null))
  empty ← list_empty list
  if empty then pure none else do item ← get_next list; list_remove item; pure (some item)

-- The result of `list_pop` is not tested: appending NULL is caught by its assertion.
append_popped : ℕ → Option ℕ → Cmd Links (Option ℕ)
append_popped list none = fail
append_popped list (some item) = list_append list item >> pure (some item)

unfoldable pub list_rotate : ℕ → Cmd Links (Option ℕ)
unfolding append_popped
list_rotate list = do
  assert (not (list == null))
  empty ← list_empty list
  if empty then pure none else do item ← list_pop list; append_popped list item
