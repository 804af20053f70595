-- ===== src/OlmList.antt =====
-- include/libce/list.h: a list of at most `capacity` items in a fixed array.
-- The macros count bytes and divide by the size of an item; here an index counts items. The slot
-- that `_olm_list_insert` returns is filled by its caller: `insert` does both.
pub mod Insert
pub mod Erase
mod Runs
use libce.Base.{
  ℕ, zero, suc, ◌+◌, ◌-◌, ◌≤◌, ◌<◌, ◌≡◌, refl, Bool, true, false, ◌&&◌, ◌||◌, Option, List, [], ◌∷◌,
  ◌++◌, ltb, leb, ◌==◌, if◌then◌else◌, arith,
}
use libce.Base.Lists.{length, take, drop, set, get_elem?, replicate}

-- `length` is the field of the C struct, `data` the whole array.
pub record OlmList {ℓ} (A : Type ℓ) : Type ℓ where
  pub size : ℕ
  pub data_array : List A

-- The new length and the index that is used, from the first `if` of `_olm_list_insert_impl`.
grow : ℕ → ℕ → ℕ → ℕ × ℕ
grow len limit index =
    if ltb len limit
    then (suc len, index)
    else if index == len && ltb 0 index
    then (len, index - 1)
    else (len, index)

module _ {ℓ} {A : Type ℓ} where
  -- `_olm_list_capacity`
  abbrev pub capacity : OlmList A → ℕ
  capacity l = length l.data_array

  -- `_olm_list_init`
  unfoldable pub init : OlmList A → OlmList A
  init l = record l { size = 0 }

  -- `_olm_list_empty`
  unfoldable pub empty : OlmList A → Bool
  empty l = l.size == 0

  -- What a loop from `_olm_list_begin` to `_olm_list_end` visits.
  unfoldable pub to_list : OlmList A → List A
  to_list l = take l.size l.data_array

  -- `_olm_list_get` inside the items; `none` outside them.
  unfoldable pub get : OlmList A → ℕ → Option A
  unfolding to_list
  get l i = get_elem? (to_list l) i

  -- `memmove` of `n` items from `src` to `dst`, both in the array.
  abbrev memmove : List A → ℕ → ℕ → ℕ → List A
  memmove xs dst src n = take dst xs ++ (take n (drop src xs) ++ drop n (drop dst xs))

  -- `_olm_list_insert_impl`: the list with a free slot, and the slot's index.
  insert_impl : OlmList A → ℕ → OlmList A × ℕ
  unfolding grow
  insert_impl l index =
      let (len', index') = grow l.size (capacity l) index in
      let moved =
        if ltb index' (len' - 1)
        then memmove l.data_array (suc index') index' (len' - 1 - index')
        else l.data_array in
      if len' == 0
      then (record l { size = len' }, 0)
      else (record { size = len'; data_array = moved }, index')

  -- `*_olm_list_insert(list, begin + index) = v`
  unfoldable pub insert : OlmList A → ℕ → A → OlmList A
  unfolding insert_impl
  insert l index v =
      let (l', i) = insert_impl l index in record l' { data_array = set l'.data_array i v }

  -- `*_olm_list_insert_front(list) = v`
  unfoldable pub insert_front : OlmList A → A → OlmList A
  insert_front l v = insert l 0 v

  -- `_olm_list_erase_impl`
  unfoldable pub erase : OlmList A → ℕ → OlmList A
  erase l index =
      let moved =
        if ltb index (l.size - 1)
        then memmove l.data_array index (suc index) (l.size - 1 - index)
        else l.data_array in
      if l.size == 0 || leb l.size index
      then l
      else record { size = l.size - 1; data_array = moved }

  -- The items fit the array.
  pub record IsValid (l : OlmList A) : Type ℓ where
    pub fits : l.size ≤ capacity l
