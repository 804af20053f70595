-- ===== src/OlmList/Insert.antt =====
-- `insert` against insertion into a list that is cut to the capacity.
use libce.Base.{
  ℕ, zero, suc, ◌+◌, ◌-◌, ◌≤◌, ◌<◌, ◌≡◌, refl, ap, ◌∙◌, sym, List, [], ◌∷◌, ◌++◌, ltb, ◌==◌,
  if◌then◌else◌, arith, inl, inr, Bool-cases, lt→ltb, le→ltb_false, ne→==_false, eq→==, ltb→lt,
  ltb_false→le, ==→eq, ==_false→ne, true, false,
}
use libce.Base.Lists.{length, take, drop, set, length-append, length-take, length-drop, length-set}
use libce.OlmList.{
  OlmList, IsValid, capacity, to_list, memmove, grow, insert_impl, insert, insert_front,
}

module _ {ℓ} {A : Type ℓ} where
  pub length-memmove :
      (xs : List A) (dst src n : ℕ)
      → dst + n ≤ length xs
      → src + n ≤ length xs
      → length (memmove xs dst src n) ≡ length xs
  length-memmove xs dst src n p q = omega (
    arith,
    length-append (take dst xs) (take n (drop src xs) ++ drop n (drop dst xs)),
    length-append (take n (drop src xs)) (drop n (drop dst xs)),
    length-take dst xs,
    length-take n (drop src xs),
    length-drop n (drop dst xs),
    length-drop src xs,
    length-drop dst xs,
  )

  pub take-take_append :
      (n : ℕ) (xs ys : List A) → n ≤ length xs → take n (take n xs ++ ys) ≡ take n xs
  take-take_append zero xs ys h = refl
  take-take_append (suc n) [] ys h = absurd (omega arith)
  take-take_append (suc n) (x ∷ xs) ys h = ap (◌∷◌ x) (take-take_append n xs ys (omega arith))

  -- Opening a slot at `i` and writing it, seen on the first t + 1 items.
  take-shift_right :
      (xs : List A) (i t : ℕ) (v : A)
      → i ≤ t
      → t < length xs
      → take (suc t) (set (memmove xs (suc i) i (t - i)) i v)
        ≡ take i xs ++ (v ∷ drop i (take t xs))
  take-shift_right [] i t v h k = absurd (omega arith)
  take-shift_right (x ∷ xs) zero t v h k =
      let e : t - 0 ≡ t = omega arith in
      ap (◌∷◌ v) (rw e (take-take_append t (x ∷ xs) (drop t xs) (omega arith)))
  take-shift_right (x ∷ xs) (suc i) zero v h k = absurd (omega arith)
  take-shift_right (x ∷ xs) (suc i) (suc t) v h k =
      let e : suc t - suc i ≡ t - i = omega arith in
      ap (◌∷◌ x) (rw e (take-shift_right xs i t v (omega arith) (omega arith)))

  -- Writing the last of the first t + 1 items.
  take-set_last :
      (xs : List A) (t : ℕ) (v : A)
      → t < length xs
      → take (suc t) (set xs t v) ≡ take t xs ++ v ∷ []
  take-set_last [] t v h = absurd (omega arith)
  take-set_last (x ∷ xs) zero v h = refl
  take-set_last (x ∷ xs) (suc t) v h = ap (◌∷◌ x) (take-set_last xs t v (omega arith))

  pub take-take : (i t : ℕ) (xs : List A) → i ≤ t → take i (take t xs) ≡ take i xs
  take-take zero t xs h = refl
  take-take (suc i) zero xs h = absurd (omega arith)
  take-take (suc i) (suc t) [] h = refl
  take-take (suc i) (suc t) (x ∷ xs) h = ap (◌∷◌ x) (take-take i t xs (omega arith))

  drop-all : (n : ℕ) (xs : List A) → length xs ≤ n → drop n xs ≡ []
  drop-all zero [] h = refl
  drop-all zero (x ∷ xs) h = absurd (omega arith)
  drop-all (suc n) [] h = refl
  drop-all (suc n) (x ∷ xs) h = drop-all n xs (omega arith)

  -- The three ways to insert, as lists: there is room; the list is full and the last item is
  -- pushed out; the list is full and the new item, meant for the end, replaces the last one.
  unfoldable pub insert_list : ℕ → List A → ℕ → A → List A
  insert_list limit xs i v =
      if ltb (length xs) limit
      then take i xs ++ (v ∷ drop i xs)
      else if i == length xs
      then take (i - 1) xs ++ (v ∷ [])
      else take i xs ++ (v ∷ drop i (take (length xs - 1) xs))

  set-shift_right :
      (xs : List A) (i t : ℕ) (v : A)
      → i ≤ t
      → t < length xs
      → take (suc t) (set (if ltb i t then memmove xs (suc i) i (t - i) else xs) i v)
        ≡ take i xs ++ (v ∷ drop i (take t xs))
  set-shift_right xs i t v h k = elim (Bool-cases (ltb i t)) [
    | inl e ↦ rw e (take-shift_right xs i t v h k)
    | inr e ↦
        let q : i ≡ t = ground arith in
        rw (e, q)
          (take-set_last xs t v k
            ∙ ap (λ (w : List A). take t xs ++ (v ∷ w))
                (sym (drop-all t (take t xs) (omega (arith, length-take t xs)))))
  ]

  insert_with_room :
      (l : OlmList A) (i : ℕ) (v : A)
      → l.size < capacity l
      → insert l i v ≡ record {
        size = suc l.size;
        data_array =
            set
              (if ltb i l.size then memmove l.data_array (suc i) i (l.size - i) else l.data_array)
              i
              v;
      }
  unfolding insert
  insert_with_room l i v h =
      let e : suc l.size - 1 ≡ l.size = omega arith in
      rw (lt→ltb _ _ h, ne→==_false (suc l.size) 0 (omega arith)) (rw e refl)

  -- With room, `insert` inserts.
  pub insert-room :
      (l : OlmList A) (i : ℕ) (v : A)
      → l.size < capacity l
      → i ≤ l.size
      → to_list (insert l i v) ≡ take i (to_list l) ++ (v ∷ drop i (to_list l))
  unfolding to_list
  insert-room l i v h k =
      rw (insert_with_room l i v h, take-take i l.size l.data_array k)
        (set-shift_right l.data_array i l.size v k h)

  insert_when_full :
      (l : OlmList A) (i : ℕ) (v : A)
      → l.size ≡ capacity l
      → i < l.size
      → insert l i v ≡ record {
        size = l.size;
        data_array =
            set
              (if ltb i (l.size - 1)
                then memmove l.data_array (suc i) i (l.size - 1 - i)
                else l.data_array)
              i
              v;
      }
  unfolding insert
  insert_when_full l i v h k =
      rw
        (
          le→ltb_false l.size (capacity l) (omega arith),
          ne→==_false i l.size (omega arith),
          ne→==_false l.size 0 (omega arith),
        )
        refl

  insert_at_end :
      (l : OlmList A) (v : A)
      → l.size ≡ capacity l
      → 0 < l.size
      → insert l l.size v ≡ record l { data_array = set l.data_array (l.size - 1) v }
  unfolding insert
  insert_at_end l v h k =
      let e : ltb (l.size - 1) (l.size - 1) ≡ false = ground arith in
      rw
        (
          le→ltb_false l.size (capacity l) (omega arith),
          eq→== l.size l.size refl,
          lt→ltb 0 l.size k,
          ne→==_false l.size 0 (omega arith),
          e,
        )
        refl

  -- In a full list the last item is pushed out.
  pub insert-full :
      (l : OlmList A) (i : ℕ) (v : A)
      → l.size ≡ capacity l
      → i < l.size
      → to_list (insert l i v) ≡ take i (to_list l) ++ (v ∷ drop i (take (l.size - 1) (to_list l)))
  unfolding to_list
  insert-full l i v h k =
      let e : l.size ≡ suc (l.size - 1) = omega arith in
      rw
        (
          insert_when_full l i v h k,
          take-take i l.size l.data_array (omega arith),
          take-take (l.size - 1) l.size l.data_array (omega arith),
        )
        (rw (← e) at (set-shift_right l.data_array i (l.size - 1) v (omega arith) (omega arith)))

  -- In a full list an item meant for the end replaces the last one.
  pub insert-end_full :
      (l : OlmList A) (v : A)
      → l.size ≡ capacity l
      → 0 < l.size
      → to_list (insert l l.size v) ≡ take (l.size - 1) (to_list l) ++ (v ∷ [])
  unfolding to_list
  insert-end_full l v h k =
      let e : l.size ≡ suc (l.size - 1) = omega arith in
      rw (insert_at_end l v h k, take-take (l.size - 1) l.size l.data_array (omega arith))
        (rw (← e) at (take-set_last l.data_array (l.size - 1) v (omega arith)))

  pub length-to_list : (l : OlmList A) → IsValid l → length (to_list l) ≡ l.size
  unfolding to_list
  length-to_list l v = omega (arith, length-take l.size l.data_array, v.fits)

  -- On a valid list of some capacity and at an index up to its length, `insert` is `insert_list`.
  pub to_list-insert :
      (l : OlmList A) (i : ℕ) (v : A)
      → IsValid l
      → 0 < capacity l
      → i ≤ l.size
      → to_list (insert l i v) ≡ insert_list (capacity l) (to_list l) i v
  unfolding insert_list
  to_list-insert l i v ok c h =
      rw (length-to_list l ok) (elim (Bool-cases (ltb l.size (capacity l))) [
        | inl room ↦ rw room (insert-room l i v (ltb→lt _ _ room) h)
        | inr full ↦ rw full (elim (Bool-cases (i == l.size)) [
          | inl last ↦ rw last (
              rw (==→eq i l.size last)
                (insert-end_full l v (at_limit full) (omega (arith, at_limit full))))
          | inr inner ↦ rw inner (
              insert-full l i v (at_limit full)
                (omega (arith, at_limit full, ==_false→ne i l.size inner)))
        ])
      ])
    where
      at_limit : ltb l.size (capacity l) ≡ false → l.size ≡ capacity l
      at_limit full = omega (arith, ltb_false→le l.size (capacity l) full, ok.fits)

  length-shift_right :
      (xs : List A) (i t : ℕ) (v : A)
      → i ≤ t
      → t < length xs
      → length (set (if ltb i t then memmove xs (suc i) i (t - i) else xs) i v) ≡ length xs
  length-shift_right xs i t v h k = elim (Bool-cases (ltb i t)) [
    | inl e ↦ rw e (
        length-set (memmove xs (suc i) i (t - i)) i v
        ∙ length-memmove xs (suc i) i (t - i) (omega arith) (omega arith))
    | inr e ↦ rw e (length-set xs i v)
  ]

  insert-IsValid_room :
      (l : OlmList A) (i : ℕ) (v : A)
      → l.size < capacity l
      → i ≤ l.size
      → IsValid (insert l i v) × (capacity (insert l i v) ≡ capacity l)
  insert-IsValid_room l i v room h =
      let kept = length-shift_right l.data_array i l.size v h room in
      rw (insert_with_room l i v room) (record { fits = rw kept room }, kept)

  insert-IsValid_full :
      (l : OlmList A) (i : ℕ) (v : A)
      → l.size ≡ capacity l
      → 0 < l.size
      → i ≤ l.size
      → IsValid (insert l i v) × (capacity (insert l i v) ≡ capacity l)
  insert-IsValid_full l i v full c h = elim (Bool-cases (i == l.size)) [
    | inl last ↦
        let kept = length-set l.data_array (l.size - 1) v in
        rw (==→eq i l.size last, insert_at_end l v full c)
          (record { fits = rw kept (omega arith) }, kept)
    | inr inner ↦
        let below : i < l.size = omega (arith, ==_false→ne i l.size inner) in
        let kept = length-shift_right l.data_array i (l.size - 1) v (omega arith) (omega arith) in
        rw (insert_when_full l i v full below) (record { fits = rw kept (omega arith) }, kept)
  ]

  -- An insertion at an index up to the length keeps a valid list of some capacity valid, and the
  -- capacity.
  pub insert-IsValid :
      (l : OlmList A) (i : ℕ) (v : A)
      → IsValid l
      → 0 < capacity l
      → i ≤ l.size
      → IsValid (insert l i v) × (capacity (insert l i v) ≡ capacity l)
  insert-IsValid l i v ok c h = elim (Bool-cases (ltb l.size (capacity l))) [
    | inl room ↦ insert-IsValid_room l i v (ltb→lt _ _ room) h
    | inr full ↦
        let e : l.size ≡ capacity l =
          omega (arith, ltb_false→le l.size (capacity l) full, ok.fits) in
        insert-IsValid_full l i v e (omega arith) h
  ]

  take-all : (n : ℕ) (xs : List A) → length xs ≤ n → take n xs ≡ xs
  take-all zero [] h = refl
  take-all zero (x ∷ xs) h = absurd (omega arith)
  take-all (suc n) [] h = refl
  take-all (suc n) (x ∷ xs) h = ap (◌∷◌ x) (take-all n xs (omega arith))

  -- On a valid list of some capacity, an insertion in front puts the item before the others, of which
  -- the last falls out when the list is full.
  pub to_list-insert_front :
      (l : OlmList A) (v : A)
      → IsValid l
      → 0 < capacity l
      → to_list (insert_front l v) ≡ take (capacity l) (v ∷ to_list l)
  to_list-insert_front l v ok c = elim (Bool-cases (ltb l.size (capacity l))) [
    | inl room ↦
        unfold insert_front in
        insert-room l 0 v (ltb→lt _ _ room) (omega arith)
        ∙ sym (
            take-all (capacity l) (v ∷ to_list l)
              (omega (arith, length-to_list l ok, ltb→lt _ _ room)))
    | inr full ↦
        let e : l.size ≡ capacity l =
          omega (arith, ltb_false→le l.size (capacity l) full, ok.fits) in
        let k : capacity l ≡ suc (l.size - 1) = omega arith in
        unfold insert_front in
        insert-full l 0 v e (omega arith) ∙ ap (λ (w : ℕ). take w (v ∷ to_list l)) (sym k)
  ]

  -- The first insertion into an empty list.
  pub insert_front-first :
      (l : OlmList A) (v : A)
      → l.size ≡ 0
      → 0 < capacity l
      → insert_front l v ≡ record { size = 1; data_array = set l.data_array 0 v }
  unfolding insert_front insert insert_impl grow
  insert_front-first l v none_yet room =
      let fits : ltb 0 (capacity l) ≡ true = lt→ltb 0 (capacity l) room in rw (none_yet, fits) refl
