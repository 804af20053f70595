-- ===== src/OlmList/Erase.antt =====
-- `erase` against removal from a list.
use libce.Base.{
  ℕ, zero, suc, ◌-◌, ◌≤◌, ◌<◌, ◌≡◌, refl, ap, sym, List, [], ◌∷◌, ◌++◌, ltb, leb, if◌then◌else◌,
  arith, inl, inr, Bool-cases, ne→==_false,
}
use libce.Base.Lists.{length, take, drop}
use libce.OlmList.{OlmList, IsValid, capacity, to_list, memmove, erase}
use libce.OlmList.Insert.{length-memmove, take-take_append, take-take}
use mathlib.Core.Bool.{Bool}
use mathlib.Core.List.{append-nil}

module _ {ℓ} {A : Type ℓ} where
  take-shift_left :
      (xs : List A) (i t : ℕ)
      → i ≤ t
      → t < length xs
      → take t (memmove xs i (suc i) (t - i)) ≡ take i xs ++ drop (suc i) (take (suc t) xs)
  take-shift_left [] i t h k = absurd (omega arith)
  take-shift_left (x ∷ xs) zero t h k =
      let e : t - 0 ≡ t = omega arith in
      rw e (take-take_append t xs (drop t (x ∷ xs)) (omega arith))
  take-shift_left (x ∷ xs) (suc i) zero h k = absurd (omega arith)
  take-shift_left (x ∷ xs) (suc i) (suc t) h k =
      let e : suc t - suc i ≡ t - i = omega arith in
      ap (◌∷◌ x) (rw e (take-shift_left xs i t (omega arith) (omega arith)))

  drop-take_last : (t : ℕ) (xs : List A) → drop t (take t xs) ≡ []
  drop-take_last zero xs = refl
  drop-take_last (suc t) [] = refl
  drop-take_last (suc t) (x ∷ xs) = drop-take_last t xs

  take-shift_left_if :
      (xs : List A) (i t : ℕ)
      → i ≤ t
      → t < length xs
      → take t (if ltb i t then memmove xs i (suc i) (t - i) else xs)
        ≡ take i xs ++ drop (suc i) (take (suc t) xs)
  take-shift_left_if xs i t h k = elim (Bool-cases (ltb i t)) [
    | inl e ↦ rw e (take-shift_left xs i t h k)
    | inr e ↦
        let q : i ≡ t = ground arith in
        rw (e, q, drop-take_last (suc t) xs) (sym (append-nil (take t xs)))
  ]

  -- On a valid list, erasing the item at an index below its length leaves the others, in their order.
  pub to_list-erase :
      (l : OlmList A) (i : ℕ)
      → IsValid l
      → i < l.size
      → to_list (erase l i) ≡ take i (to_list l) ++ drop (suc i) (to_list l)
  unfolding to_list erase
  to_list-erase l i ok h =
      let e : suc (l.size - 1) ≡ l.size = omega arith in
      let here : leb l.size i ≡ Bool.false = ground arith in
      rw (ne→==_false l.size 0 (omega arith), here, take-take i l.size l.data_array (omega arith))
        (rw e at
          (take-shift_left_if l.data_array i (l.size - 1) (omega arith) (omega (arith, ok.fits))))

  -- Outside the items `erase` does nothing; the list stays valid in the same array size.
  pub erase-outside : (l : OlmList A) (i : ℕ) → l.size ≤ i → erase l i ≡ l
  unfolding erase
  erase-outside l i h = let there : leb l.size i ≡ Bool.true = ground arith in ground arith

  -- Erasing at any index keeps a valid list valid, and the capacity.
  pub erase-IsValid :
      (l : OlmList A) (i : ℕ)
      → IsValid l
      → IsValid (erase l i) × (capacity (erase l i) ≡ capacity l)
  unfolding erase
  erase-IsValid l i ok = ground (arith, length-memmove l.data_array i (suc i) (l.size - 1 - i))
