-- ===== src/Ratchet/Pickled/ListRoundTrip.antt =====
-- The pickles of the lists of ratchet.c, for any codec of the items.
use libce.Base.{
  ℕ, suc, ◌+◌, ◌%◌, ◌^◌, ◌<◌, ◌≤◌, ◌≡◌, refl, ap, ◌∙◌, sym, Option, some, List, [], ◌∷◌, ◌++◌,
  append_assoc, append-nil, arith,
}
use libce.Base.Lists.{length, take, drop, All, length-append, take-length, drop-append}
use libce.Base.Maybe.{◌>>=◌}
use libce.Base.Bytes.{Bytes, IsU32}
use libce.Pickle.{pickle_uint32}
use libce.Pickle.Codec.{IsCodec}
use libce.Pickle.RoundTrip.{uint32-IsCodec}
use libce.OlmList.{OlmList, IsValid, capacity, init, to_list, insert}
use libce.OlmList.Insert.{insert-room, insert-IsValid, length-to_list}
use libce.Ratchet.Pickled.{
  items_pickle_length, items_pickle, items_unpickle, list_pickle_length, list_pickle, list_unpickle,
}

-- An insertion at the end of a list with room appends.
insert-end :
    {A : Type 0} (l : OlmList A) (x : A)
    → IsValid l
    → l.size < capacity l
    → to_list (insert l l.size x) ≡ to_list l ++ (x ∷ [])
insert-end l x ok room =
    let n = length-to_list l ok in
    let before : take l.size (to_list l) ≡ to_list l =
      ap (λ k. take k (to_list l)) (sym n) ∙ take-length (to_list l) in
    let after : drop l.size (to_list l) ≡ [] =
      ap (λ k. drop k (to_list l)) (sym n)
      ∙ ap (drop (length (to_list l))) (sym (append-nil (to_list l)))
      ∙ drop-append (to_list l) [] in
    rw (insert-room l l.size x room (omega arith), before, after) refl

size-insert_end :
    {A : Type 0} (l : OlmList A) (x : A)
    → IsValid l
    → l.size < capacity l
    → (insert l l.size x).size ≡ suc l.size
size-insert_end l x ok room =
    let (ok', fits) = insert-IsValid l l.size x ok (omega arith) (omega arith) in
    let items = ap length (insert-end l x ok room) in
    omega (
      arith,
      items,
      length-append (to_list l) (x ∷ []),
      length-to_list l ok,
      length-to_list (insert l l.size x) ok',
    )

init-IsValid : {A : Type 0} (old : OlmList A) → IsValid (init old)
unfolding init
init-IsValid old = record { fits = omega arith }

module _ {A : Type 0} {Valid : A → Type 0} {item_length : A → ℕ} {pickle : Bytes → A → Bytes}
    {unpickle : Option Bytes → Option (A × Bytes)}
    (codec : IsCodec Valid item_length pickle unpickle)
    (not_empty : (x : A) → 0 < item_length x) where
  items_pickle-append :
      (out : Bytes) (xs : List A) → items_pickle pickle out xs ≡ out ++ items_pickle pickle [] xs
  unfolding items_pickle
  items_pickle-append out [] = sym (append-nil out)
  items_pickle-append out (x ∷ xs) =
      rw
        (
          items_pickle-append (pickle out x) xs,
          items_pickle-append (pickle [] x) xs,
          codec.appends out x,
        )
        (append_assoc out (pickle [] x) (items_pickle pickle [] xs))

  length-items_pickle :
      (xs : List A)
      → All Valid xs
      → length (items_pickle pickle [] xs) ≡ items_pickle_length item_length xs
  unfolding items_pickle items_pickle_length
  length-items_pickle [] h = refl
  length-items_pickle (x ∷ xs) h = rw (items_pickle-append (pickle [] x) xs) (
      omega (
        arith,
        length-append (pickle [] x) (items_pickle pickle [] xs),
        codec.measured x h.0,
        length-items_pickle xs h.1,
      ))

  items_unpickle-not_empty :
      (n : ℕ) (l : OlmList A) (pos : Bytes)
      → 0 < length pos
      → items_unpickle unpickle (suc n) pos l
        ≡ (do (x, rest) ← unpickle (some pos); items_unpickle unpickle n rest (insert l l.size x))
  unfolding items_unpickle
  items_unpickle-not_empty n l [] k = absurd (omega arith)
  items_unpickle-not_empty n l (b ∷ pos) k = refl

  items_unpickle-step :
      (n : ℕ) (x : A) (rest : Bytes) (l : OlmList A)
      → Valid x
      → items_unpickle unpickle (suc n) (pickle [] x ++ rest) l
        ≡ items_unpickle unpickle n rest (insert l l.size x)
  items_unpickle-step n x rest l h =
      let long : 0 < length (pickle [] x ++ rest) =
        omega (arith, length-append (pickle [] x) rest, codec.measured x h, not_empty x) in
      items_unpickle-not_empty n l (pickle [] x ++ rest) long ∙ rw (codec.restores x rest h) refl

  items_pickle-split :
      (x : A) (xs : List A) (rest : Bytes)
      → items_pickle pickle [] (x ∷ xs) ++ rest ≡ pickle [] x ++ (items_pickle pickle [] xs ++ rest)
  unfolding items_pickle
  items_pickle-split x xs rest =
      rw (items_pickle-append (pickle [] x) xs)
        (append_assoc (pickle [] x) (items_pickle pickle [] xs) rest)

  items_unpickle-items_pickle :
      (xs : List A) (rest : Bytes) (l : OlmList A)
      → All Valid xs
      → IsValid l
      → length xs + l.size ≤ capacity l
      → (l' : OlmList A) × (items_unpickle unpickle
            (length xs)
            (items_pickle pickle [] xs ++ rest)
            l
          ≡ some (l', rest))
        × (to_list l' ≡ to_list l ++ xs)
        × (capacity l' ≡ capacity l)
  items_unpickle-items_pickle [] rest l h ok room =
      (l, unfold items_unpickle items_pickle in refl, sym (append-nil (to_list l)), refl)
  items_unpickle-items_pickle (x ∷ xs) rest l h ok room =
      let (ok', fits) = insert-IsValid l l.size x ok (omega arith) (omega arith) in
      let grown = size-insert_end l x ok (omega arith) in
      let (l', reads, items, kept) =
        items_unpickle-items_pickle xs rest (insert l l.size x) h.1 ok' (omega arith) in
      (
        l',
        rw
            (
              items_pickle-split x xs rest,
              items_unpickle-step (length xs) x (items_pickle pickle [] xs ++ rest) l h.0,
            )
            reads,
        rw (items, insert-end l x ok (omega arith)) (append_assoc (to_list l) (x ∷ []) xs),
        kept ∙ fits,
      )

  -- The pickle of a list is appended to what is written before it.
  pub list_pickle-append :
      (out : Bytes) (l : OlmList A) → list_pickle pickle out l ≡ out ++ list_pickle pickle [] l
  unfolding list_pickle
  list_pickle-append out l =
      let size = pickle_uint32 [] (l.size % 2 ^ 32) in
      rw
        (
          items_pickle-append (pickle_uint32 out (l.size % 2 ^ 32)) (to_list l),
          items_pickle-append size (to_list l),
          uint32-IsCodec.appends out (l.size % 2 ^ 32),
        )
        (append_assoc out size (items_pickle pickle [] (to_list l)))

  -- The pickle of a list of valid items has the announced length.
  pub length-list_pickle :
      (l : OlmList A)
      → All Valid (to_list l)
      → length (list_pickle pickle [] l) ≡ list_pickle_length item_length l
  unfolding list_pickle list_pickle_length
  length-list_pickle l h =
      let size = pickle_uint32 [] (l.size % 2 ^ 32) in
      rw (items_pickle-append size (to_list l)) (
        omega (
          arith,
          length-append size (items_pickle pickle [] (to_list l)),
          length-items_pickle (to_list l) h,
          uint32-IsCodec.measured (l.size % 2 ^ 32) (omega arith),
        ))

  list_pickle-split :
      (l : OlmList A) (rest : Bytes)
      → IsU32 l.size
      → list_pickle pickle [] l ++ rest
        ≡ pickle_uint32 [] l.size ++ (items_pickle pickle [] (to_list l) ++ rest)
  unfolding list_pickle
  list_pickle-split l rest small =
      let e : l.size % 2 ^ 32 ≡ l.size = omega arith in
      rw (e, items_pickle-append (pickle_uint32 [] l.size) (to_list l))
        (append_assoc (pickle_uint32 [] l.size) (items_pickle pickle [] (to_list l)) rest)

  -- A list that fits comes back with the same items, whatever the list `old` held before, and the
  -- bytes behind it are left.
  pub list_unpickle-list_pickle :
      (l old : OlmList A) (rest : Bytes)
      → IsValid l
      → All Valid (to_list l)
      → IsU32 l.size
      → l.size ≤ capacity old
      → (new : OlmList A) × (list_unpickle unpickle (some (list_pickle pickle [] l ++ rest)) old
          ≡ some (new, rest))
        × (to_list new ≡ to_list l)
        × (capacity new ≡ capacity old)
  list_unpickle-list_pickle l old rest ok h small room =
      let n = length-to_list l ok in
      let (new, reads, items, kept) =
        items_unpickle-items_pickle (to_list l) rest (init old) h (init-IsValid old)
          (unfold init in omega arith) in
      (
        new,
        unfold list_unpickle in
            rw
              (
                list_pickle-split l rest small,
                uint32-IsCodec.restores l.size (items_pickle pickle [] (to_list l) ++ rest) small,
              )
              (ap
                  (λ k.
                    items_unpickle unpickle k (items_pickle pickle [] (to_list l) ++ rest)
                      (init old))
                  (sym n)
                ∙ reads),
        items ∙ unfold init to_list in refl,
        kept ∙ unfold init in refl,
      )
