-- ===== src/Prelude/Mem.antt =====
-- Membership as data (`Memᴰ`), which a proof can match, in appended, permuted and flattened lists.
use mathlib.Core.Path.{refl, sym, ◌∙◌, subst}
use mathlib.Core.Logic.{◌⊎◌, inl, inr}
use mathlib.Core.List.{List, [], ◌∷◌, ◌++◌, flatten, Memᴰ, Permᴰ}
use monitower.Prelude.Lists.{All}

module _ {ℓ} {A : Type ℓ} where
  pub mem_of_perm : {xs ys : List A} (x : A) → Permᴰ xs ys → Memᴰ x ys → Memᴰ x xs
  mem_of_perm x Permᴰ.nil m = m
  mem_of_perm x (Permᴰ.cons e p) (Memᴰ.head h) = Memᴰ.head (h ∙ sym e)
  mem_of_perm x (Permᴰ.cons e p) (Memᴰ.tail m) = Memᴰ.tail (mem_of_perm x p m)
  mem_of_perm x (Permᴰ.swap e h) (Memᴰ.head k) = Memᴰ.tail (Memᴰ.head (k ∙ sym h))
  mem_of_perm x (Permᴰ.swap e h) (Memᴰ.tail (Memᴰ.head k)) = Memᴰ.head (k ∙ sym e)
  mem_of_perm x (Permᴰ.swap e h) (Memᴰ.tail (Memᴰ.tail m)) = Memᴰ.tail (Memᴰ.tail m)
  mem_of_perm x (Permᴰ.trans p q) m = mem_of_perm x p (mem_of_perm x q m)

  pub perm_sym : {xs ys : List A} → Permᴰ xs ys → Permᴰ ys xs
  perm_sym Permᴰ.nil = Permᴰ.nil
  perm_sym (Permᴰ.cons e p) = Permᴰ.cons (sym e) (perm_sym p)
  perm_sym (Permᴰ.swap e h) = Permᴰ.swap (sym h) (sym e)
  perm_sym (Permᴰ.trans p q) = Permᴰ.trans (perm_sym q) (perm_sym p)

  pub mem-append_split : (x : A) (xs ys : List A) → Memᴰ x (xs ++ ys) → Memᴰ x xs ⊎ Memᴰ x ys
  mem-append_split x [] ys m = inr m
  mem-append_split x (y ∷ xs) ys (Memᴰ.head e) = inl (Memᴰ.head e)
  mem-append_split x (y ∷ xs) ys (Memᴰ.tail m) = elim (mem-append_split x xs ys m) [
    | inl h ↦ inl (Memᴰ.tail h)
    | inr h ↦ inr h
  ]

  pub mem-append_left : (x : A) (xs ys : List A) → Memᴰ x xs → Memᴰ x (xs ++ ys)
  mem-append_left x [] ys m = elim m [ ]
  mem-append_left x (y ∷ xs) ys (Memᴰ.head e) = Memᴰ.head e
  mem-append_left x (y ∷ xs) ys (Memᴰ.tail m) = Memᴰ.tail (mem-append_left x xs ys m)

  pub mem-append_right : (x : A) (xs ys : List A) → Memᴰ x ys → Memᴰ x (xs ++ ys)
  mem-append_right x [] ys m = m
  mem-append_right x (y ∷ xs) ys m = Memᴰ.tail (mem-append_right x xs ys m)

  pub group_of_mem :
      (x : A) (groups : List (List A))
      → Memᴰ x (flatten groups)
      → (g : List A) × Memᴰ g groups × Memᴰ x g
  unfolding flatten
  group_of_mem x [] m = elim m [ ]
  group_of_mem x (g ∷ groups) m = elim (mem-append_split x g (flatten groups) m) [
    | inl h ↦ (g, Memᴰ.head refl, h)
    | inr h ↦ let (g', m', h') = group_of_mem x groups h in (g', Memᴰ.tail m', h')
  ]

  pub mem_of_group :
      (x : A) (g : List A) (groups : List (List A))
      → Memᴰ g groups
      → Memᴰ x g
      → Memᴰ x (flatten groups)
  unfolding flatten
  mem_of_group x g [] k m = elim k [ ]
  mem_of_group x g (h ∷ groups) (Memᴰ.head e) m =
      mem-append_left x h (flatten groups) (subst (Memᴰ x) e m)
  mem_of_group x g (h ∷ groups) (Memᴰ.tail k) m =
      mem-append_right x h (flatten groups) (mem_of_group x g groups k m)

module _ {ℓ κ} {A : Type ℓ} (P : A → Type κ) where
  pub of_All : (x : A) (xs : List A) → All P xs → Memᴰ x xs → P x
  of_All x [] a m = elim m [ ]
  of_All x (y ∷ xs) a (Memᴰ.head e) = subst P (sym e) a.0
  of_All x (y ∷ xs) a (Memᴰ.tail m) = of_All x xs a.1 m
