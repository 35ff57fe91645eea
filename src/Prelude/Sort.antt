-- ===== src/Prelude/Sort.antt =====
-- `sort.Slice` by a number, the greatest first. Go leaves the order of equal elements open; here
-- they stay in their order.
use mathlib.Core.List.{Perm}
use mathlib.Core.List.Perm
use botex.Prelude.Tests.{ltb, if◌then◌else◌, Bool-cases}
use botex.Prelude.Lists.{All}
use Prim.Native.Nat.{ℕ, ◌≤◌}
use mathlib.Core.Logic.{inl, inr}
use mathlib.Core.List.{List, [], ◌∷◌}
use native.Mathlib.Omega.{arith}

module _ {A : Type 0} (key : A → ℕ) where
  insert_desc : A → List A → List A
  insert_desc x [] = x ∷ []
  insert_desc x (y ∷ ys) =
      let rest = insert_desc x ys in if ltb (key x) (key y) then y ∷ rest else x ∷ y ∷ ys

  unfoldable pub sort_desc : List A → List A
  unfolding insert_desc
  sort_desc [] = []
  sort_desc (x ∷ xs) = insert_desc x (sort_desc xs)

  -- No element is followed by a greater one.
  abbrev pub IsDescending : List A → Type 0
  IsDescending [] = Unit
  IsDescending (x ∷ xs) = All (λ y. key y ≤ key x) xs × IsDescending xs

  insert_desc-perm : (x : A) (ys : List A) → Perm (insert_desc x ys) (x ∷ ys)
  unfolding insert_desc
  insert_desc-perm x [] = Perm.rfl
  insert_desc-perm x (y ∷ ys) = elim (Bool-cases (ltb (key x) (key y))) [
    | inl e ↦ rw e (Perm.trans (Perm.cons y (insert_desc-perm x ys)) (Perm.swap x y ys))
    | inr e ↦ rw e Perm.rfl
  ]

  pub sort_desc-perm : (xs : List A) → Perm (sort_desc xs) xs
  unfolding sort_desc
  sort_desc-perm [] = Perm.rfl
  sort_desc-perm (x ∷ xs) =
      Perm.trans (insert_desc-perm x (sort_desc xs)) (Perm.cons x (sort_desc-perm xs))

  insert_desc-All :
      (P : A → Type 0) (x : A) (ys : List A) → P x → All P ys → All P (insert_desc x ys)
  unfolding insert_desc
  insert_desc-All P x [] p all = (p, tt)
  insert_desc-All P x (y ∷ ys) p (q, all) = elim (Bool-cases (ltb (key x) (key y))) [
    | inl e ↦ rw e (q, insert_desc-All P x ys p all)
    | inr e ↦ rw e (p, (q, all))
  ]

  All-le : (m n : ℕ) (ys : List A) → m ≤ n → All (λ y. key y ≤ m) ys → All (λ y. key y ≤ n) ys
  All-le m n [] h all = tt
  All-le m n (y ∷ ys) h (p, all) = (omega arith, All-le m n ys h all)

  insert_desc-IsDescending :
      (x : A) (ys : List A) → IsDescending ys → IsDescending (insert_desc x ys)
  unfolding insert_desc
  insert_desc-IsDescending x [] d = (tt, tt)
  insert_desc-IsDescending x (y ∷ ys) (below, d) = elim (Bool-cases (ltb (key x) (key y))) [
    | inl e ↦ rw e (
      insert_desc-All (λ z. key z ≤ key y) x ys (ground (arith, e)) below,
      insert_desc-IsDescending x ys d,
    )
    | inr e ↦
        let le : key y ≤ key x = ground (arith, e) in
        rw e ((le, All-le (key y) (key x) ys le below), (below, d))
  ]

  pub sort_desc-IsDescending : (xs : List A) → IsDescending (sort_desc xs)
  unfolding sort_desc
  sort_desc-IsDescending [] = tt
  sort_desc-IsDescending (x ∷ xs) =
      insert_desc-IsDescending x (sort_desc xs) (sort_desc-IsDescending xs)
