-- ===== src/Html/Order.antt =====
-- The stable sort keeps the items, and sorts failed checks by the workloads that they affect.
use mathlib.Core.List.{Memᴰ}
use starboard.Prelude.{
  subst, ℕ, zero, suc, ◌≤◌, true, false, List, [], ◌∷◌, ◌≡◌, refl, ap, sym, ◌⊎◌, inl, inr, All,
  take, length, Bool-cases, arith,
}
use starboard.Html.{
  LessFunc, multi_less, insert_stable, sort_stable, sort_desc, CheckWithCount, check_less,
}

module _ {ℓ} {A : Type ℓ} (less : LessFunc A) where
  Mem-insert_stable :
      (x y : A) (ys : List A) → (x ≡ y) ⊎ Memᴰ x ys → Memᴰ x (insert_stable less y ys)
  unfolding insert_stable
  Mem-insert_stable x y [] (inl e) = Memᴰ.head e
  Mem-insert_stable x y [] (inr m) = Memᴰ.tail m
  Mem-insert_stable x y (z ∷ zs) h = elim (Bool-cases (less z y)) [
    | inl p ↦ rw p (elim h [
      | inl e ↦ Memᴰ.tail (Mem-insert_stable x y zs (inl e))
      | inr (Memᴰ.head e) ↦ Memᴰ.head e
      | inr (Memᴰ.tail m) ↦ Memᴰ.tail (Mem-insert_stable x y zs (inr m))
    ])
    | inr p ↦ rw p (elim h [ inl e ↦ Memᴰ.head e | inr m ↦ Memᴰ.tail m ])
  ]

  Mem-sort_stable : (x : A) (xs : List A) → Memᴰ x xs → Memᴰ x (sort_stable less xs)
  unfolding sort_stable
  Mem-sort_stable x [] m = elim m [ ]
  Mem-sort_stable x (y ∷ ys) (Memᴰ.head e) = Mem-insert_stable x y (sort_stable less ys) (inl e)
  Mem-sort_stable x (y ∷ ys) (Memᴰ.tail m) =
      Mem-insert_stable x y (sort_stable less ys) (inr (Mem-sort_stable x ys m))

  module _ {κ} (P : A → Type κ) where
    All-insert_stable : (x : A) (xs : List A) → P x → All P xs → All P (insert_stable less x xs)
    unfolding insert_stable
    All-insert_stable x [] px _ = (px, tt)
    All-insert_stable x (y ∷ ys) px (py, h) = elim (Bool-cases (less y x)) [
      | inl p ↦ rw p (py, All-insert_stable x ys px h)
      | inr p ↦ rw p (px, (py, h))
    ]

    All-sort_stable : (xs : List A) → All P xs → All P (sort_stable less xs)
    unfolding sort_stable
    All-sort_stable [] _ = tt
    All-sort_stable (x ∷ xs) (px, h) =
        All-insert_stable x (sort_stable less xs) px (All-sort_stable xs h)

module _ {ℓ κ} {A : Type ℓ} (P : A → Type κ) where
  pub All-take : (n : ℕ) (xs : List A) → All P xs → All P (take n xs)
  All-take zero xs h = tt
  All-take (suc n) [] h = tt
  All-take (suc n) (x ∷ xs) (px, h) = (px, All-take n xs h)

  pub All-Mem : (x : A) (xs : List A) → All P xs → Memᴰ x xs → P x
  All-Mem x [] h m = elim m [ ]
  All-Mem x (y ∷ ys) (py, h) (Memᴰ.head e) = subst P (sym e) py
  All-Mem x (y ∷ ys) (py, h) (Memᴰ.tail m) = All-Mem x ys h m

-- Each check affects at least as many workloads as those after it.
abbrev pub Descending : List CheckWithCount → Type 0
Descending [] = Unit
Descending (c ∷ cs) = All (λ d. d.affected_workloads ≤ c.affected_workloads) cs × Descending cs

check_less_at_most :
    (p q : CheckWithCount) → check_less p q ≡ true → p.affected_workloads ≤ q.affected_workloads
unfolding check_less multi_less
check_less_at_most p q h = ground (arith, h)

check_less_not_below :
    (p q : CheckWithCount) → check_less p q ≡ false → q.affected_workloads ≤ p.affected_workloads
unfolding check_less multi_less
check_less_not_below p q h = ground (arith, h)

All-weaken :
    (bound : ℕ) (d : CheckWithCount) (cs : List CheckWithCount)
    → d.affected_workloads ≤ bound
    → All (λ x. x.affected_workloads ≤ d.affected_workloads) cs
    → All (λ x. x.affected_workloads ≤ bound) cs
All-weaken bound d [] le _ = tt
All-weaken bound d (c ∷ cs) le (h, hs) = (omega (arith, le, h), All-weaken bound d cs le hs)

insert-Descending :
    (c : CheckWithCount) (cs : List CheckWithCount)
    → Descending cs
    → Descending (insert_stable (λ x y. check_less y x) c cs)
unfolding insert_stable
insert-Descending c [] _ = (tt, tt)
insert-Descending c (d ∷ ds) (below, rest) = elim (Bool-cases (check_less c d)) [
  | inl p ↦ rw p (
    All-insert_stable (λ x y. check_less y x) (λ x. x.affected_workloads ≤ d.affected_workloads) c
        ds (check_less_at_most c d p) below,
    insert-Descending c ds rest,
  )
  | inr p ↦
      let d≤c = check_less_not_below c d p in
      rw p ((d≤c, All-weaken c.affected_workloads d ds d≤c below), (below, rest))
]

sort-Descending : (cs : List CheckWithCount) → Descending (sort_stable (λ x y. check_less y x) cs)
unfolding sort_stable
sort-Descending [] = tt
sort-Descending (c ∷ cs) =
    insert-Descending c (sort_stable (λ x y. check_less y x) cs) (sort-Descending cs)

-- A check is among the first of a descending list, or all of those affect at least as many workloads.
take_or_at_most :
    (n : ℕ) (c : CheckWithCount) (cs : List CheckWithCount)
    → Descending cs
    → Memᴰ c cs
    → Memᴰ c (take n cs)
      ⊎ ((length (take n cs) ≡ n)
          × All (λ d. c.affected_workloads ≤ d.affected_workloads) (take n cs))
take_or_at_most n c [] _ m = elim m [ ]
take_or_at_most zero c (d ∷ ds) _ m = inr (refl, tt)
take_or_at_most (suc n) c (d ∷ ds) _ (Memᴰ.head e) = inl (Memᴰ.head e)
take_or_at_most (suc n) c (d ∷ ds) (below, rest) (Memᴰ.tail m) =
    elim (take_or_at_most n c ds rest m) [
      | inl t ↦ inl (Memᴰ.tail t)
      | inr (full, all) ↦ inr (
        ap suc full,
        (All-Mem (λ x. x.affected_workloads ≤ d.affected_workloads) c ds below m, all),
      )
    ]

-- The first of the sorted checks are some of the checks, and the others affect no more workloads.
pub take-sort_desc {κ} :
    (P : CheckWithCount → Type κ) (n : ℕ) (cs : List CheckWithCount)
    → All P cs
    → All P (take n (sort_desc check_less cs))
unfolding sort_desc
take-sort_desc P n cs h =
    All-take P n (sort_stable (λ x y. check_less y x) cs)
      (All-sort_stable (λ x y. check_less y x) P cs h)

pub top-sort_desc :
    (n : ℕ) (c : CheckWithCount) (cs : List CheckWithCount)
    → Memᴰ c cs
    → Memᴰ c (take n (sort_desc check_less cs))
      ⊎ ((length (take n (sort_desc check_less cs)) ≡ n)
          × All
              (λ d. c.affected_workloads ≤ d.affected_workloads)
              (take n (sort_desc check_less cs)))
unfolding sort_desc
top-sort_desc n c cs m =
    let less = λ (x : CheckWithCount) (y : CheckWithCount). check_less y x in
    take_or_at_most n c (sort_stable less cs) (sort-Descending cs) (Mem-sort_stable less c cs m)

pub length-take_at_most {ℓ} : {A : Type ℓ} (n : ℕ) (xs : List A) → length (take n xs) ≤ n
length-take_at_most zero xs = omega arith
length-take_at_most (suc n) [] = omega arith
length-take_at_most (suc n) (x ∷ xs) = omega (arith, length-take_at_most n xs)
