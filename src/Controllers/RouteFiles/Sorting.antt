-- ===== src/Controllers/RouteFiles/Sorting.antt =====
-- The order that sort.Ints gives the segments of internal/server/controllers/v1/route_files.go, and
-- their range.
use mathlib.Core.Path.{subst}
use rtz_server.Base.{
  ℕ, ◌≤◌, ◌≡◌, sym, inl, inr, List, [], ◌∷◌, ◌==◌, any, All, leb, Bool-cases, arith,
}
use rtz_server.Base.Int.{ℤ, pos, negsuc}
use rtz_server.Controllers.RouteFiles.Segments.{
  max_int32, stored_segments, unseen, insert, sort_ints,
}

abbrev pub IsSorted : List ℕ → Type 0
IsSorted [] = Unit
IsSorted (a ∷ xs) = All (λ b. a ≤ b) xs × IsSorted xs

abbrev pub IsSegment : ℕ → Type 0
IsSegment s = s ≤ max_int32

pub stored_segments-IsSegment : (ns : List ℤ) → All IsSegment (stored_segments ns)
unfolding stored_segments
stored_segments-IsSegment [] = tt
stored_segments-IsSegment (pos n ∷ rest) = elim (Bool-cases (leb n max_int32)) [
  | inl fits ↦ rw fits (ground arith, stored_segments-IsSegment rest)
  | inr large ↦ rw large (stored_segments-IsSegment rest)
]
stored_segments-IsSegment (negsuc n ∷ rest) = stored_segments-IsSegment rest

module _ (P : ℕ → Type 0) where
  pub All-unseen : (seen xs : List ℕ) → All P xs → All P (unseen seen xs)
  unfolding unseen
  All-unseen seen [] h = tt
  All-unseen seen (s ∷ rest) (p, h) = elim (Bool-cases (any (λ t. t == s) seen)) [
    | inl before ↦
        let same : unseen seen (s ∷ rest) ≡ unseen seen rest = rw (before, unseen) in
        subst (All P) (sym same) (All-unseen seen rest h)
    | inr new ↦
        let same : unseen seen (s ∷ rest) ≡ s ∷ unseen (s ∷ seen) rest = rw (new, unseen) in
        subst (All P) (sym same) (p, All-unseen (s ∷ seen) rest h)
  ]

  pub All-insert : (a : ℕ) (xs : List ℕ) → P a → All P xs → All P (insert a xs)
  unfolding insert
  All-insert a [] p h = (p, tt)
  All-insert a (b ∷ xs) p (q, h) = elim (Bool-cases (leb a b)) [
    | inl first ↦ rw first (p, (q, h))
    | inr later ↦ rw later (q, All-insert a xs p h)
  ]

  pub All-sort_ints : (xs : List ℕ) → All P xs → All P (sort_ints xs)
  unfolding sort_ints
  All-sort_ints [] h = tt
  All-sort_ints (a ∷ xs) (p, h) = All-insert a (sort_ints xs) p (All-sort_ints xs h)

lower_bound : (a b : ℕ) (xs : List ℕ) → a ≤ b → All (λ c. b ≤ c) xs → All (λ c. a ≤ c) xs
lower_bound a b [] h k = tt
lower_bound a b (c ∷ xs) h (k, ks) = (omega (arith, h, k), lower_bound a b xs h ks)

pub insert-IsSorted : (a : ℕ) (xs : List ℕ) → IsSorted xs → IsSorted (insert a xs)
unfolding insert
insert-IsSorted a [] h = (tt, tt)
insert-IsSorted a (b ∷ xs) (low, h) = elim (Bool-cases (leb a b)) [
  | inl first ↦
      let le : a ≤ b = ground arith in rw first ((le, lower_bound a b xs le low), (low, h))
  | inr later ↦
      let le : b ≤ a = ground arith in
      rw later (All-insert (λ c. b ≤ c) a xs le low, insert-IsSorted a xs h)
]

pub sort_ints-IsSorted : (xs : List ℕ) → IsSorted (sort_ints xs)
unfolding sort_ints
sort_ints-IsSorted [] = tt
sort_ints-IsSorted (a ∷ xs) = insert-IsSorted a (sort_ints xs) (sort_ints-IsSorted xs)
