-- ===== src/Models/Writes/Tables.antt =====
-- Rows of a table after a write.
use mathlib.Core.List.{Memᴰ}
use mathlib.Core.Path.{subst}
use rtz_server.Base.{
  Bool, true, false, List, [], ◌∷◌, ◌++◌, ◌≡◌, refl, sym, ◌∙◌, ap, ◌⊎◌, inl, inr, ◌↔◌, any,
  if◌then◌else◌, arith, Bool-cases,
}
use rtz_server.Models.Writes.{changed_rows, other_rows}

pub Memᴰ-cons : {A : Type 0} {a b : A} {xs : List A} → Memᴰ a (b ∷ xs) → (a ≡ b) ⊎ Memᴰ a xs
Memᴰ-cons (Memᴰ.head e) = inl e
Memᴰ-cons (Memᴰ.tail m) = inr m

module _ {A : Type 0} where
  snoc_cases : (rows : List A) (a b : A) → Memᴰ b (rows ++ (a ∷ [])) → Memᴰ b rows ⊎ (b ≡ a)
  snoc_cases [] a b (Memᴰ.head e) = inr e
  snoc_cases [] a b (Memᴰ.tail m) = elim m [ ]
  snoc_cases (x ∷ rows) a b (Memᴰ.head e) = inl (Memᴰ.head e)
  snoc_cases (x ∷ rows) a b (Memᴰ.tail m) = elim (snoc_cases rows a b m) [
    | inl before ↦ inl (Memᴰ.tail before)
    | inr e ↦ inr e
  ]

  snoc_left : (rows : List A) (a b : A) → Memᴰ b rows → Memᴰ b (rows ++ (a ∷ []))
  snoc_left [] a b m = elim m [ ]
  snoc_left (x ∷ rows) a b (Memᴰ.head e) = Memᴰ.head e
  snoc_left (x ∷ rows) a b (Memᴰ.tail m) = Memᴰ.tail (snoc_left rows a b m)

  snoc_last : (rows : List A) (a b : A) → b ≡ a → Memᴰ b (rows ++ (a ∷ []))
  snoc_last [] a b e = Memᴰ.head e
  snoc_last (x ∷ rows) a b e = Memᴰ.tail (snoc_last rows a b e)

module _ {A : Type 0} (p : A → Bool) where
  -- A row after an update is a row that was changed, or one that was not.
  pub Memᴰ-changed_rows :
      (f : A → A) (rows : List A) (b : A)
      → Memᴰ b (changed_rows p f rows)
      → (a : A) × Memᴰ a rows × (b ≡ (if p a then f a else a))
  Memᴰ-changed_rows f [] b m = elim m [ ]
  Memᴰ-changed_rows f (a ∷ rows) b (Memᴰ.head e) = (a, Memᴰ.head refl, e)
  Memᴰ-changed_rows f (a ∷ rows) b (Memᴰ.tail m) =
      let (a', m', e) = Memᴰ-changed_rows f rows b m in (a', Memᴰ.tail m', e)

  pub changed_rows-Memᴰ :
      (f : A → A) (rows : List A) (a : A)
      → Memᴰ a rows
      → Memᴰ (if p a then f a else a) (changed_rows p f rows)
  changed_rows-Memᴰ f [] a m = elim m [ ]
  changed_rows-Memᴰ f (b ∷ rows) a (Memᴰ.head e) = Memᴰ.head (ap (λ x. if p x then f x else x) e)
  changed_rows-Memᴰ f (b ∷ rows) a (Memᴰ.tail m) = Memᴰ.tail (changed_rows-Memᴰ f rows a m)

  -- No row that the condition holds of is left.
  pub other_rows_none : (rows : List A) → any p (other_rows p rows) ≡ false
  other_rows_none [] = refl
  other_rows_none (a ∷ rows) = ground (arith, other_rows_none rows)

  -- Two updates of the same rows are one, if the first does not change which rows they are.
  pub changed_rows-changed_rows :
      (f g : A → A)
      → ((a : A) → p (f a) ≡ p a)
      → (rows : List A)
      → changed_rows p g (changed_rows p f rows) ≡ changed_rows p (λ a. g (f a)) rows
  changed_rows-changed_rows f g same [] = refl
  changed_rows-changed_rows f g same (a ∷ rows) = elim (Bool-cases (p a)) [
    | inl hit ↦
        rw (hit, same a, hit)
          (ap (λ rest. g (f a) ∷ rest) (changed_rows-changed_rows f g same rows))
    | inr miss ↦ rw (miss, miss) (ap (λ rest. a ∷ rest) (changed_rows-changed_rows f g same rows))
  ]

  pub changed_rows-same :
      (f : A → A) → ((a : A) → f a ≡ a) → (rows : List A) → changed_rows p f rows ≡ rows
  changed_rows-same f same [] = refl
  changed_rows-same f same (a ∷ rows) = elim (Bool-cases (p a)) [
    | inl hit ↦ rw (hit, same a) (ap (λ rest. a ∷ rest) (changed_rows-same f same rows))
    | inr miss ↦ rw miss (ap (λ rest. a ∷ rest) (changed_rows-same f same rows))
  ]

  -- The rows that are left are those that the condition does not hold of.
  pub Memᴰ-other_rows :
      (rows : List A) (a : A) → Memᴰ a (other_rows p rows) → Memᴰ a rows × (p a ≡ false)
  Memᴰ-other_rows [] a m = elim m [ ]
  Memᴰ-other_rows (b ∷ rows) a m = elim (Bool-cases (p b)) [
    | inl hit ↦
        let gone : other_rows p (b ∷ rows) ≡ other_rows p rows = rw hit in
        let (listed, miss) = Memᴰ-other_rows rows a (subst (λ t. Memᴰ a t) gone m) in
        (Memᴰ.tail listed, miss)
    | inr miss ↦
        let kept : other_rows p (b ∷ rows) ≡ b ∷ other_rows p rows = rw miss in
        elim (Memᴰ-cons (subst (λ t. Memᴰ a t) kept m)) [
          | inl same ↦ (Memᴰ.head same, ap p same ∙ miss)
          | inr later ↦
              let (listed, miss1) = Memᴰ-other_rows rows a later in (Memᴰ.tail listed, miss1)
        ]
  ]

  pub other_rows-Memᴰ :
      (rows : List A) (a : A) → Memᴰ a rows → p a ≡ false → Memᴰ a (other_rows p rows)
  other_rows-Memᴰ [] a m miss = elim m [ ]
  other_rows-Memᴰ (b ∷ rows) a (Memᴰ.head e) miss =
      let miss1 : p b ≡ false = ap p (sym e) ∙ miss in rw miss1 (Memᴰ.head e)
  other_rows-Memᴰ (b ∷ rows) a (Memᴰ.tail m) miss = elim (Bool-cases (p b)) [
    | inl hit ↦ rw hit (other_rows-Memᴰ rows a m miss)
    | inr keep ↦ rw keep (Memᴰ.tail (other_rows-Memᴰ rows a m miss))
  ]

-- A row of a table with one more row is a row of the table, or the new one.
pub Memᴰ-snoc :
    {A : Type 0} (rows : List A) (a b : A) → Memᴰ b (rows ++ (a ∷ [])) ↔ (Memᴰ b rows ⊎ (b ≡ a))
Memᴰ-snoc rows a b = (
  snoc_cases rows a b,
  λ h. elim h [ inl m ↦ snoc_left rows a b m | inr e ↦ snoc_last rows a b e ],
)

-- The rows after the rows of a kind have made place for a new one.
pub replaced_rows_iff :
    {A : Type 0} (p : A → Bool) (Q : A → Type 0) (rows rows' : List A) (new : A)
    → ((a : A) → (p a ≡ true) ↔ Q a)
    → rows' ≡ other_rows p rows ++ (new ∷ [])
    → (a : A) → Memᴰ a rows' ↔ ((Memᴰ a rows × ¬ Q a) ⊎ (a ≡ new))
replaced_rows_iff p Q rows rows' new test grown a = (
  λ m. elim ((Memᴰ-snoc (other_rows p rows) new a).0 (subst (λ t. Memᴰ a t) grown m)) [
    | inl before ↦
        let (listed, miss) = Memᴰ-other_rows p rows a before in
        inl (listed, λ q. let hit = (test a).1 q in let bad : true ≡ false = sym hit ∙ miss in cc)
    | inr last ↦ inr last
  ],
  λ h.
      subst (λ t. Memᴰ a t) (sym grown)
        ((Memᴰ-snoc (other_rows p rows) new a).1 (elim h [
          | inl (listed, other) ↦ elim (Bool-cases (p a)) [
            | inl hit ↦ absurd (other ((test a).0 hit))
            | inr miss ↦ inl (other_rows-Memᴰ p rows a listed miss)
          ]
          | inr last ↦ inr last
        ])),
)
