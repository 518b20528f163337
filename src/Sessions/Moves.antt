-- ===== src/Sessions/Moves.antt =====
-- `reorderSessionTabs` of apps/desktop/src/store/sessions-store.ts moves one tab: lemmas on its splices.
use terminal_workspace.Common.{
  ℕ, zero, suc, ◌+◌, ◌≤◌, ◌<◌, ◌≡◌, refl, ◌∙◌, ap, some, List, [], ◌∷◌, ◌++◌, All, arith, length,
  get_elem?,
}
use terminal_workspace.Sessions.Tabs.{splice_out, splice_in, move_tab}

module _ {ℓ} {A : Type ℓ} where
  pub get_elem?-some : (xs : List A) (i : ℕ) → i < length xs → (x : A) × (get_elem? xs i ≡ some x)
  get_elem?-some [] i h = elim h [ ]
  get_elem?-some (x ∷ xs) zero h = (x, refl)
  get_elem?-some (x ∷ xs) (suc i) h = get_elem?-some xs i (omega arith)

  -- Taking an element out and putting it back restores the list.
  pub splice_in-splice_out :
      (i : ℕ) (x : A) (xs : List A) → get_elem? xs i ≡ some x → splice_in i x (splice_out i xs) ≡ xs
  unfolding splice_in splice_out
  splice_in-splice_out i x [] h = cc
  splice_in-splice_out zero x (y ∷ xs) h = ground arith
  splice_in-splice_out (suc i) x (y ∷ xs) h = ap (◌∷◌ y) (splice_in-splice_out i x xs h)

  -- Putting an element in and taking it out restores the list.
  pub splice_out-splice_in :
      (i : ℕ) (x : A) (xs : List A) → i ≤ length xs → splice_out i (splice_in i x xs) ≡ xs
  unfolding splice_in splice_out
  splice_out-splice_in zero x xs h = refl
  splice_out-splice_in (suc i) x [] h = absurd (omega arith)
  splice_out-splice_in (suc i) x (y ∷ xs) h = ap (◌∷◌ y) (splice_out-splice_in i x xs (omega arith))

  pub get_elem?-splice_in :
      (i : ℕ) (x : A) (xs : List A) → i ≤ length xs → get_elem? (splice_in i x xs) i ≡ some x
  unfolding splice_in
  get_elem?-splice_in zero x xs h = refl
  get_elem?-splice_in (suc i) x [] h = absurd (omega arith)
  get_elem?-splice_in (suc i) x (y ∷ xs) h = get_elem?-splice_in i x xs (omega arith)

  pub length-splice_out :
      (i : ℕ) (xs : List A) → i < length xs → length (splice_out i xs) + 1 ≡ length xs
  unfolding splice_out
  length-splice_out i [] h = elim h [ ]
  length-splice_out zero (x ∷ xs) h = omega arith
  length-splice_out (suc i) (x ∷ xs) h = omega (arith, length-splice_out i xs (omega arith))

  pub length-splice_in : (i : ℕ) (x : A) (xs : List A) → length (splice_in i x xs) ≡ length xs + 1
  unfolding splice_in
  length-splice_in zero x xs = omega arith
  length-splice_in (suc i) x [] = omega arith
  length-splice_in (suc i) x (y ∷ xs) = omega (arith, length-splice_in i x xs)

  module _ (m n : ℕ) (xs : List A) (from : m < length xs) (to : n < length xs) where
    -- The moved element, and the list without it.
    move_tab-splices :
        (x : A) → get_elem? xs m ≡ some x → move_tab m n xs ≡ splice_in n x (splice_out m xs)
    unfolding move_tab
    move_tab-splices x e = rw (e, move_tab)

    fits : n ≤ length (splice_out m xs)
    fits = omega (arith, length-splice_out m xs from)

    -- The element of the old place stands at the new place.
    pub get_elem?-move_tab : get_elem? (move_tab m n xs) n ≡ get_elem? xs m
    get_elem?-move_tab =
        let (x, e) = get_elem?-some xs m from in
        rw (move_tab-splices x e, e) (get_elem?-splice_in n x (splice_out m xs) fits)

    pub length-move_tab : length (move_tab m n xs) ≡ length xs
    length-move_tab =
        let (x, e) = get_elem?-some xs m from in
        rw (move_tab-splices x e)
          (omega (arith, length-splice_in n x (splice_out m xs), length-splice_out m xs from))

    pub splice_out-move_tab : splice_out n (move_tab m n xs) ≡ splice_out m xs
    splice_out-move_tab =
        let (x, e) = get_elem?-some xs m from in
        rw (move_tab-splices x e) (splice_out-splice_in n x (splice_out m xs) fits)

  -- Moving back restores the list.
  pub move_tab-move_tab :
      (m n : ℕ) (xs : List A) → m < length xs → n < length xs → move_tab n m (move_tab m n xs) ≡ xs
  move_tab-move_tab m n xs from to =
      let (x, e) = get_elem?-some xs m from in
      let len = length-move_tab m n xs from to in
      move_tab-splices n m (move_tab m n xs) (rw len to) (rw len from) x
        (get_elem?-move_tab m n xs from to ∙ e)
      ∙ (rw (splice_out-move_tab m n xs from to) (splice_in-splice_out m x xs e))

  -- A measure of lists that adds up over `++` is not changed by a move.
  module _ (g : List A → ℕ) (adds : (xs ys : List A) → g (xs ++ ys) ≡ g xs + g ys) where
    measure-splice_in : (i : ℕ) (x : A) (xs : List A) → g (splice_in i x xs) ≡ g (x ∷ []) + g xs
    unfolding splice_in
    measure-splice_in zero x xs = adds (x ∷ []) xs
    measure-splice_in (suc i) x [] = omega (arith, adds (x ∷ []) [])
    measure-splice_in (suc i) x (y ∷ xs) =
        omega (arith, measure-splice_in i x xs, adds (y ∷ []) (splice_in i x xs), adds (y ∷ []) xs)

    pub measure-move_tab :
        (m n : ℕ) (xs : List A) → m < length xs → n < length xs → g (move_tab m n xs) ≡ g xs
    measure-move_tab m n xs from to =
        let (x, e) = get_elem?-some xs m from in
        rw (move_tab-splices m n xs from to x e) (
          omega (
            arith,
            measure-splice_in n x (splice_out m xs),
            measure-splice_in m x (splice_out m xs),
            ap g (splice_in-splice_out m x xs e),
          ))

  module _ {κ} (P : A → Type κ) where
    splice_in-All : (i : ℕ) (x : A) (xs : List A) → P x → All P xs → All P (splice_in i x xs)
    unfolding splice_in
    splice_in-All zero x xs h a = (h, a)
    splice_in-All (suc i) x [] h a = (h, a)
    splice_in-All (suc i) x (y ∷ xs) h a = (a.0, splice_in-All i x xs h a.1)

    splice_out-All : (i : ℕ) (xs : List A) → All P xs → All P (splice_out i xs)
    unfolding splice_out
    splice_out-All i [] a = elim i as (λ k. All P (splice_out {A = A} k [])) [
      | zero ↦ tt
      | suc k ↦ tt
    ]
    splice_out-All zero (y ∷ xs) a = a.1
    splice_out-All (suc i) (y ∷ xs) a = (a.0, splice_out-All i xs a.1)

    get_elem?-All : (i : ℕ) (x : A) (xs : List A) → get_elem? xs i ≡ some x → All P xs → P x
    get_elem?-All i x [] h a = cc
    get_elem?-All zero x (y ∷ xs) h a = let e : y ≡ x = ground arith in rw (← e) a.0
    get_elem?-All (suc i) x (y ∷ xs) h a = get_elem?-All i x xs h a.1

    pub move_tab-All :
        (m n : ℕ) (xs : List A) → m < length xs → n < length xs → All P xs → All P (move_tab m n xs)
    move_tab-All m n xs from to a =
        let (x, e) = get_elem?-some xs m from in
        rw (move_tab-splices m n xs from to x e)
          (splice_in-All n x (splice_out m xs) (get_elem?-All m x xs e a) (splice_out-All m xs a))
