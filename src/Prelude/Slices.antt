-- ===== src/Prelude/Slices.antt =====
-- Go slices that share their array: removing an element moves the later ones down in place.
use Prim.Native.Nat.{ℕ, zero, suc, ◌+◌, ◌-◌, ◌≤◌, ◌<◌}
use mathlib.Core.Path.{◌≡◌, refl, sym, ap, ◌∙◌}
use mathlib.Core.List.{List, [], ◌∷◌, ◌++◌}
use native.Mathlib.Omega.{arith}
use iip.Prelude.Lists.{length, length-append, take, drop, length-take, length-drop}

-- `items` is the array from the slice's start on; the slice has the first `size` of it.
pub record Slice {ℓ} (A : Type ℓ) : Type ℓ where
  pub items : List A
  pub size : ℕ

module _ {ℓ} {A : Type ℓ} where
  abbrev pub whole : List A → Slice A
  whole xs = record { items = xs; size = length xs }

  abbrev pub view : Slice A → List A
  view s = take s.size s.items

  -- append(s[:i], s[i+1:]...): the array keeps what lies behind the new end.
  abbrev pub cut : ℕ → Slice A → Slice A
  cut i s = record {
    items = (take i s.items ++ drop (i + 1) (take s.size s.items)) ++ drop (s.size - 1) s.items;
    size = s.size - 1;
  }

  -- A list without the element at an index.
  abbrev pub without : ℕ → List A → List A
  without zero [] = []
  without zero (x ∷ xs) = xs
  without (suc i) [] = []
  without (suc i) (x ∷ xs) = x ∷ without i xs

  take-append : (xs ys : List A) (n : ℕ) → n ≡ length xs → take n (xs ++ ys) ≡ xs
  take-append [] ys zero h = refl
  take-append [] ys (suc n) h = absurd (omega (arith, h))
  take-append (x ∷ xs) ys zero h = absurd (omega (arith, h))
  take-append (x ∷ xs) ys (suc n) h = ap (λ t. x ∷ t) (take-append xs ys n (omega (arith, h)))

  pub without-parts : (i : ℕ) (xs : List A) → take i xs ++ drop (i + 1) xs ≡ without i xs
  without-parts zero [] = refl
  without-parts zero (x ∷ xs) = refl
  without-parts (suc i) [] = let one : suc i + 1 ≡ suc (i + 1) = omega arith in rw one refl
  without-parts (suc i) (x ∷ xs) =
      let one : suc i + 1 ≡ suc (i + 1) = omega arith in
      rw one (ap (λ t. x ∷ t) (without-parts i xs))

  take-take : (i n : ℕ) (xs : List A) → i ≤ n → take i (take n xs) ≡ take i xs
  take-take zero n xs h = refl
  take-take (suc i) zero xs h = absurd (omega (arith, h))
  take-take (suc i) (suc n) [] h = refl
  take-take (suc i) (suc n) (x ∷ xs) h = ap (λ t. x ∷ t) (take-take i n xs (omega (arith, h)))

  take-none : (n : ℕ) → take {A = A} n [] ≡ []
  take-none zero = refl
  take-none (suc n) = refl

  -- What a slice holds after an element was removed.
  pub view-cut :
      (i : ℕ) (s : Slice A)
      → i < s.size
      → s.size ≤ length s.items
      → view (cut i s) ≡ without i (view s)
  view-cut i s h l =
      let front = take i s.items ++ drop (i + 1) (take s.size s.items) in
      take-append front (drop (s.size - 1) s.items) (s.size - 1) (
        omega (
          arith,
          h,
          l,
          length-append (take i s.items) (drop (i + 1) (take s.size s.items)),
          length-take i s.items,
          length-drop (i + 1) (take s.size s.items),
          length-take s.size s.items,
        ))
      ∙ ap (λ t. t ++ drop (i + 1) (take s.size s.items))
          (sym (take-take i s.size s.items (omega (arith, h))))
      ∙ without-parts i (take s.size s.items)

  -- The slice on the front of its array alone.
  abbrev pub short : ℕ → Slice A → Slice A
  short n s = record { items = take n s.items; size = s.size }

  pub view-short : (n : ℕ) (s : Slice A) → s.size ≤ n → view (short n s) ≡ view s
  view-short n s h = take-take s.size n s.items h

  take-past :
      (xs ys : List A) (n : ℕ) → length xs ≤ n → take n (xs ++ ys) ≡ xs ++ take (n - length xs) ys
  take-past [] ys n h = let same : n ≡ n - 0 = omega arith in ap (λ (k : ℕ). take k ys) same
  take-past (x ∷ xs) ys zero h = absurd (omega (arith, h))
  take-past (x ∷ xs) ys (suc n) h =
      let same : n - length xs ≡ suc n - suc (length xs) = omega arith in
      ap (λ t. x ∷ t) (take-past xs ys n (omega (arith, h)))
      ∙ ap (λ (k : ℕ). x ∷ (xs ++ take k ys)) same

  drop-take : (k n : ℕ) (xs : List A) → k ≤ n → drop k (take n xs) ≡ take (n - k) (drop k xs)
  drop-take zero n xs h = let same : n ≡ n - 0 = omega arith in ap (λ (j : ℕ). take j xs) same
  drop-take (suc k) zero xs h = absurd (omega (arith, h))
  drop-take (suc k) (suc n) [] h = sym (take-none (suc n - suc k))
  drop-take (suc k) (suc n) (x ∷ xs) h =
      let same : n - k ≡ suc n - suc k = omega arith in
      drop-take k n xs (omega (arith, h)) ∙ ap (λ (j : ℕ). take j (drop k xs)) same

  -- Removing an element of the slice does not touch the array behind it.
  pub cut-short :
      (i n : ℕ) (s : Slice A)
      → i < s.size
      → s.size ≤ n
      → s.size ≤ length s.items
      → cut i (short n s) ≡ short n (cut i s)
  cut-short i n s h within l =
      let front = take i s.items ++ drop (i + 1) (take s.size s.items) in
      let size : length front ≡ s.size - 1 = omega (
        arith,
        h,
        l,
        length-append (take i s.items) (drop (i + 1) (take s.size s.items)),
        length-take i s.items,
        length-drop (i + 1) (take s.size s.items),
        length-take s.size s.items,
      ) in
      let back = drop (s.size - 1) s.items in
      let items_are =
        ap
          (λ t.
            (t ++ drop (i + 1) (take s.size (take n s.items)))
            ++ drop (s.size - 1) (take n s.items))
          (take-take i n s.items (omega (arith, h, within)))
        ∙ ap (λ t. (take i s.items ++ drop (i + 1) t) ++ drop (s.size - 1) (take n s.items))
            (take-take s.size n s.items within)
        ∙ ap (λ t. front ++ t) (drop-take (s.size - 1) n s.items (omega (arith, within)))
        ∙ ap (λ (k : ℕ). front ++ take (n - k) back) (sym size)
        ∙ sym (take-past front back n (omega (arith, size, within))) in
      ap (λ t. record { items = t; size = s.size - 1 }) items_are

  pub length-cut :
      (i : ℕ) (s : Slice A)
      → i < s.size
      → s.size ≤ length s.items
      → length (cut i s).items ≡ length s.items
  length-cut i s h l =
      let front = take i s.items ++ drop (i + 1) (take s.size s.items) in
      omega (
        arith,
        h,
        l,
        length-append front (drop (s.size - 1) s.items),
        length-append (take i s.items) (drop (i + 1) (take s.size s.items)),
        length-take i s.items,
        length-drop (i + 1) (take s.size s.items),
        length-take s.size s.items,
        length-drop (s.size - 1) s.items,
      )

  pub view-whole : (xs : List A) → view (whole xs) ≡ xs
  view-whole [] = refl
  view-whole (x ∷ xs) = ap (λ t. x ∷ t) (view-whole xs)

  pub without-middle :
      (front back : List A) (a : A) → without (length front) (front ++ (a ∷ back)) ≡ front ++ back
  without-middle [] back a = refl
  without-middle (w ∷ front) back a = ap (λ t. w ∷ t) (without-middle front back a)

  -- A list behind an element that is left out.
  pub drop-behind :
      (front back : List A) (a : A) (n k : ℕ)
      → n ≡ length front + suc k
      → drop n (front ++ (a ∷ back)) ≡ drop k back
  drop-behind [] back a zero k h = absurd (omega (arith, h))
  drop-behind [] back a (suc n) k h =
      let same : n ≡ k = omega (arith, h) in ap (λ (j : ℕ). drop j back) same
  drop-behind (w ∷ front) back a zero k h = absurd (omega (arith, h))
  drop-behind (w ∷ front) back a (suc n) k h = drop-behind front back a n k (omega (arith, h))

  -- What the array holds after an element in the middle was removed: the others, and the last once
  -- more, or the element itself where it was the last.
  pub items-cut :
      (front back : List A) (a : A)
      → (cut (length front) (whole (front ++ (a ∷ back)))).items
        ≡ (front ++ back) ++ drop (length front + length back) (front ++ (a ∷ back))
  items-cut front back a =
      let xs = front ++ (a ∷ back) in
      let one_less : length xs - 1 ≡ length front + length back =
        omega (arith, length-append front (a ∷ back)) in
      ap (λ t. (take (length front) xs ++ drop (length front + 1) t) ++ drop (length xs - 1) xs)
        (view-whole xs)
      ∙ ap (λ t. t ++ drop (length xs - 1) xs)
          (without-parts (length front) xs ∙ without-middle front back a)
      ∙ ap (λ (n : ℕ). (front ++ back) ++ drop n xs) one_less
