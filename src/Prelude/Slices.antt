-- ===== src/Prelude/Slices.antt =====
-- Slices of lists, as Python's `xs[a:b]`, over the native numbers.
use Prim.Native.Nat.{ℕ, zero, suc, ◌+◌, ◌-◌, ◌≤◌}
use mathlib.Core.Path.{◌≡◌, refl, ap}
use mathlib.Core.Bool.{true}
use mathlib.Core.List.{List, [], ◌∷◌, ◌++◌}
use native.Mathlib.Omega.{arith}
use voucher_management_deskt.Prelude.Lists.{length, length-append, is_nil}

module _ {ℓ} {A : Type ℓ} where
  abbrev pub take : ℕ → List A → List A
  take (suc n) (x ∷ xs) = x ∷ take n xs
  take _ _ = []

  abbrev pub drop : ℕ → List A → List A
  drop zero xs = xs
  drop (suc n) [] = []
  drop (suc n) (x ∷ xs) = drop n xs

  pub take-append-drop : (n : ℕ) (xs : List A) → take n xs ++ drop n xs ≡ xs
  take-append-drop zero xs = refl
  take-append-drop (suc n) [] = refl
  take-append-drop (suc n) (x ∷ xs) = ap (λ l. x ∷ l) (take-append-drop n xs)

  pub drop-drop : (m n k : ℕ) (xs : List A) → k ≡ m + n → drop n (drop m xs) ≡ drop k xs
  drop-drop zero n k xs h = ap (λ j. drop j xs) (omega arith)
  drop-drop (suc m) zero zero [] h = refl
  drop-drop (suc m) zero (suc k) [] h = refl
  drop-drop (suc m) (suc n) zero [] h = refl
  drop-drop (suc m) (suc n) (suc k) [] h = refl
  drop-drop (suc m) n zero (x ∷ xs) h = ground arith
  drop-drop (suc m) n (suc k) (x ∷ xs) h = drop-drop m n k xs (omega arith)

  pub length-take : (n : ℕ) (xs : List A) → length (take n xs) ≤ n
  length-take zero xs = omega arith
  length-take (suc n) [] = omega arith
  length-take (suc n) (x ∷ xs) = omega (arith, length-take n xs)

  pub drop-length-take : (n : ℕ) (xs : List A) → drop (length (take n xs)) xs ≡ drop n xs
  drop-length-take zero xs = refl
  drop-length-take (suc n) [] = refl
  drop-length-take (suc n) (x ∷ xs) = drop-length-take n xs

  pub length-drop : (n : ℕ) (xs : List A) → length (drop n xs) ≡ length xs - n
  length-drop zero xs = omega arith
  length-drop (suc n) [] = omega arith
  length-drop (suc n) (x ∷ xs) = omega (arith, length-drop n xs)

  -- a slice from a positive size is empty only behind the last element
  pub length-take-is_nil :
      (size : ℕ) (xs : List A) → 1 ≤ size → is_nil (take size xs) ≡ true → length xs ≡ 0
  length-take-is_nil zero xs h e = omega arith
  length-take-is_nil (suc size) [] h e = refl
  length-take-is_nil (suc size) (x ∷ xs) h e = ground arith

  pub length-zero : (xs : List A) → length xs ≤ 0 → xs ≡ []
  length-zero [] h = refl
  length-zero (x ∷ xs) h = ground arith

  pub length-take-drop :
      (offset size : ℕ) (xs : List A)
      → offset ≤ length xs
      → offset + length (take size (drop offset xs)) ≤ length xs
  length-take-drop offset size xs h = omega (
    arith,
    length-drop offset xs,
    length-append (take size (drop offset xs)) (drop size (drop offset xs)),
    ap length (take-append-drop size (drop offset xs)),
  )
