-- ===== src/Terminal/History.antt =====
-- A history that keeps its last `limit` lines: what the ring of captured lines stands for.
use cubicle.Base.{
  length-append, drop, arith, [], List, ◌-◌, ◌∷◌, ◌++◌, length, ◌≤◌, ℕ, length-drop, min, ◌≡◌,
  drop-drop, drop-append, sym, ◌<◌,
}

module _ {ℓ} {A : Type ℓ} where
  -- The last `n` of a list.
  unfoldable pub last : ℕ → List A → List A
  last n xs = drop (length xs - n) xs

  -- One more line, and the oldest gives way where there are too many.
  unfoldable pub remember : ℕ → List A → A → List A
  unfolding last
  remember limit xs x = last limit (xs ++ x ∷ [])

  pub length-last : (n : ℕ) (xs : List A) → length (last n xs) ≡ min n (length xs)
  unfolding last
  length-last n xs = rw length-drop (omega arith)

  pub last-all : (n : ℕ) (xs : List A) → length xs ≤ n → last n xs ≡ xs
  unfolding last
  last-all n xs h = let e : length xs - n ≡ 0 = omega arith in rw e

  -- Forgetting early or late is the same.
  pub last-append-last : (n : ℕ) (xs ys : List A) → last n (last n xs ++ ys) ≡ last n (xs ++ ys)
  unfolding last
  last-append-last n xs ys =
      let cut = length xs - n in
      let front : drop cut (xs ++ ys) ≡ drop cut xs ++ ys = drop-append cut xs ys (omega arith) in
      rw (← front) (
        sym (
          drop-drop cut (length (drop cut (xs ++ ys)) - n) (length (xs ++ ys) - n) (xs ++ ys)
            (omega (arith, length-drop cut (xs ++ ys), length-append xs ys))))

  pub last-length : (n : ℕ) (xs : List A) → n ≡ length xs → last n xs ≡ xs
  last-length n xs e = last-all n xs (omega arith)

  pub remember-full :
      (limit : ℕ) (xs : List A) (x : A)
      → length xs ≡ limit
      → 0 < limit
      → remember limit xs x ≡ drop 1 xs ++ x ∷ []
  unfolding remember
  remember-full limit xs x full pos =
      let one_more : length (xs ++ x ∷ []) - limit ≡ 1 = omega (arith, length-append xs (x ∷ [])) in
      rw one_more (drop-append 1 xs (x ∷ []) (omega arith))

  pub remember-room :
      (limit : ℕ) (xs : List A) (x : A) → length xs < limit → remember limit xs x ≡ xs ++ x ∷ []
  unfolding remember
  remember-room limit xs x room =
      last-all limit (xs ++ x ∷ []) (omega (arith, length-append xs (x ∷ [])))
