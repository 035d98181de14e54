-- ===== src/Graphics/Reflection/Among.antt =====
-- What stands in a list.
use tcengine.Base.{ℕ, zero, suc, ◌<◌, ◌≡◌, ◌⊎◌, inl, inr, refl, arith}
use tcengine.Base.{List, [], ◌∷◌, ◌++◌, map, length, get_or}

unfoldable pub IsAmong : {A : Type 0} → A → List A → Type 0
IsAmong x [] = ⊥
IsAmong x (y ∷ ys) = (x ≡ y) ⊎ IsAmong x ys

pub IsAmong-append :
    {A : Type 0} (x : A) (xs ys : List A) → IsAmong x (xs ++ ys) → IsAmong x xs ⊎ IsAmong x ys
unfolding IsAmong
IsAmong-append x [] ys h = inr h
IsAmong-append x (y ∷ xs) ys (inl e) = inl (inl e)
IsAmong-append x (y ∷ xs) ys (inr h) = elim (IsAmong-append x xs ys h) [
  | inl a ↦ inl (inr a)
  | inr b ↦ inr b
]

pub IsAmong-left : {A : Type 0} (x : A) (xs ys : List A) → IsAmong x xs → IsAmong x (xs ++ ys)
unfolding IsAmong
IsAmong-left x [] ys h = absurd h
IsAmong-left x (y ∷ xs) ys (inl e) = inl e
IsAmong-left x (y ∷ xs) ys (inr h) = inr (IsAmong-left x xs ys h)

pub IsAmong-right : {A : Type 0} (x : A) (xs ys : List A) → IsAmong x ys → IsAmong x (xs ++ ys)
unfolding IsAmong
IsAmong-right x [] ys h = h
IsAmong-right x (y ∷ xs) ys h = inr (IsAmong-right x xs ys h)

pub IsAmong-get_or :
    {A : Type 0} (xs : List A) (i : ℕ) (d : A) → i < length xs → IsAmong (get_or xs i d) xs
unfolding IsAmong
IsAmong-get_or [] i d h = absurd (omega arith)
IsAmong-get_or (x ∷ xs) zero d h = inl refl
IsAmong-get_or (x ∷ xs) (suc i) d h = inr (IsAmong-get_or xs i d (omega arith))

pub IsAmong-map :
    {A B : Type 0} (f : A → B) (y : B) (xs : List A)
    → IsAmong y (map f xs)
    → (x : A) × IsAmong x xs × (y ≡ f x)
unfolding IsAmong
IsAmong-map f y [] h = absurd h
IsAmong-map f y (x ∷ xs) (inl e) = (x, inl refl, e)
IsAmong-map f y (x ∷ xs) (inr h) = let (z, among, e) = IsAmong-map f y xs h in (z, inr among, e)
