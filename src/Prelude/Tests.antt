-- ===== src/Prelude/Tests.antt =====
-- The conditional, Boolean tests, and predicates on lists by recursion.
use Prim.Native.Nat.{ℕ, suc, compare, Ordering, zero, ◌+◌}
use mathlib.Core.Path.{◌≡◌, refl, ap}
use mathlib.Core.Logic.{◌↔◌, ◌⊎◌, inl, inr}
use mathlib.Core.Bool.{Bool, true, false, not, ◌&&◌, ◌||◌}
use mathlib.Core.Option.{Option, none, some}
use mathlib.Core.List.{List, [], ◌∷◌, ◌++◌}
use native.Mathlib.Omega.{arith}

abbrev pub ltb : ℕ → ℕ → Bool
ltb a b = elim (compare a b) [ Ordering.lt ↦ true | _ ↦ false ]

abbrev pub leb : ℕ → ℕ → Bool
leb a b = elim (compare a b) [ Ordering.gt ↦ false | _ ↦ true ]

-- Equality of two numbers; `==` is that of two texts.
abbrev pub eqb : ℕ → ℕ → Bool
eqb a b = elim (compare a b) [ Ordering.eq ↦ true | _ ↦ false ]

infix 1 if◌then◌else◌
abbrev pub if◌then◌else◌ {ℓ} : {A : Type ℓ} → Bool → A → A → A
if true then x else y = x
if false then x else y = y

pub eqb→eq : (a b : ℕ) → eqb a b ≡ true → a ≡ b
eqb→eq a b h = ground arith

pub Bool-cases : (b : Bool) → (b ≡ true) ⊎ (b ≡ false)
Bool-cases true = inl refl
Bool-cases false = inr refl

pub and_left : (a b : Bool) → (a && b) ≡ true → a ≡ true
and_left a b h = ground arith

pub and_right : (a b : Bool) → (a && b) ≡ true → b ≡ true
and_right a b h = ground arith

pub or_left : (a b : Bool) → (a || b) ≡ false → a ≡ false
or_left a b h = ground arith

pub or_right : (a b : Bool) → (a || b) ≡ false → b ≡ false
or_right a b h = ground arith

-- What a Boolean test decides.
abbrev pub Decides : Bool → Type 0 → Type 0
Decides b P = (b ≡ true) ↔ P

pub and_iff : (a b : Bool) {P Q : Type 0} → Decides a P → Decides b Q → Decides (a && b) (P × Q)
and_iff true b p q = (λ h. (p.0 refl, q.0 h), λ h. q.1 h.1)
and_iff false b p q = (λ h. cc, λ h. cc (p.1 h.0))

pub not_iff : (a : Bool) {P : Type 0} → Decides a P → Decides (not a) (¬ P)
not_iff true p = (λ h. cc, λ n. absurd (n (p.0 refl)))
not_iff false p = (λ _ x. cc (p.1 x), λ _. refl)

pub if_iff :
    (a b : Bool) {P Q : Type 0}
    → Decides a P
    → Decides b Q
    → Decides (if a then true else b) (P ⊎ Q)
if_iff true b p q = (λ _. inl (p.0 refl), λ _. refl)
if_iff false b p q = (λ h. inr (q.0 h), elim [ inl x ↦ absurd (cc (p.1 x)) | inr y ↦ q.1 y ])

module _ {ℓ} {A : Type ℓ} where
  pub Option-cases : (o : Option A) → (o ≡ none) ⊎ ((a : A) × (o ≡ some a))
  Option-cases none = inl refl
  Option-cases (some a) = inr (a, refl)

  abbrev pub length : List A → ℕ
  length [] = 0
  length (x ∷ xs) = suc (length xs)

  abbrev pub take : ℕ → List A → List A
  take zero xs = []
  take (suc n) [] = []
  take (suc n) (x ∷ xs) = x ∷ take n xs

  pub length-append : (xs ys : List A) → length (xs ++ ys) ≡ length xs + length ys
  length-append [] ys = omega arith
  length-append (x ∷ xs) ys = let h = length-append xs ys in omega arith

  pub take-length : (n : ℕ) (xs : List A) → ltb n (length xs) ≡ false → take n xs ≡ xs
  take-length zero [] h = refl
  take-length zero (x ∷ xs) h = ground arith
  take-length (suc n) [] h = refl
  take-length (suc n) (x ∷ xs) h = ap (λ ys. x ∷ ys) (take-length n xs (ground arith))

  pub take_rest : (n : ℕ) (xs : List A) → (rest : List A) × (xs ≡ take n xs ++ rest)
  take_rest zero xs = (xs, refl)
  take_rest (suc n) [] = ([], refl)
  take_rest (suc n) (x ∷ xs) = let (rest, e) = take_rest n xs in (rest, ap (λ ys. x ∷ ys) e)

module _ {ℓ κ} {A : Type ℓ} (P : A → Type κ) where
  -- Every member satisfies `P`.
  abbrev pub All : List A → Type κ
  All [] = Unit
  All (x ∷ xs) = P x × All xs

-- Some member satisfies `P`.
abbrev pub Any {ℓ} : {A : Type ℓ} → (A → Type 0) → List A → Type 0
Any P [] = ⊥
Any P (x ∷ xs) = P x ⊎ Any P xs
