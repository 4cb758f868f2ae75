-- ===== src/Price/Twap/Order.antt =====
-- Lists of observations in ascending order of slot and time, as price/twap.go keeps them.
use shai.Prelude.{
  ℕ, zero, suc, ◌≤◌, ◌<◌, ◌≡◌, refl, false, List, [], ◌∷◌, ◌++◌, some, arith, All, All-append, drop,
  get_last?, length,
}
use shai.Price.Twap.{Observation, is_late}

abbrev pub Before : Observation → Observation → Type 0
Before x y = (x.slot < y.slot) × (x.at < y.at)

abbrev pub Ascending : List Observation → Type 0
Ascending [] = Unit
Ascending (x ∷ xs) = All (Before x) xs × Ascending xs

pub Ascending-snoc :
    (xs : List Observation) (o : Observation)
    → Ascending xs
    → All (λ x. Before x o) xs
    → Ascending (xs ++ o ∷ [])
Ascending-snoc [] o h k = (tt, tt)
Ascending-snoc (x ∷ xs) o h k =
    (All-append (Before x) xs (o ∷ []) h.0 (k.0, tt), Ascending-snoc xs o h.1 k.1)

pub Ascending-drop : (n : ℕ) (xs : List Observation) → Ascending xs → Ascending (drop n xs)
Ascending-drop zero xs h = h
Ascending-drop (suc n) [] h = h
Ascending-drop (suc n) (x ∷ xs) h = Ascending-drop n xs h.1

All-Before_trans :
    (x o : Observation) (xs : List Observation) → Before x o → All (Before o) xs → All (Before x) xs
All-Before_trans x o [] h k = tt
All-Before_trans x o (y ∷ ys) h k = (omega arith, All-Before_trans x o ys h k.1)

-- No observation is later than the last one.
pub up_to_last :
    (xs : List Observation) (l : Observation)
    → Ascending xs
    → get_last? xs ≡ some l
    → All (λ x. (x.slot ≤ l.slot) × (x.at ≤ l.at)) xs
up_to_last [] l h e = tt
up_to_last (x ∷ []) l h e = (ground arith, tt)
up_to_last (x ∷ y ∷ ys) l h e =
    let rest = up_to_last (y ∷ ys) l h.1 e in (omega (arith, rest.0, h.0.0), rest)

-- An observation that is not late stands behind all others.
pub Before-new :
    (xs : List Observation) (o : Observation)
    → Ascending xs
    → is_late (get_last? xs) o.slot o.at ≡ false
    → All (λ x. Before x o) xs
unfolding is_late
Before-new [] o h e = tt
Before-new (x ∷ []) o h e = (ground arith, tt)
Before-new (x ∷ y ∷ ys) o h e =
    let rest = Before-new (y ∷ ys) o h.1 e in (omega (arith, rest.0, h.0.0), rest)

pub get_last?-drop {ℓ} :
    {A : Type ℓ} (n : ℕ) (xs : List A) → n < length xs → get_last? (drop n xs) ≡ get_last? xs
get_last?-drop zero xs h = refl
get_last?-drop (suc n) [] h = refl
get_last?-drop (suc n) (x ∷ []) h = absurd (omega arith)
get_last?-drop (suc n) (x ∷ y ∷ ys) h = get_last?-drop n (y ∷ ys) (omega arith)
