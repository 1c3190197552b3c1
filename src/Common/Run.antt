-- ===== src/Common/Run.antt =====
-- Code that may leave what C defines: a read through NULL or behind the end of an allocation.
use rain_typing_game.Prelude.{◌≡◌, refl, Bool, true, false, if◌then◌else◌}

pub data Run {ℓ} (A : Type ℓ) : Type ℓ where
  ok : A → Run A
  crash : Run A

infixl 5 ◌>>=◌
abbrev pub ◌>>=◌ {ℓ κ} : {A : Type ℓ} {B : Type κ} → Run A → (A → Run B) → Run B
ok a >>= f = f a
crash >>= f = crash

-- What holds of the result if the run has one.
abbrev pub Ensures {ℓ κ} : {A : Type ℓ} → (A → Type κ) → Run A → Type κ
Ensures P (ok a) = P a
Ensures P crash = Unit

pub Ensures->>= {ℓ κ μ} :
    {A : Type ℓ} {B : Type κ} (P : B → Type μ) (r : Run A) (f : A → Run B)
    → ((a : A) → Ensures P (f a))
    → Ensures P (r >>= f)
Ensures->>= P (ok a) f h = h a
Ensures->>= P crash f h = tt

pub Ensures-if {ℓ κ} :
    {A : Type ℓ} (P : A → Type κ) (b : Bool) (x y : Run A)
    → Ensures P x
    → Ensures P y
    → Ensures P (if b then x else y)
Ensures-if P true x y h k = h
Ensures-if P false x y h k = k

-- The same, where each branch knows which way the test went.
pub Ensures-if_cases {ℓ κ} :
    {A : Type ℓ} (P : A → Type κ) (b : Bool) (x y : Run A)
    → (b ≡ true → Ensures P x)
    → (b ≡ false → Ensures P y)
    → Ensures P (if b then x else y)
Ensures-if_cases P true x y h k = h refl
Ensures-if_cases P false x y h k = k refl

-- What holds of the result, or of where the code leaves what C defines.
abbrev pub Ends {ℓ} : {A : Type ℓ} → (A → Type 0) → Type 0 → Run A → Type 0
Ends P C (ok a) = P a
Ends P C crash = C

pub Ends->>= {ℓ κ} :
    {A : Type ℓ} {B : Type κ} (P : B → Type 0) (C : Type 0) (r : Run A) (f : A → Run B)
    → Ends (λ a. Ends P C (f a)) C r
    → Ends P C (r >>= f)
Ends->>= P C (ok a) f h = h
Ends->>= P C crash f h = h

pub Ends-weaken {ℓ} :
    {A : Type ℓ} (P Q : A → Type 0) (C D : Type 0) (r : Run A)
    → ((a : A) → P a → Q a)
    → (C → D)
    → Ends P C r
    → Ends Q D r
Ends-weaken P Q C D (ok a) f g h = f a h
Ends-weaken P Q C D crash f g h = g h

pub Ends-if_cases {ℓ} :
    {A : Type ℓ} (P : A → Type 0) (C : Type 0) (b : Bool) (x y : Run A)
    → (b ≡ true → Ends P C x)
    → (b ≡ false → Ends P C y)
    → Ends P C (if b then x else y)
Ends-if_cases P C true x y h k = h refl
Ends-if_cases P C false x y h k = k refl
