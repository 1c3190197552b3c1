-- ===== src/Client/ActiveWords/Buckets.antt =====
-- One chain, and one chain among many.
use mathlib.Core.Option
use rain_typing_game.Prelude.{
  ℕ, zero, suc, ◌+◌, ◌<◌, ◌≡◌, ◌≢◌, refl, ap, not, ◌&&◌, ◌||◌, true, false, Option, none, some,
  List, [], ◌∷◌, Bytes, length, get_or, set, arith, str_eq, str_eq_sound, strcmp-eq, strcmp_refl,
  Bool-cases, inl, inr,
}
use rain_typing_game.Client.ActiveWords.{find_in_chain, remove_from_chain}

module _ {ℓ} {A : Type ℓ} where
  pub get_or-set_same :
      (xs : List A) (i : ℕ) (v d : A) → i < length xs → get_or (set xs i v) i d ≡ v
  get_or-set_same [] i v d h = absurd (omega arith)
  get_or-set_same (x ∷ xs) zero v d h = refl
  get_or-set_same (x ∷ xs) (suc i) v d h = get_or-set_same xs i v d (omega arith)

  pub get_or-set_other :
      (xs : List A) (i j : ℕ) (v d : A) → i ≢ j → get_or (set xs i v) j d ≡ get_or xs j d
  get_or-set_other [] i j v d h = refl
  get_or-set_other (x ∷ xs) zero zero v d h = absurd (h refl)
  get_or-set_other (x ∷ xs) zero (suc j) v d h = refl
  get_or-set_other (x ∷ xs) (suc i) zero v d h = refl
  get_or-set_other (x ∷ xs) (suc i) (suc j) v d h = get_or-set_other xs i j v d (λ e. h (ap suc e))

-- The nodes of all chains.
abbrev pub nodes : List (List Bytes) → ℕ
nodes [] = 0
nodes (c ∷ cs) = length c + nodes cs

pub nodes-set :
    (cs : List (List Bytes)) (i : ℕ) (c : List Bytes)
    → i < length cs
    → nodes (set cs i c) + length (get_or cs i []) ≡ nodes cs + length c
nodes-set [] i c h = absurd (omega arith)
nodes-set (x ∷ cs) zero c h = omega arith
nodes-set (x ∷ cs) (suc i) c h = omega (arith, nodes-set cs i c (omega arith))

-- No word stands in two nodes.
abbrev pub IsDistinct : List Bytes → Type 0
IsDistinct [] = Unit
IsDistinct (w ∷ ws) = (find_in_chain ws w ≡ false) × IsDistinct ws

-- What taking a word out of a chain does to it.
abbrev pub Removed : List Bytes → Bytes → Option (List Bytes) → Type 0
Removed ws word none = find_in_chain ws word ≡ false
Removed ws word (some rest) =
    (find_in_chain ws word ≡ true)
    × (length ws ≡ length rest + 1)
    × IsDistinct rest
    × ((v : Bytes) → find_in_chain rest v ≡ (find_in_chain ws v && not (str_eq v word)))

pub find_in_chain_cons :
    (w v : Bytes) (ws : List Bytes) → find_in_chain (w ∷ ws) v ≡ (str_eq w v || find_in_chain ws v)
unfolding find_in_chain
find_in_chain_cons w v ws = ground arith

Removed-cons :
    (w word : Bytes) (ws : List Bytes) (r : Option (List Bytes))
    → find_in_chain ws w ≡ false
    → str_eq w word ≡ false
    → Removed ws word r
    → Removed (w ∷ ws) word (Option.map (◌∷◌ w) r)
Removed-cons w word ws none fresh n h = ground (arith, find_in_chain_cons w word ws)
Removed-cons w word ws (some rest) fresh n (f, l, d, k) = (
  ground (arith, find_in_chain_cons w word ws),
  omega (arith, l),
  (ground (arith, k w, fresh), d),
  (λ v. ground (
    arith,
    k v,
    n,
    find_in_chain_cons w v ws,
    find_in_chain_cons w v rest,
    strcmp-eq w v,
    strcmp-eq v word,
    strcmp_refl word,
    n,
  )),
)

Removed-head :
    (w word : Bytes) (ws : List Bytes)
    → find_in_chain ws w ≡ false
    → IsDistinct ws
    → str_eq w word ≡ true
    → Removed (w ∷ ws) word (some ws)
Removed-head w word ws fresh d e = (
  ground (arith, find_in_chain_cons w word ws, e),
  omega arith,
  d,
  (λ v. ground (
    arith,
    find_in_chain_cons w v ws,
    fresh,
    e,
    str_eq_sound w word e,
    strcmp-eq w v,
    strcmp-eq v word,
    strcmp_refl word,
  )),
)

pub remove_from_chain-Removed :
    (ws : List Bytes) (word : Bytes) → IsDistinct ws → Removed ws word (remove_from_chain ws word)
unfolding remove_from_chain
remove_from_chain-Removed [] word d = unfold find_in_chain in refl
remove_from_chain-Removed (w ∷ ws) word (fresh, d) = elim (Bool-cases (str_eq w word)) [
  | inl e ↦ rw e (Removed-head w word ws fresh d e)
  | inr e ↦ rw e (Removed-cons w word ws _ fresh e (remove_from_chain-Removed ws word d))
]
