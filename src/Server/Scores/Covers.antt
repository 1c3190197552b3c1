-- ===== src/Server/Scores/Covers.antt =====
-- Which users get an entry from the loop, and that no user gets two.
use rain_typing_game.Prelude.{
  ℕ, zero, suc, ◌≤◌, ◌≡◌, ◌≢◌, inl, inr, refl, sym, ap, ◌∙◌, subst, true, false, List, [], ◌∷◌, map,
  Bytes, All, All-weaken, All-zip, length, arith, Bool-cases, str_copy, str_copy_all, str_eq,
  str_eq_sound, strcmp, strcmp-eq, strcmp_refl, Ordering,
}
use mathlib.Core.HLevel.{⊥_prop}
use mathlib.Core.List.{Mem, Nodup, mem-cons, not-mem-nil, Nodup-cons, Nodup-nil}
use mathlib.Core.Logic.Or
use rain_typing_game.Common.Protocol.{max_id_len, LeaderboardEntry}
use rain_typing_game.Server.Db.Scores.{ScoreRecord}
use rain_typing_game.Server.Scores.Sorting.{IsSorted}
use rain_typing_game.Server.Scores.{entry_of, collect}
use rain_typing_game.Server.Scores.Collect.{
  Fits, Goes, cmp, Goes-of_sorted, collect-full, collect-Made,
}

pub length-collect-le :
    (room : ℕ) (last : Bytes) (rs : List ScoreRecord) → length (collect room last rs) ≤ room
unfolding collect
length-collect-le room last [] = omega arith
length-collect-le zero last (r ∷ rs) = length-collect-le zero last rs
length-collect-le (suc room) last (r ∷ rs) = ground (
  arith,
  length-collect-le (suc room) last rs,
  length-collect-le room (str_copy max_id_len r.username) rs,
)

abbrev pub names : List LeaderboardEntry → List Bytes
names = map λ e. e.username

not-Mem-names :
    (user : Bytes) (es : List LeaderboardEntry)
    → All (λ e. strcmp user e.username ≡ Ordering.lt) es
    → ¬ Mem user (names es)
not-Mem-names user [] h m = not-mem-nil m
not-Mem-names user (e ∷ es) (below, h) m =
    Or.elim ⊥_prop (mem-cons.0 m) (λ same. ground (arith, strcmp_refl user, ap (strcmp user) same))
      (not-Mem-names user es h)

pub collect-Nodup :
    (room : ℕ) (last : Bytes) (rs : List ScoreRecord)
    → IsSorted cmp rs
    → Goes last rs
    → All Fits rs
    → Nodup (names (collect room last rs))
unfolding collect
collect-Nodup room last [] s g f = Nodup-nil
collect-Nodup zero last (r ∷ rs) s g f = rw (collect-full last rs) Nodup-nil
collect-Nodup (suc room) last (r ∷ rs) (h, s) (g, gs) (f, fs) =
    elim (Bool-cases (str_eq r.username last)) [
      | inl same ↦ rw (same, collect) (collect-Nodup (suc room) last rs s gs fs)
      | inr new ↦
          let goes = Goes-of_sorted r rs h in
          rw (new, collect)
            (rw (str_copy_all r.username f) (
              Nodup-cons.1 (
                not-Mem-names r.username _ (
                    All-weaken (λ e (below, best). below) _
                      (collect-Made room r.username rs s goes fs)),
                collect-Nodup room r.username rs s goes fs,
              )))
    ]

-- A user without an entry: the entries are as many as were asked for, and all of users whose names
-- come first.
abbrev pub Dropped : ℕ → List LeaderboardEntry → ScoreRecord → Type 0
Dropped room es r =
    ¬ Mem r.username (names es)
    → (length es ≡ room) × All (λ e. strcmp e.username r.username ≡ Ordering.lt) es

collect_same :
    (room : ℕ) (last : Bytes) (r : ScoreRecord) (rs : List ScoreRecord)
    → str_eq r.username last ≡ true
    → collect (suc room) last (r ∷ rs) ≡ collect (suc room) last rs
unfolding collect
collect_same room last r rs same = rw (same, collect)

collect_new :
    (room : ℕ) (last : Bytes) (r : ScoreRecord) (rs : List ScoreRecord)
    → str_eq r.username last ≡ false
    → Fits r
    → collect (suc room) last (r ∷ rs) ≡ entry_of r ∷ collect room r.username rs
unfolding collect
collect_new room last r rs new f = rw (new, collect) (rw (str_copy_all r.username f))

-- All records but those of the user just entered are covered.
abbrev pub Covers : ℕ → Bytes → List ScoreRecord → List LeaderboardEntry → Type 0
Covers room last rs es = All (λ r. r.username ≢ last → Dropped room es r) rs

Covers-full : (last : Bytes) (rs : List ScoreRecord) → Covers zero last rs []
Covers-full last [] = tt
Covers-full last (r ∷ rs) = ((λ other absent. (refl, tt)), Covers-full last rs)

Dropped-cons :
    (room : ℕ) (r y : ScoreRecord) (es : List LeaderboardEntry)
    → Fits r
    → strcmp r.username y.username ≢ Ordering.gt
    → (y.username ≢ r.username → Dropped room es y)
    → Dropped (suc room) (entry_of r ∷ es) y
Dropped-cons room r y es f goes ih absent =
    let kept : str_copy max_id_len r.username ≡ r.username = str_copy_all r.username f in
    let other : y.username ≢ r.username = λ e. absent (mem-cons.1 (Or.inl (e ∙ sym kept))) in
    let (full, below) = ih other (λ m. absent (mem-cons.1 (Or.inr m))) in
    (ap suc full, (rw kept (ground (arith, strcmp-eq r.username y.username)), below))

pub collect-Covers :
    (room : ℕ) (last : Bytes) (rs : List ScoreRecord)
    → IsSorted cmp rs
    → All Fits rs
    → Covers room last rs (collect room last rs)
collect-Covers room last [] s f = tt
collect-Covers zero last (r ∷ rs) s f =
    subst (Covers zero last (r ∷ rs)) (sym (collect-full last (r ∷ rs))) (Covers-full last (r ∷ rs))
collect-Covers (suc room) last (r ∷ rs) (h, s) (f, fs) =
    elim (Bool-cases (str_eq r.username last)) [
      | inl same ↦
          subst (Covers (suc room) last (r ∷ rs)) (sym (collect_same room last r rs same)) (
            (λ other. absurd (other (str_eq_sound r.username last same))),
            collect-Covers (suc room) last rs s fs,
          )
      | inr new ↦ subst (Covers (suc room) last (r ∷ rs)) (sym (collect_new room last r rs new f)) (
        (λ _.
            Dropped-cons room r r _ f (λ e. ground (arith, strcmp_refl r.username))
              (λ other. absurd (other refl))),
        All-zip (λ y goes ih _. Dropped-cons room r y _ f goes ih) rs (Goes-of_sorted r rs h)
            (collect-Covers room r.username rs s fs),
      )
    ]
