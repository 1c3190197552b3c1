-- ===== src/Client/ActiveWords/Laws.antt =====
-- The table is a set of words.
pub mod Removal
use rain_typing_game.Prelude.{
  ℕ, zero, suc, ◌+◌, ◌-◌, ◌≤◌, ◌<◌, ◌≡◌, refl, sym, ap, subst, ◌∙◌, not, ◌&&◌, ◌||◌, Bool, true,
  false, Option, none, some, List, [], ◌∷◌, Bytes, if◌then◌else◌, length, length-set, replicate,
  get_or, set, arith, str_copy_all, str_eq, str_eq_sound, strcmp-eq, strcmp_refl, Bool-cases, inl,
  inr, ==_iff, ◌==◌,
}
use rain_typing_game.Client.ActiveWords.{
  ActiveWordHashTable, max_word_len, hash_table_size, bucket, hash_function, find_in_chain,
  insert_node, unlink, add_active_word, remove_active_word, is_word_in_active_table, empty_table,
}
use rain_typing_game.Client.ActiveWords.Buckets.{
  get_or-set_same, get_or-set_other, nodes, nodes-set, IsDistinct, Removed,
  remove_from_chain-Removed, find_in_chain_cons,
}

-- Each word stands once, in the chain of its hash and as a whole, and the nodes are counted.
pub record IsTable (t : ActiveWordHashTable) : Type 0 where
  pub size : length t.buckets ≡ hash_table_size
  pub distinct : (i : ℕ) → IsDistinct (bucket t i)
  pub placed :
      (i : ℕ) (v : Bytes)
      → find_in_chain (bucket t i) v ≡ true
      → (hash_function v ≡ i) × (length v < max_word_len)
  pub counted : t.total_count ≡ nodes t.buckets

abbrev pub member : ActiveWordHashTable → Bytes → Bool
member t v = is_word_in_active_table t (some v)

abbrev with_chain : ActiveWordHashTable → ℕ → List Bytes → ℕ → ActiveWordHashTable
with_chain t i c n = record { buckets = set t.buckets i c; total_count = n }

hash_function-lt : (v : Bytes) → hash_function v < hash_table_size
unfolding hash_function
hash_function-lt v = omega arith

-- A table in which one chain is exchanged.
with_chain-bucket :
    (t : ActiveWordHashTable) (i j : ℕ) (c : List Bytes) (n : ℕ)
    → i < length t.buckets
    → bucket (with_chain t i c n) j ≡ (if i == j then c else bucket t j)
with_chain-bucket t i j c n h = elim (Bool-cases (i == j)) [
  | inl e ↦ rw (e, sym ((==_iff i j).0 e)) (get_or-set_same t.buckets i c [] h)
  | inr e ↦ rw e (get_or-set_other t.buckets i j c [] (λ k. ground (arith, e, k)))
]

with_chain-IsTable :
    (t : ActiveWordHashTable) (i : ℕ) (c : List Bytes) (n : ℕ)
    → IsTable t
    → i < hash_table_size
    → IsDistinct c
    → ((v : Bytes) → find_in_chain c v ≡ true → (hash_function v ≡ i) × (length v < max_word_len))
    → n + length (bucket t i) ≡ t.total_count + length c
    → IsTable (with_chain t i c n)
with_chain-IsTable t i c n h l d p k =
    let inside : i < length t.buckets = rw h.size l in
    record {
      size = length-set t.buckets i c ∙ h.size;
      distinct = λ j.
          subst IsDistinct (sym (with_chain-bucket t i j c n inside))
            (elim (Bool-cases (i == j)) [ inl e ↦ rw e d | inr e ↦ rw e (h.distinct j) ]);
      placed = λ j v. rw (with_chain-bucket t i j c n inside) (elim (Bool-cases (i == j)) [
        | inl e ↦ rw (e, sym ((==_iff i j).0 e)) (p v)
        | inr e ↦ rw e (h.placed j v)
      ]);
      counted = omega (arith, k, h.counted, nodes-set t.buckets i c inside);
    }

with_chain-member :
    (t : ActiveWordHashTable) (w v : Bytes) (c : List Bytes) (n : ℕ)
    → IsTable t
    → member (with_chain t (hash_function w) c n) v
      ≡ (if hash_function w == hash_function v then find_in_chain c v else member t v)
unfolding is_word_in_active_table
with_chain-member t w v c n h =
    rw
      (with_chain-bucket t (hash_function w) (hash_function v) c n (rw h.size (hash_function-lt w)))
      (elim (Bool-cases (hash_function w == hash_function v)) [
        | inl e ↦ rw e refl
        | inr e ↦ rw e refl
      ])

hash_function-ne : (w v : Bytes) → (hash_function w == hash_function v) ≡ false → str_eq w v ≡ false
hash_function-ne w v e = elim (Bool-cases (str_eq w v)) [
  | inl s ↦ ground (arith, e, ap hash_function (str_eq_sound w v s))
  | inr n ↦ n
]

-- What adding a word to a table comes to, with the result `added`.
pub record Added (t : ActiveWordHashTable) (w : Bytes) (allocates : Bool)
    (r : ActiveWordHashTable × Bool) : Type 0 where
  pub still : IsTable r.0
  pub result : r.1 ≡ (allocates && not (member t w))
  pub members : (v : Bytes) → member r.0 v ≡ (member t v || (r.1 && str_eq w v))
  pub count : r.0.total_count ≡ t.total_count + (if r.1 then 1 else 0)

unchanged-Added :
    (t : ActiveWordHashTable) (w : Bytes) (allocates : Bool)
    → IsTable t
    → (allocates && not (member t w)) ≡ false
    → Added t w allocates (t, false)
unchanged-Added t w allocates h e = record {
  still = h;
  result = sym e;
  members = λ v. ground arith;
  count = omega arith;
}

pushed-IsTable :
    (t : ActiveWordHashTable) (w : Bytes)
    → IsTable t
    → length w < max_word_len
    → member t w ≡ false
    → IsTable (with_chain t (hash_function w) (w ∷ bucket t (hash_function w)) (t.total_count + 1))
unfolding is_word_in_active_table
pushed-IsTable t w h fits fresh =
    with_chain-IsTable t (hash_function w) _ _ h (hash_function-lt w) (fresh, h.distinct _)
      (λ v m. elim (Bool-cases (str_eq w v)) [
        | inl e ↦ rw (sym (str_eq_sound w v e)) (refl, fits)
        | inr e ↦
            h.placed _ v (ground (arith, m, e, find_in_chain_cons w v (bucket t (hash_function w))))
      ])
      (omega arith)

pushed-member :
    (t : ActiveWordHashTable) (w v : Bytes)
    → IsTable t
    → member (with_chain t (hash_function w) (w ∷ bucket t (hash_function w)) (t.total_count + 1)) v
      ≡ (member t v || str_eq w v)
pushed-member t w v h =
    with_chain-member t w v _ _ h ∙ elim (Bool-cases (hash_function w == hash_function v)) [
      | inl e ↦ rw e (same ((==_iff _ _).0 e))
      | inr e ↦ rw e (rw (hash_function-ne w v e) (ground arith))
    ]
  where
    same :
        hash_function w ≡ hash_function v
        → find_in_chain (w ∷ bucket t (hash_function w)) v ≡ (member t v || str_eq w v)
    same e = find_in_chain_cons w v _ ∙ rw e (unfold is_word_in_active_table in (ground arith))

insert_node-Added :
    (t : ActiveWordHashTable) (w : Bytes)
    → IsTable t
    → length w < max_word_len
    → member t w ≡ false
    → Added t w true (insert_node t (hash_function w) w, true)
unfolding insert_node
insert_node-Added t w h fits fresh = rw (str_copy_all {n = max_word_len} w fits) (record {
  still = pushed-IsTable t w h fits fresh;
  result = rw fresh refl;
  members = λ v. pushed-member t w v h;
  count = refl;
})

-- On a well-formed table and a word that fits its array, add_active_word adds the word to the
-- set, counts it and returns true, unless the word is in the set or malloc fails, where nothing
-- changes; the table stays well formed.
pub add_active_word_lem :
    (t : ActiveWordHashTable) (w : Bytes) (allocates : Bool)
    → IsTable t
    → length w < max_word_len
    → Added t w allocates (add_active_word allocates t (some w))
unfolding add_active_word is_word_in_active_table
add_active_word_lem t w allocates h fits = elim (Bool-cases (member t w)) [
  | inl e ↦ rw e (unchanged-Added t w allocates h (rw e (ground arith)))
  | inr e ↦
      rw e
        (elim allocates
          as (λ b.
            Added t w b (if b then (insert_node t (hash_function w) w, true) else (t, false))) [
              | true ↦ insert_node-Added t w h fits e
              | false ↦ unchanged-Added t w false h refl
            ])
]

get_or-replicate : (n i : ℕ) → get_or {A = List Bytes} (replicate n []) i [] ≡ []
get_or-replicate zero i = refl
get_or-replicate (suc n) zero = refl
get_or-replicate (suc n) (suc i) = get_or-replicate n i

-- The table at its start is well formed.
pub init_active_word_table-IsTable : IsTable empty_table
init_active_word_table-IsTable = record {
  size = refl;
  distinct = λ i. rw (get_or-replicate hash_table_size i) tt;
  placed = λ i v. rw (get_or-replicate hash_table_size i) (unfold find_in_chain in (λ e. cc));
  counted = refl;
}

pub empty_table-member : (v : Bytes) → member empty_table v ≡ false
unfolding is_word_in_active_table
empty_table-member v =
    rw (get_or-replicate hash_table_size (hash_function v)) (unfold find_in_chain in refl)
