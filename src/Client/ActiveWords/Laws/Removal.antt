-- ===== src/Client/ActiveWords/Laws/Removal.antt =====
-- Taking a word out of the table of active words.
use rain_typing_game.Prelude.{
  ℕ, ◌+◌, ◌-◌, ◌≤◌, ◌<◌, ◌≡◌, refl, sym, ◌∙◌, not, ◌&&◌, Bool, false, Option, none, some, List, [],
  Bytes, if◌then◌else◌, length, arith, str_eq, strcmp-eq, strcmp_refl, Bool-cases, inl, inr, ==_iff,
  ◌==◌,
}
use rain_typing_game.Client.ActiveWords.{
  ActiveWordHashTable, bucket, hash_function, find_in_chain, unlink, remove_active_word,
  is_word_in_active_table,
}
use rain_typing_game.Client.ActiveWords.Buckets.{nodes-set, Removed, remove_from_chain-Removed}
use rain_typing_game.Client.ActiveWords.Laws.{
  IsTable, member, with_chain, hash_function-lt, with_chain-IsTable, with_chain-member,
  hash_function-ne,
}

-- What taking a word out of a table comes to.
pub record Taken (t : ActiveWordHashTable) (w : Bytes) (r : ActiveWordHashTable × Bool)
    : Type 0 where
  pub still : IsTable r.0
  pub result : r.1 ≡ member t w
  pub members : (v : Bytes) → member r.0 v ≡ (member t v && not (str_eq v w))
  pub count : t.total_count ≡ r.0.total_count + (if r.1 then 1 else 0)

popped-IsTable :
    (t : ActiveWordHashTable) (w : Bytes) (c : List Bytes)
    → IsTable t
    → Removed (bucket t (hash_function w)) w (some c)
    → IsTable (with_chain t (hash_function w) c (t.total_count - 1))
      × (t.total_count ≡ t.total_count - 1 + 1)
popped-IsTable t w c h (m, l, d, k) =
    let inside : hash_function w < length t.buckets = rw h.size (hash_function-lt w) in
    let counted : 1 ≤ t.total_count =
      omega (arith, h.counted, l, nodes-set t.buckets (hash_function w) [] inside) in
    (
      with_chain-IsTable t (hash_function w) c _ h (hash_function-lt w) d
          (λ v e. h.placed (hash_function w) v (ground (arith, k v, e)))
          (omega (arith, l, counted)),
      omega (arith, counted),
    )

popped-member :
    (t : ActiveWordHashTable) (w v : Bytes) (c : List Bytes) (n : ℕ)
    → IsTable t
    → find_in_chain c v ≡ (find_in_chain (bucket t (hash_function w)) v && not (str_eq v w))
    → member (with_chain t (hash_function w) c n) v ≡ (member t v && not (str_eq v w))
popped-member t w v c n h k =
    with_chain-member t w v c n h ∙ elim (Bool-cases (hash_function w == hash_function v)) [
      | inl e ↦ rw e (same ((==_iff _ _).0 e))
      | inr e ↦ rw e (other e)
    ]
  where
    same : hash_function w ≡ hash_function v → find_in_chain c v ≡ (member t v && not (str_eq v w))
    same e = k ∙ rw e (unfold is_word_in_active_table in refl)

    other :
        (hash_function w == hash_function v) ≡ false → member t v ≡ (member t v && not (str_eq v w))
    other e = ground (arith, hash_function-ne w v e, strcmp-eq v w, strcmp_refl w)

unlink-Taken :
    (t : ActiveWordHashTable) (w : Bytes) (r : Option (List Bytes))
    → IsTable t
    → Removed (bucket t (hash_function w)) w r
    → Taken t w (unlink t (hash_function w) r)
unfolding unlink is_word_in_active_table
unlink-Taken t w none h e = record {
  still = h;
  result = sym e;
  members = λ v. ground (arith, e, strcmp-eq v w);
  count = omega arith;
}
unlink-Taken t w (some c) h (m, l, d, k) =
    let (still, count) = popped-IsTable t w c h (m, l, d, k) in
    record {
      still = still;
      result = sym m;
      members = λ v. popped-member t w v c (t.total_count - 1) h (k v);
      count = count;
    }

-- On a well-formed table, remove_active_word takes the word out of the set, counts down and
-- returns true if the word is in it, and changes nothing if it is not; the table stays well
-- formed.
pub remove_active_word_lem :
    (t : ActiveWordHashTable) (w : Bytes) → IsTable t → Taken t w (remove_active_word t (some w))
unfolding remove_active_word
remove_active_word_lem t w h =
    unlink-Taken t w _ h (remove_from_chain-Removed (bucket t (hash_function w)) w (h.distinct _))
