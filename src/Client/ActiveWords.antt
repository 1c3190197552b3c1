-- ===== src/Client/ActiveWords.antt =====
-- The hash table of active words of client/src/game_logic.c: 64 chains of words, and their number.
pub mod Buckets
pub mod Laws
use mathlib.Core.Option
use rain_typing_game.Prelude.{
  ℕ, zero, suc, ◌+◌, ◌-◌, ◌*◌, ◌%◌, ◌^◌, Bool, true, false, Option, none, some, List, [], ◌∷◌,
  Bytes, ltb, if◌then◌else◌, get_or, set, replicate, str_copy, str_eq,
}

-- MAX_WORD_LEN of game_logic.h
abbrev pub max_word_len : ℕ
max_word_len = 30

abbrev pub hash_table_size : ℕ
hash_table_size = 64

-- A chain of nodes is the list of their words. `total_count` goes down only where a node is taken
-- out, and is not 0 then.
pub record ActiveWordHashTable : Type 0 where
  pub buckets : List (List Bytes)
  pub total_count : ℕ

-- A `char` as the `int` that is added, modulo 2 ^ 32: from 128 on it is negative.
abbrev char_word : ℕ → ℕ
char_word c = if ltb c 128 then c else 2 ^ 32 - 256 + c

-- The loop over the bytes; every operation wraps at 32 bits.
hash_bytes : ℕ → Bytes → ℕ
hash_bytes hash [] = hash
hash_bytes hash (c ∷ str) = hash_bytes ((hash * 32 % 2 ^ 32 + hash + char_word c) % 2 ^ 32) str

pub hash_function : Bytes → ℕ
unfolding hash_bytes
hash_function str = hash_bytes 5381 str % hash_table_size

-- `bucket` is g_active_words.buckets[index].
abbrev pub bucket : ActiveWordHashTable → ℕ → List Bytes
bucket t index = get_or t.buckets index []

abbrev pub empty_table : ActiveWordHashTable
empty_table = record { buckets = replicate hash_table_size []; total_count = 0 }

-- Is the result of pthread_mutex_init 0, the table, and the result.
abbrev init_active_word_table : Bool → ActiveWordHashTable × Bool
init_active_word_table mutex_init = (empty_table, mutex_init)

abbrev pub cleanup_active_word_table : ActiveWordHashTable → ActiveWordHashTable
cleanup_active_word_table t = empty_table

-- The loop along one chain.
pub find_in_chain : List Bytes → Bytes → Bool
find_in_chain [] word = false
find_in_chain (w ∷ ws) word =
    let rest = find_in_chain ws word in if str_eq w word then true else rest

-- The chain without the first node of that word, or `none` if it has no such node.
pub remove_from_chain : List Bytes → Bytes → Option (List Bytes)
remove_from_chain [] word = none
remove_from_chain (w ∷ ws) word =
    let rest = Option.map (◌∷◌ w) (remove_from_chain ws word) in
    if str_eq w word then some ws else rest

insert_node : ActiveWordHashTable → ℕ → Bytes → ActiveWordHashTable
insert_node t index word = record {
  buckets = set t.buckets index (str_copy max_word_len word ∷ bucket t index);
  total_count = t.total_count + 1;
}

-- `allocates` says that malloc does not return NULL.
pub add_active_word : Bool → ActiveWordHashTable → Option Bytes → ActiveWordHashTable × Bool
unfolding insert_node
add_active_word allocates t none = (t, false)
add_active_word allocates t (some word) =
    let index = hash_function word in
    if find_in_chain (bucket t index) word
    then (t, false)
    else if allocates
    then (insert_node t index word, true)
    else (t, false)

pub unlink : ActiveWordHashTable → ℕ → Option (List Bytes) → ActiveWordHashTable × Bool
unlink t index none = (t, false)
unlink t index (some chain) =
    (record { buckets = set t.buckets index chain; total_count = t.total_count - 1 }, true)

pub remove_active_word : ActiveWordHashTable → Option Bytes → ActiveWordHashTable × Bool
remove_active_word t none = (t, false)
remove_active_word t (some word) =
    let index = hash_function word in unlink t index (remove_from_chain (bucket t index) word)

pub is_word_in_active_table : ActiveWordHashTable → Option Bytes → Bool
is_word_in_active_table t none = false
is_word_in_active_table t (some word) = find_in_chain (bucket t (hash_function word)) word
