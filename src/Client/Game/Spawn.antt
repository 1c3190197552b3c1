-- ===== src/Client/Game/Spawn.antt =====
-- spawn_word of client/src/game_logic.c. The values of rand, and the outcomes of malloc and of
-- pthread_create, are arguments.
use rain_typing_game.Prelude.{
  ℕ, zero, suc, ◌+◌, ◌-◌, ◌%◌, ◌≢◌, Bool, true, false, not, ◌||◌, Option, none, some, List, [], ◌∷◌,
  Bytes, ltb, ◌==◌, if◌then◌else◌, length, get_or, str_copy,
}
use rain_typing_game.Client.ActiveWords.{
  ActiveWordHashTable, max_word_len, add_active_word, remove_active_word, is_word_in_active_table,
}
use rain_typing_game.Client.WordManager.{WordManager}
use rain_typing_game.Client.Game.{Game, Word, WordType, word_normal, word_kill, word_bonus}

-- `picks` are the values of rand in the loop, the others those behind it; `created` is the thread
-- id, or `none` if pthread_create fails.
pub record SpawnIo : Type 0 where
  pub picks : ℕ → ℕ
  pub place : ℕ
  pub kill : ℕ
  pub bonus : ℕ
  pub allocates : Bool
  pub created : Option ℕ

-- A thread id is not 0: the code takes 0 for a slot without a thread.
abbrev pub IsThread : SpawnIo → Type 0
IsThread io = io.created ≢ some 0

-- The loop at its round `k`, where `left` rounds more may follow.
pick_word : List Bytes → ActiveWordHashTable → (ℕ → ℕ) → ℕ → ℕ → Bytes
pick_word words table picks zero k = get_or words (picks k % length words) []
pick_word words table picks (suc left) k =
    let pick = get_or words (picks k % length words) [] in
    let rest = pick_word words table picks left (suc k) in
    if is_word_in_active_table table (some pick) then rest else pick

abbrev word_type : ℕ → ℕ → WordType
word_type kill bonus =
    if ltb (kill % 100) 20
    then word_kill
    else if ltb (bonus % 100) 30
    then word_bonus
    else word_normal

abbrev pub position : ℕ → ℕ → ℕ → ℕ
position area_width len place = if ltb len area_width then place % (area_width - len + 1) else 0

-- The slot as it is filled, before its thread is made.
unfoldable pub placed_word : SpawnIo → ℕ → Bytes → Word
placed_word io area_width text = record {
  text = text;
  x = position area_width (length text) io.place;
  y = 0;
  active = true;
  to_remove = false;
  wtype = word_type io.kill io.bonus;
  thread_id = 0;
}

abbrev pub is_free : Word → Bool
is_free w = w.thread_id == 0 || w.to_remove

unfoldable pub has_free : List Word → Bool
has_free [] = false
has_free (w ∷ ws) = is_free w || has_free ws

-- The first free slot takes the word.
unfoldable pub fill_slot : Word → List Word → List Word
fill_slot new [] = []
fill_slot new (w ∷ ws) = let rest = w ∷ fill_slot new ws in if is_free w then new ∷ ws else rest

-- pthread_create, and what follows where it fails.
unfoldable pub start_thread : Game → Word → Option ℕ → Game
start_thread g new (some thread_id) = record g {
  words = fill_slot (record new { thread_id = thread_id }) g.words;
}
start_thread g new none = record g {
  words = fill_slot (record new { active = false }) g.words;
  active_words = (remove_active_word g.active_words (some new.text)).0;
}

unfoldable pub place_word : SpawnIo → Game → Bytes → Game
place_word io g text =
    start_thread
      (record g { active_words = (add_active_word io.allocates g.active_words (some text)).0 })
      (placed_word io g.area_width text) io.created

unfoldable pub spawn_word : SpawnIo → WordManager → Game → Game
unfolding pick_word placed_word has_free fill_slot start_thread place_word
spawn_word io manager g =
    if not manager.is_initialized || length manager.words == 0
    then g
    else if has_free g.words
    then place_word io g (
        str_copy max_word_len
          (pick_word manager.words g.active_words io.picks (length manager.words) 0))
    else g
