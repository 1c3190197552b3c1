-- ===== src/Examples/Table.antt =====
-- A table with one word, and the loading of words.
use rain_typing_game.Prelude.{refl, true, some, none, [], ◌∷◌, Bytes, utf8, arith}
use rain_typing_game.Client.ActiveWords.{
  ActiveWordHashTable, empty_table, add_active_word, remove_active_word,
}
use rain_typing_game.Client.ActiveWords.Laws.{
  IsTable, Added, add_active_word_lem, init_active_word_table-IsTable,
}
use rain_typing_game.Client.ActiveWords.Laws.Removal.{Taken, remove_active_word_lem}
use rain_typing_game.Client.WordManager.{LoadIo, no_words, load_words_from_response}
use rain_typing_game.Client.WordManager.Laws.{
  IsManager, IsLoaded, load_words_from_response-IsLoaded,
}

abbrev rain : Bytes
rain = utf8 "rain"

abbrev one_word : ActiveWordHashTable
one_word = (add_active_word true empty_table (some rain)).0

one_word-IsTable : IsTable one_word
one_word-IsTable =
    (add_active_word_lem empty_table rain true init_active_word_table-IsTable (omega arith)).still

add_active_word_lem_example :
    Added one_word (utf8 "snow") true (add_active_word true one_word (some (utf8 "snow")))
add_active_word_lem_example =
    add_active_word_lem one_word (utf8 "snow") true one_word-IsTable (omega arith)

remove_active_word_lem_example : Taken one_word rain (remove_active_word one_word (some rain))
remove_active_word_lem_example = remove_active_word_lem one_word rain one_word-IsTable

abbrev good : LoadIo
good = record { first_malloc = true; second_malloc = true; reallocs = true; strdups = none }

no_words-IsManager : IsManager no_words
no_words-IsManager = record { room = omega arith; empty = λ e. refl }

load_words_from_response-IsLoaded_example :
    IsLoaded good (rain ∷ []) (load_words_from_response good (rain ∷ []) no_words)
load_words_from_response-IsLoaded_example =
    load_words_from_response-IsLoaded good (rain ∷ []) no_words no_words-IsManager
