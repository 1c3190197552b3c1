-- ===== src/Examples/WordLists.antt =====
-- What the server reads from a word file.
use rain_typing_game.Prelude.{
  ◌≡◌, ◌≢◌, refl, true, false, Option, none, some, List, [], ◌∷◌, Bytes, utf8, arith,
}
use rain_typing_game.Server.Db.Files.{File}
use rain_typing_game.Server.Words.{RoundIo, DefaultsIo, load_wordlist_from_file}
use rain_typing_game.Server.Words.Laws.{IsWord, load_wordlist-words, load_wordlist-ends}
use rain_typing_game.Server.Words.Shown.{IsWordList, load_wordlist-IsWordList}

abbrev good_fill : DefaultsIo
good_fill = record { opens = true; written = none; closes = true }

abbrev good : RoundIo
good = record {
  stats = true;
  fills = good_fill;
  opens = true;
  reopens = true;
  read_fails = none;
  refills = good_fill;
}

abbrev failing : RoundIo
failing = record {
  stats = false;
  fills = good_fill;
  opens = true;
  reopens = true;
  read_fails = some 0;
  refills = good_fill;
}

rain-IsWord : IsWord (utf8 "rain")
rain-IsWord = record {
  nonempty = λ e. cc;
  fits = omega arith;
  one_line = ground arith;
  no_return = ground arith;
  text = ground arith;
}

load_wordlist-ends_example :
    (load_wordlist_from_file (failing ∷ good ∷ []) (some (utf8 "rain"))).1 ≢ none
load_wordlist-ends_example = load_wordlist-ends failing good [] (some (utf8 "rain")) (refl, refl)

load_wordlist-IsWordList_example : IsWordList (utf8 "rain" ∷ [])
load_wordlist-IsWordList_example =
    load_wordlist-IsWordList (good ∷ []) (some (utf8 "rain\n")) (utf8 "rain") []
      (ap_snd (load_wordlist-words good [] (utf8 "rain") [] (refl, refl) (rain-IsWord, tt)))
  where
    ap_snd : {a b : File × Option (List Bytes)} → a ≡ b → a.1 ≡ b.1
    ap_snd e = λ i. (e i).1
