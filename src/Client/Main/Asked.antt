-- ===== src/Client/Main/Asked.antt =====
-- What the main menu of client/src/client_main.c asks the server for.
use rain_typing_game.Prelude.{
  ℕ, ◌≡◌, refl, Bool, true, false, ◌&&◌, ◌||◌, List, [], ◌∷◌, ◌==◌, ==_iff, if◌then◌else◌, All,
  All-append, pos, arith,
}
use rain_typing_game.Common.Protocol.{Response}
use rain_typing_game.Common.Run.{Run, ok, crash, ◌>>=◌, Ensures, Ensures-if_cases}
use rain_typing_game.Client.Network.{Request}
use rain_typing_game.Client.Network.Requests.{
  score_submit_request, leaderboard_request, logout_request, wordlist_request,
}
use rain_typing_game.Client.WordManager.{WordManager}
use rain_typing_game.Client.WordManager.Laws.{cleanup_word_manager-empty}
use rain_typing_game.Client.Game.{Game}
use rain_typing_game.Client.Game.Loop.{
  Played, returned, refused, plays, blocks, run_rain_typing_game,
}
use rain_typing_game.Client.Game.Loop.Words.{Drops, run_rain_typing_game-Drops}
use rain_typing_game.Client.Main.{
  Client, MenuIo, Menu, Terminal, load_words_from_server, submit_score, after_game, play,
  play_loaded, has_words, start_game_choice, logout_choice, menu_round,
}

-- The game that the menu runs with these words.
abbrev game : Terminal → MenuIo → WordManager → Played
game t io m =
    run_rain_typing_game io.frame m t.keys.key_backspace t.screen_height t.screen_width io.rounds

-- A score is one that a game returned in this round, after which the client has no words; words are
-- asked for only where there are none; and the other requests are those of their choices.
pub data Justified (t : Terminal) (io : MenuIo) (c c' : Client) (r : Request) : Type 0 where
  scored :
      (m m' : WordManager) (score : ℕ) (g : Game)
      → io.choice ≡ b'1'
      → game t io m ≡ returned score g m'
      → r ≡ score_submit_request (pos score)
      → has_words c'.manager ≡ false
      → Justified t io c c' r
  words :
      io.choice ≡ b'1' → has_words c.manager ≡ false → r ≡ wordlist_request → Justified t io c c' r
  leaderboard : io.choice ≡ b'2' → r ≡ leaderboard_request → Justified t io c c' r
  logout : io.choice ≡ b'4' → r ≡ logout_request → Justified t io c c' r

module _ (t : Terminal) (io : MenuIo) (c : Client) where
  abbrev Fair : Menu → Type 0
  Fair m = All (Justified t io c m.client) m.asked

  -- What was asked before a game, whatever the client is then.
  abbrev Before : List Request → Type 0
  Before asked = (c' : Client) → All (Justified t io c c') asked

  Fair-if : (b : Bool) (m n : Menu) → Fair m → Fair n → Fair (if b then m else n)
  Fair-if true m n h k = h
  Fair-if false m n h k = k

  after_game-Fair :
      (c₁ : Client) (asked : List Request) (p : Played)
      → io.choice ≡ b'1'
      → game t io c₁.manager ≡ p
      → Drops c₁.manager p
      → Before asked
      → Fair (after_game io c₁ asked p)
  unfolding after_game submit_score
  after_game-Fair c₁ asked (returned score g m) one e d before =
      let dropped : has_words m ≡ false =
        ground (arith, d, cleanup_word_manager-empty c₁.manager) in
      Fair-if io.after_game _ _ (before _) (
        All-append _ asked (score_submit_request (pos score) ∷ []) (before _)
          (scored c₁.manager m score g one e refl dropped, tt))
  after_game-Fair c₁ asked (refused code) one e d before =
      Fair-if io.after_game _ _ (before c₁) (before c₁)
  after_game-Fair c₁ asked plays one e d before = before c₁
  after_game-Fair c₁ asked blocks one e d before = before c₁

  play-Fair :
      (c₁ : Client) (asked : List Request)
      → io.choice ≡ b'1'
      → Before asked
      → Fair (play t io c₁ asked)
  unfolding play
  play-Fair c₁ asked one before =
      after_game-Fair c₁ asked _ one refl
        (run_rain_typing_game-Drops io.frame c₁.manager t.keys.key_backspace t.screen_height
          t.screen_width io.rounds)
        before

  play_loaded-Fair :
      (r : WordManager × Bool)
      → io.choice ≡ b'1'
      → has_words c.manager ≡ false
      → Fair (play_loaded t io c r)
  unfolding play_loaded
  play_loaded-Fair (m, loaded) one none_left =
      Fair-if loaded _ _
        (play-Fair (record c { manager = m }) (wordlist_request ∷ []) one
          (λ c'. (words one none_left refl, tt)))
        (words one none_left refl, tt)

  start_game_choice-Fair : io.choice ≡ b'1' → Ensures Fair (start_game_choice t io c)
  unfolding start_game_choice
  start_game_choice-Fair one =
      Ensures-if_cases Fair (has_words c.manager) _ _ (λ _. play-Fair c [] one (λ c'. tt))
        (λ e. bound (load_words_from_server io.mallocs io.load io.words c.manager) e)
    where
      bound :
          (r : Run (WordManager × Bool))
          → has_words c.manager ≡ false
          → Ensures Fair (r >>= λ l. ok (play_loaded t io c l))
      bound (ok l) e = play_loaded-Fair l one e
      bound crash e = tt

  logout_choice-Fair : (a : ℕ × Response) → io.choice ≡ b'4' → Fair (logout_choice io c a)
  unfolding logout_choice
  logout_choice-Fair (ret, res) four =
      Fair-if io.after_request _ _ (logout four refl, tt)
        (Fair-if (ret == 0 && res.success) _ _ (logout four refl, tt) (logout four refl, tt))

-- Each request of a round of the main menu has its reason: a score is sent only if a game of that
-- round returned it, and the client has no words afterwards, so that the next game loads them
-- again; words are asked for only for a game and only where there are none; the leaderboard and
-- the logout are asked for by their choices.
pub menu_round-Justified :
    (t : Terminal) (io : MenuIo) (c : Client)
    → Ensures (λ m. All (Justified t io c m.client) m.asked) (menu_round t io c)
unfolding menu_round
menu_round-Justified t io c =
    let P = Fair t io c in
    Ensures-if_cases P io.at_start _ _ (λ _. tt)
      (λ _.
        Ensures-if_cases P (io.choice == b'1') _ _
          (λ e. start_game_choice-Fair t io c ((==_iff _ _).0 e))
          (λ _.
            Ensures-if_cases P (io.choice == b'2') _ _
              (λ e. (leaderboard ((==_iff _ _).0 e) refl, tt))
              (λ _.
                Ensures-if_cases P (io.choice == b'4') _ _
                  (λ e. logout_choice-Fair t io c (io.ask logout_request) ((==_iff _ _).0 e))
                  (λ _.
                    Ensures-if_cases P
                      (io.choice == b'5' && (io.confirm == b'y' || io.confirm == b'Y')) _ _
                      (λ _. tt) (λ _. tt)))))
