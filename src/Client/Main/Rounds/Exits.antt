-- ===== src/Client/Main/Rounds/Exits.antt =====
-- How the client of client/src/client_main.c ends.
use rain_typing_game.Prelude.{
  ◌≡◌, ◌⊎◌, inl, inr, refl, Bool, true, false, not, ◌||◌, List, [], ◌∷◌, Bytes, ltb, length,
  if◌then◌else◌, arith,
}
use rain_typing_game.Common.Run.{Run, ok, crash, ◌>>=◌, Ensures, Ensures-if_cases}
use rain_typing_game.Client.WordManager.{WordManager, init_word_manager}
use rain_typing_game.Client.AuthUi.{Left, returns, stays, hangs, auth_ui_main}
use rain_typing_game.Client.Main.{
  Client, MenuIo, Menu, Next, again, logged_out, quits, stuck, Terminal, menu_round,
}
use rain_typing_game.Client.Main.Rounds.{
  Main, reconnects, exits, goes_on, after_menu, menu_loop, MainIo, is_login, after_auth, main_round,
  after_main, main_loop, start_main, main,
}

-- The status is 0, or 1 with a reason for it.
abbrev pub Exits : Type 0 → Main → Type 0
Exits P (exits status) = (status ≡ 0) ⊎ ((status ≡ 1) × P)
Exits P _ = Unit

-- In some round there is no connection.
abbrev pub Unconnected : List MainIo → Type 0
Unconnected [] = ⊥
Unconnected (io ∷ ios) = (io.connects ≡ false) ⊎ Unconnected ios

module _ (P : Type 0) where
  bound :
      {A : Type 0} (m : Run A) (f : A → Run Main)
      → ((a : A) → Ensures (Exits P) (f a))
      → Ensures (Exits P) (m >>= f)
  bound (ok a) f h = h a
  bound crash f h = tt

  after_menu-Exits :
      (loop : Client → Run Main) (received : Bool) (m : Menu)
      → ((c : Client) → Ensures (Exits P) (loop c))
      → Ensures (Exits P) (after_menu loop received m)
  after_menu-Exits loop received m h = by_next m.next
    where
      by_next : (n : Next) → Ensures (Exits P) (after_menu loop received (record m { next = n }))
      by_next again = h m.client
      by_next logged_out = closed received
        where
          closed : (b : Bool) → Exits P (if b then exits 0 else reconnects m.client.manager)
          closed true = inl refl
          closed false = tt
      by_next quits = inl refl
      by_next stuck = tt

  menu_loop-Exits :
      (t : Terminal) (received : Bool) (ios : List MenuIo) (c : Client)
      → Ensures (Exits P) (menu_loop t received ios c)
  unfolding menu_loop
  menu_loop-Exits t received [] c = tt
  menu_loop-Exits t received (io ∷ ios) c =
      bound (menu_round t io c) _
        (λ m. after_menu-Exits _ received m (λ d. menu_loop-Exits t received ios d))

  after_auth-Exits :
      (t : Terminal) (io : MainIo) (manager : WordManager) (l : Left)
      → Ensures (Exits P) (after_auth t io manager l)
  unfolding after_auth
  after_auth-Exits t io manager (returns code user) =
      Ensures-if_cases (Exits P) (io.after_auth || not (is_login code)) (ok (exits 0)) _
        (λ _. inl refl)
        (λ _.
          Ensures-if_cases (Exits P) (ltb 0 (length user))
            (menu_loop t io.after_menu io.menu (record { user_id = user; manager = manager }))
            (ok (reconnects manager)) (λ _. menu_loop-Exits t io.after_menu io.menu _) (λ _. tt))
  after_auth-Exits t io manager stays = tt
  after_auth-Exits t io manager hangs = tt

  main_round-Exits :
      (t : Terminal) (sha256 : Bytes → Bytes) (io : MainIo) (manager : WordManager)
      → (io.connects ≡ false → P)
      → Ensures (Exits P) (main_round t sha256 io manager)
  unfolding main_round
  main_round-Exits t sha256 io manager k =
      Ensures-if_cases (Exits P) io.at_start _ _ (λ _. inl refl)
        (λ _.
          Ensures-if_cases (Exits P) (not io.connects) _ _ (λ e. inr (refl, k (ground (arith, e))))
            (λ _.
              Ensures-if_cases (Exits P) io.connected _ _ (λ _. inl refl)
                (λ _.
                  bound (auth_ui_main sha256 t.keys io.auth) _ (after_auth-Exits t io manager))))

  main_loop-Exits :
      (t : Terminal) (sha256 : Bytes → Bytes) (ios : List MainIo) (manager : WordManager)
      → (Unconnected ios → P)
      → Ensures (Exits P) (main_loop t sha256 ios manager)
  unfolding main_loop
  main_loop-Exits t sha256 [] manager k = tt
  main_loop-Exits t sha256 (io ∷ ios) manager k =
      then_after (main_round t sha256 io manager)
        (main_round-Exits t sha256 io manager (λ e. k (inl e)))
        (λ m. main_loop-Exits t sha256 ios m (λ u. k (inr u)))
    where
      then_after :
          (m : Run Main)
          → Ensures (Exits P) m
          → ((manager : WordManager) → Ensures (Exits P) (main_loop t sha256 ios manager))
          → Ensures (Exits P) (m >>= after_main (main_loop t sha256 ios))
      then_after (ok (reconnects manager)) h g = g manager
      then_after (ok (exits status)) h g = h
      then_after (ok goes_on) h g = tt
      then_after crash h g = tt

-- Where the client exits, whatever the user, the server and the signals do, its status is 0, or
-- it is 1 and the word manager had no memory or some connection failed.
pub main-Exits :
    (t : Terminal) (sha256 : Bytes → Bytes) (mallocs : Bool) (ios : List MainIo)
    → Ensures (Exits ((mallocs ≡ false) ⊎ Unconnected ios)) (main t sha256 mallocs ios)
unfolding main start_main init_word_manager
main-Exits t sha256 true ios = main_loop-Exits ((true ≡ false) ⊎ Unconnected ios) t sha256 ios _ inr
main-Exits t sha256 false ios = inr (refl, inl refl)
