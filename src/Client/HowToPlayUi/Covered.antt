-- ===== src/Client/HowToPlayUi/Covered.antt =====
-- What the prompt of a page covers.
use rain_typing_game.Prelude.{ℕ, ◌≡◌, refl, Bool, true, false, List, [], ◌∷◌, ◌++◌, Bytes, utf8}
use rain_typing_game.Client.Printed.{Printed, prompt_at, row_shows}
use rain_typing_game.Client.HowToPlayUi.{
  Line, lay_out, page_1_lines, word_types, show_page, show_page_1,
}

row_shows-append :
    (row : ℕ) (ps qs : List Printed) (shown : List Bytes)
    → row_shows row (ps ++ qs) shown ≡ row_shows row qs (row_shows row ps shown)
unfolding row_shows
row_shows-append row [] qs shown = refl
row_shows-append row (p ∷ ps) qs shown = row_shows-append row ps qs _

-- Row 15 of a page shows the prompt alone, whatever line of the page lies there.
show_page-prompt :
    (title : Bytes) (lines : List Line) (prompt : Bytes)
    → row_shows 15 (show_page title lines prompt) [] ≡ prompt ∷ []
unfolding show_page row_shows
show_page-prompt title lines prompt =
    row_shows-append 15 (lay_out 4 lines) (prompt_at 15 10 prompt ∷ []) []

-- Row 15 shows "WORD TYPES:" among the lines of the first page, and only the prompt once that is
-- printed.
show_page_1-covered :
    (has_colors : Bool)
    → (row_shows 15 (lay_out 4 (page_1_lines has_colors)) [] ≡ utf8 "WORD TYPES:" ∷ [])
      × (row_shows 15 (show_page_1 has_colors) []
          ≡ utf8 "Press any key for next page (2/2)..." ∷ [])
unfolding page_1_lines word_types lay_out row_shows show_page_1
show_page_1-covered true = (refl, show_page-prompt _ (page_1_lines true) _)
show_page_1-covered false = (refl, show_page-prompt _ (page_1_lines false) _)
