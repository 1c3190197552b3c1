-- ===== src/Client/WordManager/Laws.antt =====
-- A load of the word list gives all of the words or none.
use rain_typing_game.Prelude.{
  ℕ, ◌+◌, ◌≤◌, ◌≡◌, refl, Bool, true, false, Option, none, some, List, [], Bytes, ltb,
  if◌then◌else◌, length, arith, Bool-cases, inl, inr,
}
use rain_typing_game.Client.WordManager.{
  WordManager, LoadIo, no_words, fresh_words, init_word_manager, cleanup_word_manager, copies,
  copy_words, fill_manager, refill_manager, load_words_from_response,
}

-- The words fit the array that was allocated, and a manager without an array has none.
pub record IsManager (m : WordManager) : Type 0 where
  pub room : length m.words ≤ m.capacity
  pub empty : m.is_initialized ≡ false → m.words ≡ []

-- What a load leaves: all of the words with success, or none of them.
pub record IsLoaded (io : LoadIo) (words : List Bytes) (r : WordManager × Bool) : Type 0 where
  pub still : IsManager r.0
  pub all_or_none : r.0.words ≡ (if r.1 then words else [])
  pub ready : r.1 ≡ true → r.0.is_initialized ≡ true

init_word_manager_lem :
    (mallocs : Bool) (m : WordManager)
    → IsManager m
    → m.is_initialized ≡ false
    → let (m', done) = init_word_manager mallocs m in
      IsManager m' × (done ≡ false → m'.words ≡ []) × (done ≡ true → m'.is_initialized ≡ true)
unfolding init_word_manager
init_word_manager_lem true m h e =
    rw e (record { room = omega arith; empty = λ k. refl }, (λ k. cc), (λ k. refl))
init_word_manager_lem false m h e = rw e (
  record { room = rw (h.empty e) (omega arith); empty = λ k. h.empty e },
  (λ k. h.empty e),
  (λ k. cc),
)

module _ (io : LoadIo) (words : List Bytes) where
  copied-IsLoaded :
      (capacity : ℕ) (r : Option (List Bytes))
      → length words ≤ capacity
      → ((vs : List Bytes) → r ≡ some vs → vs ≡ words)
      → IsLoaded io words
          (copy_words (record { words = []; capacity = capacity; is_initialized = true }) r)
  unfolding copy_words
  copied-IsLoaded capacity none h k = record {
    still = record { room = omega arith; empty = λ e. cc };
    all_or_none = refl;
    ready = λ e. cc;
  }
  copied-IsLoaded capacity (some vs) h k = rw (k vs refl) (record {
    still = record { room = h; empty = λ e. cc };
    all_or_none = refl;
    ready = λ e. refl;
  })

  copies_lem : (n : Option ℕ) (vs : List Bytes) → copies n words ≡ some vs → vs ≡ words
  unfolding copies
  copies_lem none vs e = cc
  copies_lem (some n) vs e = ground (arith, e)

  failed-IsLoaded : (m : WordManager) → IsManager m → m.words ≡ [] → IsLoaded io words (m, false)
  failed-IsLoaded m h e = record { still = h; all_or_none = e; ready = λ k. cc }

  fill_manager-IsLoaded : IsLoaded io words (fill_manager io words (fresh_words, true))
  unfolding fill_manager
  fill_manager-IsLoaded = elim (Bool-cases (ltb 100 (length words))) [
    | inl e ↦
        rw e
          (elim io.reallocs
            as (λ b. IsLoaded io words (
              if b
              then copy_words (record fresh_words { capacity = length words + 10 })
                  (copies io.strdups words)
              else (fresh_words, false))) [
                | true ↦ copied-IsLoaded (length words + 10) _ (omega arith) (copies_lem io.strdups)
                | false ↦
                    failed-IsLoaded fresh_words (record { room = omega arith; empty = λ e. cc })
                      refl
              ])
    | inr e ↦ rw e (copied-IsLoaded 100 _ (ground (arith, e)) (copies_lem io.strdups))
  ]

  -- From a manager without words, in either state.
  refill_manager-IsLoaded :
      (r : WordManager × Bool)
      → IsManager r.0
      → (r.1 ≡ false → r.0.words ≡ [])
      → (r.1 ≡ true → r.0.is_initialized ≡ true)
      → IsLoaded io words (refill_manager io words r)
  unfolding refill_manager init_word_manager cleanup_word_manager
  refill_manager-IsLoaded (m, false) h k l = failed-IsLoaded m h (k refl)
  refill_manager-IsLoaded (m, true) h k l = rw (l refl) (reload io.second_malloc)
    where
      reload :
          (b : Bool)
          → IsLoaded io words (
              fill_manager io words
                (if b then (fresh_words, true) else (record no_words { capacity = 100 }, false)))
      reload true = fill_manager-IsLoaded
      reload false =
          unfold fill_manager in
          failed-IsLoaded _ (record { room = omega arith; empty = λ e. refl }) refl

  -- From a well-formed word manager, whichever calls of malloc, realloc and strdup fail, a load
  -- leaves all of the words with success or none of them, within the capacity that was allocated.
  pub load_words_from_response-IsLoaded :
      (m : WordManager) → IsManager m → IsLoaded io words (load_words_from_response io words m)
  unfolding load_words_from_response
  load_words_from_response-IsLoaded m h =
      elim m.is_initialized
          as (λ b.
            m.is_initialized ≡ b
            → IsLoaded io words (
                if b
                then refill_manager io words (m, true)
                else refill_manager io words (init_word_manager io.first_malloc m))) [
                  | true ↦ λ e. refill_manager-IsLoaded (m, true) h (λ k. cc) (λ k. e)
                  | false ↦ λ e.
                      let (still, empty, ready) = init_word_manager_lem io.first_malloc m h e in
                      refill_manager-IsLoaded _ still empty ready
                ]
        refl

-- A manager that was cleaned up is not initialised.
pub cleanup_word_manager-empty : (m : WordManager) → (cleanup_word_manager m).is_initialized ≡ false
unfolding cleanup_word_manager
cleanup_word_manager-empty m = elim (Bool-cases m.is_initialized) [
  | inl e ↦ rw (e, cleanup_word_manager) refl
  | inr e ↦ rw (e, cleanup_word_manager) refl
]
