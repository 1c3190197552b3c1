-- ===== src/Server/Startup/Laws.antt =====
-- What a server starts with.
use rain_typing_game.Prelude.{
  ◌≡◌, ◌≢◌, refl, Bool, true, false, not, ◌&&◌, Option, none, some, List, [], ◌∷◌, Bytes,
  if◌then◌else◌, Bool-cases, inl, inr,
}
use rain_typing_game.Server.Db.Files.{File, contents}
use rain_typing_game.Server.Words.{load_wordlist_from_file}
use rain_typing_game.Server.Online.{LoggedInUser}
use rain_typing_game.Server.Online.Laws.{sessions, init_logged_in_users-sessions}
use rain_typing_game.Server.Handler.{Server}
use rain_typing_game.Server.Startup.{
  ensure_file, init_db_files, create_directory_if_not_exists, StartIo, Started, exits, runs,
  with_words, with_files, start_server,
}

-- The files keep their contents, nobody is logged in, and there is a word.
pub record IsFresh (users scores : File) (s : Server) : Type 0 where
  pub users_kept : contents s.users ≡ contents users
  pub scores_kept : contents s.scores ≡ contents scores
  pub nobody : (user : Bytes) → sessions user s.logged_in ≡ 0
  pub some_word : s.wordlist ≢ []

abbrev pub IfRuns : (Server → Type 0) → Started → Type 0
IfRuns P (runs s file) = P s
IfRuns P _ = Unit

with_words-IsFresh :
    (users scores users' scores' : File) (table : List LoggedInUser)
    (r : File × Option (List Bytes))
    → contents users' ≡ contents users
    → contents scores' ≡ contents scores
    → IfRuns (IsFresh users scores) (with_words users' scores' table r)
unfolding with_words
with_words-IsFresh users scores users' scores' table (file, none) u v = tt
with_words-IsFresh users scores users' scores' table (file, some []) u v = tt
with_words-IsFresh users scores users' scores' table (file, some (w ∷ ws)) u v = record {
  users_kept = u;
  scores_kept = v;
  nobody = λ user. init_logged_in_users-sessions user table;
  some_word = λ e. cc;
}

ensure_file-contents :
    (opens : Bool) (file : File) → contents (ensure_file opens file) ≡ contents file
unfolding ensure_file
ensure_file-contents true file = refl
ensure_file-contents false file = refl

IfRuns-if :
    (P : Server → Type 0) (b : Bool) (x y : Started)
    → IfRuns P x
    → IfRuns P y
    → IfRuns P (if b then x else y)
IfRuns-if P true x y h k = h
IfRuns-if P false x y h k = k

with_files-IsFresh :
    (io : StartIo) (users scores words : File) (table : List LoggedInUser)
    → IfRuns (IsFresh users scores) (with_files io words table (init_db_files io.db users scores))
unfolding init_db_files
with_files-IsFresh io users scores words table =
    elim (Bool-cases (create_directory_if_not_exists io.db.dir)) [
      | inl e ↦ rw e (
          unfold with_files in
          with_words-IsFresh users scores (ensure_file io.db.users_opens users)
            (ensure_file io.db.scores_opens scores) table (load_wordlist_from_file io.words words)
            (ensure_file-contents io.db.users_opens users)
            (ensure_file-contents io.db.scores_opens scores))
      | inr e ↦ rw e (unfold with_files in tt)
    ]

-- If the server comes to its accept loop, whatever the table of users held: it has kept the
-- contents of the files of accounts and scores, no user has a session, and the word list is not
-- empty.
pub start_server-IsFresh :
    (io : StartIo) (users scores words : File) (table : List LoggedInUser)
    → IfRuns (IsFresh users scores) (start_server io users scores words table)
unfolding start_server
start_server-IsFresh io users scores words table =
    IfRuns-if (IsFresh users scores) (not (io.sockets && io.binds && io.listens)) exits _ tt
      (with_files-IsFresh io users scores words table)
