-- ===== src/Server/Startup.antt =====
-- main of server/src/server_main.c up to its loop, with init_db_files of server/src/db_handler.c.
pub mod Accept
pub mod Laws
use rain_typing_game.Prelude.{
  ℕ, Bool, true, false, not, ◌&&◌, Option, none, some, List, [], ◌∷◌, Bytes, if◌then◌else◌,
}
use rain_typing_game.Server.Db.Files.{File, contents}
use rain_typing_game.Server.Words.{RoundIo, load_wordlist_from_file}
use rain_typing_game.Server.Online.{LoggedInUser, init_logged_in_users}
use rain_typing_game.Server.Handler.{Server}

-- What `stat` finds at a path.
pub data Found : Type 0 where
  nothing a_directory another : Found

abbrev is_dir : Found → Bool
is_dir a_directory = true
is_dir _ = false

-- `stat`, whether `mkdir` succeeds, whether errno is EEXIST, and `stat` again.
pub record DirIo : Type 0 where
  pub stat : Found
  pub mkdirs : Bool
  pub exists : Bool
  pub again : Found

-- Is the return value 0.
pub create_directory_if_not_exists : DirIo → Bool
create_directory_if_not_exists io = elim io.stat [
  | a_directory ↦ true
  | another ↦ false
  | nothing ↦ if io.mkdirs then true else io.exists && is_dir io.again
]

-- `open(…, O_WRONLY | O_CREAT | O_APPEND)` and `close`.
ensure_file : Bool → File → File
ensure_file opens file = if opens then some (contents file) else file

pub record DbIo : Type 0 where
  pub dir : DirIo
  pub users_opens : Bool
  pub scores_opens : Bool

-- The files of accounts and scores, or `none` where the program exits.
pub init_db_files : DbIo → File → File → Option (File × File)
unfolding ensure_file
init_db_files io users scores =
    if create_directory_if_not_exists io.dir
    then some (ensure_file io.users_opens users, ensure_file io.scores_opens scores)
    else none

-- The outcomes of `socket`, `bind` and `listen`, and of what follows.
pub record StartIo : Type 0 where
  pub sockets : Bool
  pub binds : Bool
  pub listens : Bool
  pub db : DbIo
  pub words : List RoundIo

-- The exit status 1, or the server with the word file; `loading` is a load that goes on.
pub data Started : Type 0 where
  exits loading : Started
  runs : Server → File → Started

with_words : File → File → List LoggedInUser → File × Option (List Bytes) → Started
with_words users scores table (file, none) = loading
with_words users scores table (file, some []) = exits
with_words users scores table (file, some (w ∷ ws)) =
    runs
      (record {
        users = users;
        scores = scores;
        logged_in = init_logged_in_users table;
        wordlist = w ∷ ws;
      })
      file

with_files : StartIo → File → List LoggedInUser → Option (File × File) → Started
unfolding with_words
with_files io words table none = exits
with_files io words table (some (users, scores)) =
    with_words users scores table (load_wordlist_from_file io.words words)

pub start_server : StartIo → File → File → File → List LoggedInUser → Started
unfolding with_files
start_server io users scores words table =
    if not (io.sockets && io.binds && io.listens)
    then exits
    else with_files io words table (init_db_files io.db users scores)
