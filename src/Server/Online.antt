-- ===== src/Server/Online.antt =====
-- logged_in_users of server/src/server_network.c: the table of who is logged in, one slot for each.
pub mod Laws
use rain_typing_game.Prelude.{
  ℕ, zero, suc, Bool, true, false, not, ◌&&◌, Option, none, some, List, [], ◌∷◌, map, Bytes,
  if◌then◌else◌, str_copy, str_eq, replicate,
}
use rain_typing_game.Common.Protocol.{max_id_len}

pub record LoggedInUser : Type 0 where
  pub username : Bytes
  pub client_sock : ℕ
  pub is_active : Bool

abbrev max_logged_in_users : ℕ
max_logged_in_users = 100

abbrev is_slot_of : Bytes → LoggedInUser → Bool
is_slot_of username slot = slot.is_active && str_eq slot.username username

-- The loop behind slot `i`.
find_slot : ℕ → Bytes → List LoggedInUser → Option ℕ
find_slot i username [] = none
find_slot i username (slot ∷ slots) =
    let rest = find_slot (suc i) username slots in if is_slot_of username slot then some i else rest

-- The index, or `none` for -1.
pub is_user_already_logged_in : List LoggedInUser → Bytes → Option ℕ
unfolding find_slot
is_user_already_logged_in slots username = find_slot 0 username slots

abbrev taken_by : Bytes → ℕ → LoggedInUser
taken_by username client_sock = record {
  username = str_copy max_id_len username;
  client_sock = client_sock;
  is_active = true;
}

abbrev prepend : LoggedInUser → List LoggedInUser × Bool → List LoggedInUser × Bool
prepend slot (slots, added) = (slot ∷ slots, added)

pub add_logged_in_user : List LoggedInUser → Bytes → ℕ → List LoggedInUser × Bool
add_logged_in_user [] username client_sock = ([], false)
add_logged_in_user (slot ∷ slots) username client_sock =
    let rest = add_logged_in_user slots username client_sock in
    if not slot.is_active then (taken_by username client_sock ∷ slots, true) else prepend slot rest

abbrev cleared : LoggedInUser → LoggedInUser
cleared slot = record slot { is_active = false; username = [] }

pub remove_logged_in_user : List LoggedInUser → Bytes → List LoggedInUser
remove_logged_in_user [] username = []
remove_logged_in_user (slot ∷ slots) username =
    let rest = slot ∷ remove_logged_in_user slots username in
    if is_slot_of username slot then cleared slot ∷ slots else rest

pub init_logged_in_users : List LoggedInUser → List LoggedInUser
init_logged_in_users = map cleared

-- The static array as the program starts with it.
abbrev no_users : List LoggedInUser
no_users =
    replicate max_logged_in_users (record { username = []; client_sock = 0; is_active = false })
