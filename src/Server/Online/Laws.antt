-- ===== src/Server/Online/Laws.antt =====
-- The table as a number of sessions for each name.
use rain_typing_game.Prelude.{
  ℕ, suc, ◌+◌, ◌-◌, ◌≤◌, ◌<◌, ◌≡◌, ◌↔◌, refl, ◌&&◌, true, none, List, [], ◌∷◌, Bytes, if◌then◌else◌,
  length, arith, str_copy_all, str_eq, strcmp_refl, strcmp-eq,
}
use rain_typing_game.Common.Protocol.{max_id_len}
use rain_typing_game.Server.Online.{
  LoggedInUser, is_slot_of, find_slot, is_user_already_logged_in, add_logged_in_user,
  remove_logged_in_user, init_logged_in_users,
}

-- How many slots hold a session of the user.
unfoldable pub sessions : Bytes → List LoggedInUser → ℕ
sessions user [] = 0
sessions user (slot ∷ slots) = (if is_slot_of user slot then 1 else 0) + sessions user slots

unfoldable pub active : List LoggedInUser → ℕ
active [] = 0
active (slot ∷ slots) = (if slot.is_active then 1 else 0) + active slots

-- No user has two sessions.
abbrev pub IsUnique : List LoggedInUser → Type 0
IsUnique slots = (user : Bytes) → sessions user slots ≤ 1

find_slot-sessions :
    (i : ℕ) (user : Bytes) (slots : List LoggedInUser)
    → (find_slot i user slots ≡ none) ↔ (sessions user slots ≡ 0)
unfolding find_slot sessions
find_slot-sessions i user [] = ground arith
find_slot-sessions i user (slot ∷ slots) = ground (arith, find_slot-sessions (suc i) user slots)

-- is_user_already_logged_in returns -1 exactly if the user has no session.
pub is_user_already_logged_in-sessions :
    (slots : List LoggedInUser) (user : Bytes)
    → (is_user_already_logged_in slots user ≡ none) ↔ (sessions user slots ≡ 0)
unfolding is_user_already_logged_in
is_user_already_logged_in-sessions slots user = find_slot-sessions 0 user slots

active-le-length : (slots : List LoggedInUser) → active slots ≤ length slots
unfolding active
active-le-length [] = omega arith
active-le-length (slot ∷ slots) = ground (arith, active-le-length slots)

-- Adding a user whose name fits the slot gives that user one session more and leaves the others
-- theirs, keeps the size of the table, and succeeds exactly if a slot is free.
pub sessions-add :
    (slots : List LoggedInUser) (user v : Bytes) (client_sock : ℕ)
    → length user < max_id_len
    → let (slots', added) = add_logged_in_user slots user client_sock in
      (sessions v slots' ≡ sessions v slots + (if added && str_eq user v then 1 else 0))
      × (length slots' ≡ length slots)
      × ((added ≡ true) ↔ (active slots < length slots))
unfolding add_logged_in_user sessions active
sessions-add [] user v client_sock h = ground arith
sessions-add (slot ∷ slots) user v client_sock h = ground (
  arith,
  active-le-length slots,
  sessions-add slots user v client_sock h,
  str_copy_all {n = max_id_len} user h,
)

pub sessions-remove :
    (slots : List LoggedInUser) (user v : Bytes)
    → (sessions v (remove_logged_in_user slots user)
        ≡ sessions v slots - (if str_eq user v then 1 else 0))
      × (length (remove_logged_in_user slots user) ≡ length slots)
unfolding remove_logged_in_user sessions
sessions-remove [] user v = ground arith
sessions-remove (slot ∷ slots) user v = ground (
  arith,
  sessions-remove slots user v,
  strcmp-eq slot.username user,
  strcmp-eq slot.username v,
  strcmp-eq user v,
  strcmp_refl v,
)

sessions-init :
    (slots : List LoggedInUser) (v : Bytes) → sessions v (init_logged_in_users slots) ≡ 0
unfolding init_logged_in_users sessions
sessions-init [] v = refl
sessions-init (slot ∷ slots) v = omega (arith, sessions-init slots v)

pub active-add :
    (slots : List LoggedInUser) (user : Bytes) (client_sock : ℕ)
    → active slots < length slots
    → active (add_logged_in_user slots user client_sock).0 ≡ active slots + 1
unfolding active add_logged_in_user
active-add [] user client_sock h = omega (arith, h)
active-add (slot ∷ slots) user client_sock h = ground (arith, active-add slots user client_sock)

-- Nobody is logged in behind init_logged_in_users.
pub init_logged_in_users-sessions :
    (user : Bytes) (table : List LoggedInUser) → sessions user (init_logged_in_users table) ≡ 0
unfolding sessions init_logged_in_users
init_logged_in_users-sessions user [] = refl
init_logged_in_users-sessions user (slot ∷ slots) =
    omega (arith, init_logged_in_users-sessions user slots)
