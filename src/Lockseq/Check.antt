-- ===== src/Lockseq/Check.antt =====
-- lockseq_model::check of pset3/lockseq_model.cc: could clients have made this database?
use cs2620_s26_psets.Base.{
  ℕ, suc, ◌+◌, ◌-◌, ◌%◌, ◌^◌, Bool, true, false, not, ◌&&◌, ◌||◌, Option, none, some, List, [], ◌∷◌,
  ltb, ◌==◌, if◌then◌else◌, ◌>>=◌, length, get_elem?, drop, take,
}
use cs2620_s26_psets.Bytes.{Bytes, str_eq}
use cs2620_s26_psets.Pancy.Db.{Pancydb, Vv}
use cs2620_s26_psets.Pancy.Map.{Map}
use cs2620_s26_psets.Lockseq.Digits.{parse_digits, unsigned_max}

pub data LockState : Type 0 where
  ls_unlocked ls_locked_start ls_locked_rest : LockState

-- The variables of the loop; `glen`, unset at first, is only read once there is a group.
pub record CheckState : Type 0 where
  pub last_group : Bytes
  pub glen : ℕ
  pub last_lock : Bytes
  pub expected_value : Bytes
  pub expected_index : ℕ
  pub lock_state : LockState

abbrev pub check_start : CheckState
check_start = record {
  last_group = [];
  glen = 0;
  last_lock = [];
  expected_value = [];
  expected_index = 0;
  lock_state = ls_unlocked;
}

abbrev pub is_unlocked : LockState → Bool
is_unlocked ls_unlocked = true
is_unlocked ls_locked_start = false
is_unlocked ls_locked_rest = false

abbrev pub is_locked_start : LockState → Bool
is_locked_start ls_unlocked = false
is_locked_start ls_locked_start = true
is_locked_start ls_locked_rest = false

abbrev pub is_empty {ℓ} : {A : Type ℓ} → List A → Bool
is_empty [] = true
is_empty (x ∷ xs) = false

unfoldable pub starts_with : Bytes → Bytes → Bool
starts_with s [] = true
starts_with [] (y ∷ ys) = false
starts_with (x ∷ xs) (y ∷ ys) = x == y && starts_with xs ys

-- For a suffix that is no longer than the string.
unfoldable pub ends_with : Bytes → Bytes → Bool
ends_with s suffix = str_eq (drop (length s - length suffix) s) suffix

-- `s.find(ch)`.
unfoldable pub find_char : ℕ → Bytes → Option ℕ
find_char ch [] = none
find_char ch (x ∷ s) =
    let rest = find_char ch s in
    if x == ch then some 0 else elim rest [ none ↦ none | some i ↦ some (suc i) ]

-- `s[i] == ch`; the terminating zero is not one of the characters compared with.
unfoldable pub char_is : Bytes → ℕ → ℕ → Bool
char_is s i ch = elim (get_elem? s i) [ none ↦ false | some x ↦ x == ch ]

abbrev pub lock_suffix : Bytes
lock_suffix = 108 ∷ 111 ∷ 99 ∷ 107 ∷ []

-- The check for a new group; none is `return key`.
unfoldable pub check_group : Bytes → CheckState → Option CheckState
check_group key s =
    if is_empty s.last_group || not (starts_with key s.last_group)
    then if ltb (length key) 3 || not (char_is key 0 103) then none else elim (find_char 47 key) [
      | none ↦ none
      | some slash ↦
          if parse_digits key 1 slash == unsigned_max
          then none
          else some (record s {
            last_group = take (slash + 1) key;
            glen = slash + 1;
            expected_value = [];
            expected_index = 0;
            lock_state = ls_unlocked;
          })
    ]
    else some s

abbrev pub is_lock_key : Bytes → CheckState → Bool
is_lock_key key s = length key == s.glen + 4 && ends_with key lock_suffix

unfoldable pub check_lock : Bytes → CheckState → Option CheckState
check_lock value s =
    if not (s.expected_index == 0) || not (is_unlocked s.lock_state)
    then none
    else if length value == 0
    then some s
    else if ltb (length value) 4 || not (char_is value 0 99)
    then none
    else some (record s { last_lock = value; lock_state = ls_locked_start; expected_value = value })

-- The checks of the index and of the value of a value key.
unfoldable pub check_index : ℕ → CheckState → Option CheckState
check_index vindex s =
    if vindex == s.expected_index
    then some s
    else if not (is_locked_start s.lock_state) || ltb vindex s.expected_index
    then none
    else some
        (record s { lock_state = ls_locked_rest; expected_index = vindex; expected_value = [] })

unfoldable pub check_value : Bytes → CheckState → Option CheckState
check_value value s =
    let differs = not (is_empty s.expected_value) && not (str_eq value s.expected_value) in
    if differs && not (is_locked_start s.lock_state)
    then none
    else some (record s {
      lock_state = if differs then ls_locked_rest else s.lock_state;
      expected_value = value;
      expected_index = (s.expected_index + 1) % 2 ^ 32;
    })

unfoldable pub check_entry : Bytes → Bytes → CheckState → Option CheckState
check_entry key value s = check_group key s >>= λ g.
    if is_lock_key key g
    then check_lock value g
    else (let vindex = parse_digits key (g.glen + 1) (g.glen + 4) in
        if not (length key == g.glen + 4)
          || not (char_is key g.glen 118)
          || vindex == unsigned_max
          || is_empty value
        then none
        else check_index vindex g >>= check_value value)

unfoldable pub check_loop : Map Vv → CheckState → Option Bytes
check_loop [] s = none
check_loop ((key, vv) ∷ m) s = elim (check_entry key vv.value s) [
  | none ↦ some key
  | some s' ↦ check_loop m s'
]

-- A bad key, or none.
unfoldable pub check : Pancydb → Option Bytes
check d = check_loop d.db check_start
