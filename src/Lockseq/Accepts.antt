-- ===== src/Lockseq/Accepts.antt =====
-- lockseq_model::check of pset3/lockseq_model.cc on the values of one unlocked group.
use cs2620_s26_psets.Base.{zero, ℕ, ◌+◌, ◌≡◌, [], ◌∷◌, ◌++◌, length, ◌⊎◌, suc}
use cs2620_s26_psets.Bytes.{Bytes}
use cs2620_s26_psets.Lockseq.Check.{CheckState, ls_unlocked}
use cs2620_s26_psets.Lockseq.Keys.{make_value_key, format_unsigned}
use cs2620_s26_psets.Pancy.Db.{Vv}
use cs2620_s26_psets.Pancy.Map.{Map}

-- "g{G}/".
unfoldable pub group_prefix : ℕ → Bytes
group_prefix gid = 103 ∷ (format_unsigned gid ++ (47 ∷ []))

-- The state of the check in an unlocked group, before the value with number `i`.
unfoldable in_group : ℕ → Bytes → ℕ → CheckState
in_group gid expected i = record {
  last_group = group_prefix gid;
  glen = length (group_prefix gid);
  last_lock = [];
  expected_value = expected;
  expected_index = i;
  lock_state = ls_unlocked;
}

-- The expected value is that of the entry, or there is none yet.
unfoldable Expects : Bytes → Bytes → Type 0
Expects value expected = (expected ≡ []) ⊎ (expected ≡ value)

-- `count` entries of a group, from number `i` on, all with one value.
unfoldable pub group_entries : ℕ → Vv → ℕ → ℕ → Map Vv
group_entries gid vv zero i = []
group_entries gid vv (suc count) i = (make_value_key gid i, vv) ∷ group_entries gid vv count (i + 1)
