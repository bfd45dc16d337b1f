-- ===== src/Postgres/Leases.antt =====
-- `expire_cursor_leases` and `rotate_server_epoch` (src/server.rs).
use loomabase.Base.{ℕ, ◌+◌, suc, String, Bool, not, [], ◌∷◌, leb, ltb, if◌then◌else◌}
use loomabase.BTree.{BTreeMap}
use loomabase.Error.{Result, ok, ◌>>◌, reject_if, lease_ttl_too_large}
use loomabase.Value.{max_storable_lamport}
use loomabase.Postgres.{Database, Lease}

abbrev pub Leases : Type 0
Leases = BTreeMap (String × (String × String)) Lease

-- `last_seen_at < clock_timestamp() - interval`
abbrev pub is_inactive : (now seconds : ℕ) → Lease → Bool
is_inactive now seconds lease = ltb (lease.last_seen_at + seconds) now

-- The `DELETE`: the leases that stay, and how many were removed.
unfoldable pub delete_inactive : (now seconds : ℕ) → Leases → Leases × ℕ
delete_inactive now seconds [] = ([], 0)
delete_inactive now seconds ((key, lease) ∷ leases) =
    let rest = delete_inactive now seconds leases in
    if is_inactive now seconds lease then (rest.0, suc rest.1) else ((key, lease) ∷ rest.0, rest.1)

-- `expire_cursor_leases`; times are in seconds.
unfoldable pub expire_cursor_leases : (now seconds : ℕ) → Database → Result (Database × ℕ)
unfolding delete_inactive
expire_cursor_leases now seconds db = do
  reject_if (not (leb seconds max_storable_lamport)) lease_ttl_too_large
  let deleted = delete_inactive now seconds db.leases
  ok (record db { leases = deleted.0 }, deleted.1)

-- `rotate_server_epoch`, with the epoch that `gen_random_uuid()` draws.
unfoldable pub rotate_server_epoch : (uuid : String) → Database → Database × String
rotate_server_epoch uuid db = (record db { server_epoch = uuid; leases = [] }, uuid)
