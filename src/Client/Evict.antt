-- ===== src/Client/Evict.antt =====
-- `cleanup_pending_evictions` (src/client.rs): a row that is in no scope any more is deleted once
-- none of its cells is dirty.
use package.text.Mathlib.Text.{◌==◌ as str_eq}
use loomabase.Base.{String, Bool, false, ◌&&◌, List, [], ◌∷◌, any, if◌then◌else◌}
use loomabase.BTree.{BTreeMap, insert}
use loomabase.Order.Text.{text_ord}
use loomabase.Validate.{Key}
use loomabase.Client.{SqlValue, LogCell, Client}

-- `SELECT DISTINCT row_id … ORDER BY row_id`
unfoldable pub pending_rows : List (String × String) → BTreeMap String Unit
pending_rows [] = []
pending_rows ((scope_id, row_id) ∷ evictions) = insert row_id tt (pending_rows evictions)

-- `membership_exists`
unfoldable pub is_member : List (String × String) → String → Bool
is_member members row_id = any (λ (m : String × String). str_eq m.1 row_id) members

-- `dirty_exists`
unfoldable pub has_dirty : BTreeMap Key LogCell → String → Bool
has_dirty log row_id = any (λ (e : Key × LogCell). str_eq e.0.0 row_id && e.1.dirty) log

unfoldable pub forget_eviction : String → List (String × String) → List (String × String)
forget_eviction row_id [] = []
forget_eviction row_id (e ∷ evictions) =
    let rest = forget_eviction row_id evictions in if str_eq e.1 row_id then rest else e ∷ rest

unfoldable pub delete_row :
    String → BTreeMap String (BTreeMap String SqlValue) → BTreeMap String (BTreeMap String SqlValue)
delete_row row_id [] = []
delete_row row_id (r ∷ rows) =
    let rest = delete_row row_id rows in if str_eq r.0 row_id then rest else r ∷ rest

-- `ON DELETE CASCADE`: the log follows the row.
unfoldable pub delete_cells : String → BTreeMap Key LogCell → BTreeMap Key LogCell
delete_cells row_id [] = []
delete_cells row_id (e ∷ log) =
    let rest = delete_cells row_id log in if str_eq e.0.0 row_id then rest else e ∷ rest

-- One round of the loop.
unfoldable pub evict_row : String → Client → Client
unfolding is_member has_dirty forget_eviction delete_row delete_cells
evict_row row_id s =
    if is_member s.scope_members row_id
    then record s { scope_evictions = forget_eviction row_id s.scope_evictions }
    else if has_dirty s.log row_id
    then s
    else record s {
      applying_remote = false;
      rows = delete_row row_id s.rows;
      log = delete_cells row_id s.log;
      scope_evictions = forget_eviction row_id s.scope_evictions;
    }

unfoldable pub evict_rows : BTreeMap String Unit → Client → Client
unfolding evict_row
evict_rows [] s = s
evict_rows ((row_id, _) ∷ pending) s = evict_rows pending (evict_row row_id s)

unfoldable pub cleanup_pending_evictions : Client → Client
unfolding pending_rows evict_rows
cleanup_pending_evictions s = evict_rows (pending_rows s.scope_evictions) s
