-- ===== src/Client.antt =====
-- src/client.rs: the database of an offline client for one table: the application rows, the log of
-- the synchronized cells with their versions and dirty flags, the clock and the cursor. The change
-- triggers that `sqlite_schema` (src/schema.rs) declares are functions here.
pub mod Codec
pub mod Evict
pub mod Sync
pub mod Remote
pub mod Local
pub mod Scope
pub mod Pages
use Prim.Native.String.{◌++◌}
use package.text.Mathlib.Text.{◌==◌ as str_eq}
use loomabase.Base.{
  ℕ, ◌+◌, String, Bool, true, false, not, Option, none, some, List, [], ◌∷◌, leb, ltb,
  if◌then◌else◌,
}
use loomabase.Base.Int.{ℤ, pos, negsuc, int_eq, int_leb, int_succ}
use loomabase.Base.Decimal.{decimal}
use loomabase.BTree.{BTreeMap, get, insert}
use loomabase.Order.Pair.{pair_ord}
use loomabase.Order.Text.{text_ord}
use loomabase.Error.{Result, ok, err, ◌>>=◌, sqlite}
use loomabase.Value.{max_storable_lamport, real_eq}
use loomabase.Schema.{ColumnType, ColumnDef}
use loomabase.Validate.{Key}

pub data SqlValue : Type 0 where
  text : String → SqlValue
  integer : ℤ → SqlValue
  -- the bits of the number
  real : ℕ → SqlValue

-- A row of the CRDT table.
pub record LogCell : Type 0 where
  pub value : String
  pub lamport_clock : ℤ
  pub device_id : String
  pub dirty : Bool

-- The row of `loomabase_cursor` for the table.
pub record StoredCursor : Type 0 where
  pub cursor : ℤ
  pub cursor_token : Option String
  pub server_epoch : Option String

-- A row of `loomabase_scope_state`, under its scope.
pub record ScopeState : Type 0 where
  pub version : ℤ
  pub active : Bool

pub record Client : Type 0 where
  pub device_id : String
  pub lamport_clock : ℤ
  pub applying_remote : Bool
  pub rows : BTreeMap String (BTreeMap String SqlValue)
  pub log : BTreeMap Key LogCell
  pub stored_cursor : Option StoredCursor
  -- `loomabase_scope_members` and `loomabase_scope_evictions`: a scope and a row
  pub scope_members : List (String × String)
  pub scope_evictions : List (String × String)
  pub scope_states : BTreeMap String ScopeState

-- `OLD.c IS NOT NEW.c`, negated; the values of one column have one type.
unfoldable pub sql_is : SqlValue → SqlValue → Bool
sql_is (text a) (text b) = str_eq a b
sql_is (integer a) (integer b) = int_eq a b
sql_is (real a) (real b) = real_eq a b
sql_is _ _ = false

unfoldable pub print_integer : ℤ → String
print_integer (pos n) = decimal n
print_integer (negsuc n) = "-" ++ decimal (n + 1)

-- `lamport_clock + 1`, under the guard of the triggers.
unfoldable pub tick : Client → Result Client
tick s =
    if int_leb (pos max_storable_lamport) s.lamport_clock
    then err (sqlite "lamport clock overflow")
    else ok (record s { lamport_clock = int_succ s.lamport_clock })

-- How SQLite casts a real to text is not part of the repository.
module _ (cast_real : ℕ → String) where
  -- `ColumnType::sqlite_capture_expr`, on the value that it reads
  unfoldable pub capture_text : SqlValue → String
  unfolding print_integer
  capture_text (text t) = t
  capture_text (integer i) = print_integer i
  capture_text (real r) = cast_real r

  -- `capture_statement`: the cell is logged at the clock of the device, dirty.
  unfoldable pub capture : Key → SqlValue → Client → Client
  unfolding capture_text
  capture key value s = record s {
    log =
        insert key
          (record {
            value = capture_text value;
            lamport_clock = s.lamport_clock;
            device_id = s.device_id;
            dirty = true;
          })
          s.log;
  }

  -- The update trigger of a column, after its row was written.
  unfoldable pub after_update : Key → SqlValue → SqlValue → Client → Result Client
  unfolding tick capture sql_is
  after_update key old new s =
      if s.applying_remote
      then ok s
      else if sql_is old new
      then ok s
      else tick s >>= λ ticked. ok (capture key new ticked)
