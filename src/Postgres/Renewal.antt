-- ===== src/Postgres/Renewal.antt =====
-- Leases of the PostgreSQL server (src/server.rs): what a renewal and an expiry leave, and what a
-- lease allows.
use package.text.Mathlib.Text.{◌==◌ as str_eq}
use loomabase.Base.{
  ℕ, String, Bool, true, false, not, ◌&&◌, ◌||◌, ◌≡◌, ◌≤◌, refl, ap, ◌∙◌, Option, none, some, [],
  arith, inl, inr, Ordering-cases, ◌∷◌,
}
use loomabase.Base.Int.{ℤ, pos, negsuc, int_leb, int_max}
use loomabase.BTree.{get}
use loomabase.BTree.Lookup.{get-insert_self}
use loomabase.Order.{Ord}
use loomabase.Order.Pair.{pair_ord}
use loomabase.Order.Text.{text_ord}
use loomabase.Value.{SyncPayload}
use loomabase.Schema.{TableDef}
use loomabase.Postgres.{Database, Lease}
use loomabase.Postgres.Merge.{lease_key, lease_of, is_text, lease_allows, renewed, renew_lease}
use loomabase.Postgres.Leases.{Leases, is_inactive, delete_inactive}
use loomabase.Postgres.Sequence.{str_eq_refl}

abbrev pub keys : Ord (String × (String × String))
keys = pair_ord

pub never_reset : (b : Bool) → (not b && not (b || true)) ≡ false
never_reset true = refl
never_reset false = refl

pub int_leb-le : (z : ℤ) (m n : ℕ) → int_leb z (pos m) ≡ true → m ≤ n → int_leb z (pos n) ≡ true
int_leb-le (pos a) m n h le = ground arith
int_leb-le (negsuc a) m n h le = refl

int_leb-max : (a z : ℤ) → int_leb z (int_max a z) ≡ true
int_leb-max (pos a) (pos z) = ground arith
int_leb-max (pos a) (negsuc z) = ground arith
int_leb-max (negsuc a) (pos z) = ground arith
int_leb-max (negsuc a) (negsuc z) = ground arith

int_leb_same : (z : ℤ) → int_leb z z ≡ true
int_leb_same (pos a) = ground arith
int_leb_same (negsuc a) = ground arith

pub renewed-covers :
    (uuid : String) (now : ℕ) (cursor : ℤ) (epoch : String) (old : Option Lease)
    → (int_leb cursor (renewed uuid now cursor epoch old).max_issued_cursor ≡ true)
      × ((renewed uuid now cursor epoch old).server_epoch ≡ epoch)
unfolding renewed
renewed-covers uuid now cursor epoch none = (int_leb_same cursor, refl)
renewed-covers uuid now cursor epoch (some lease) =
    (int_leb-max lease.max_issued_cursor cursor, refl)

-- A lease allows a cursor that it covers, with its own token and the epoch of the server.
pub lease_allows_covered :
    (request : SyncPayload) (m : ℕ) (epoch : String) (lease : Lease)
    → int_leb request.cursor (pos m) ≡ true
    → int_leb request.cursor lease.max_issued_cursor ≡ true
    → request.cursor_token ≡ some lease.cursor_token
    → request.server_epoch ≡ some epoch
    → lease.server_epoch ≡ epoch
    → lease_allows request (pos m) epoch (some lease) ≡ true
unfolding lease_allows
lease_allows_covered request m epoch lease below issued token same own =
    let token_ok : is_text request.cursor_token lease.cursor_token ≡ true =
      ap (λ (o : Option String). is_text o lease.cursor_token) token
      ∙ str_eq_refl lease.cursor_token in
    let epoch_ok : is_text request.server_epoch lease.server_epoch ≡ true =
      ap (λ (o : Option String). is_text o lease.server_epoch) same
      ∙ ap (str_eq epoch) own
      ∙ str_eq_refl epoch in
    let current : str_eq lease.server_epoch epoch ≡ true =
      ap (λ (e : String). str_eq e epoch) own ∙ str_eq_refl epoch in
    ground arith

pub renew_lease-lease_of :
    (uuid : String) (now : ℕ) (t device : String) (table : TableDef) (cursor : ℤ) (db : Database)
    → lease_of t device table (renew_lease uuid now t device table cursor db)
      ≡ some (renewed uuid now cursor db.server_epoch (lease_of t device table db))
unfolding renew_lease
renew_lease-lease_of uuid now t device table cursor db =
    get-insert_self (lease_key t device table) _ db.leases

pub int_leb-max_left : (z a b : ℤ) → int_leb z a ≡ true → int_leb z (int_max a b) ≡ true
int_leb-max_left (pos z) (pos a) (pos b) h = ground arith
int_leb-max_left (pos z) (pos a) (negsuc b) h = ground arith
int_leb-max_left (pos z) (negsuc a) b h = absurd (ground arith)
int_leb-max_left (negsuc z) (pos a) (pos b) h = ground arith
int_leb-max_left (negsuc z) (pos a) (negsuc b) h = ground arith
int_leb-max_left (negsuc z) (negsuc a) (pos b) h = ground arith
int_leb-max_left (negsuc z) (negsuc a) (negsuc b) h = ground arith

some-injective {ℓ} : {A : Type ℓ} {a b : A} → some a ≡ some b → a ≡ b
some-injective h = cc

pub delete_inactive-get :
    (now seconds : ℕ) (key : String × (String × String)) (lease : Lease) (leases : Leases)
    → get key leases ≡ some lease
    → is_inactive now seconds lease ≡ false
    → get key (delete_inactive now seconds leases).0 ≡ some lease
unfolding delete_inactive get
delete_inactive-get now seconds key lease [] h active = ground arith
delete_inactive-get now seconds key lease ((k, l) ∷ leases) h active =
    elim (Ordering-cases (keys.cmp key k)) [
      | inl lower ↦
          let later : get key leases ≡ some lease = ground arith in
          ground (arith, delete_inactive-get now seconds key lease leases later active)
      | inr (inl same) ↦
          let is_lease : l ≡ lease = some-injective (ground arith) in
          let stays : is_inactive now seconds l ≡ false =
            ap (is_inactive now seconds) is_lease ∙ active in
          ground arith
      | inr (inr higher) ↦
          let later : get key leases ≡ some lease = ground arith in
          ground (arith, delete_inactive-get now seconds key lease leases later active)
    ]
