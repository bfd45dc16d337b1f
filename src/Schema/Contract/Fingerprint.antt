-- ===== src/Schema/Contract/Fingerprint.antt =====
-- The fingerprint of a contract does not depend on the order of its tables.

use mathlib.Core.List.{Permᴰ, Perm}
use loomabase.Base.{ℕ, String, ◌≡◌, refl, ap, ◌∙◌, List, [], ◌∷◌, map, arith}
use loomabase.Schema.{TableDef, fnv1a_64, as_bytes}
use loomabase.Schema.Contract.{
  Contract, named_ord, insert_named, sort_named, table_print, contract_fingerprint, describe,
}

insert_named_comm :
    (x y : String × ℕ) (xs : List (String × ℕ))
    → insert_named x (insert_named y xs) ≡ insert_named y (insert_named x xs)
unfolding insert_named
insert_named_comm x y [] = ground (arith, named_ord.flipped x y, named_ord.identical x y)
insert_named_comm x y (z ∷ zs) = ground (
  arith,
  insert_named_comm x y zs,
  named_ord.flipped x y,
  named_ord.identical x y,
  named_ord.flipped x z,
  named_ord.identical x z,
  named_ord.flipped y z,
  named_ord.identical y z,
  named_ord.chained x y z,
  named_ord.chained y x z,
  named_ord.chained x z y,
  named_ord.chained y z x,
  named_ord.chained z x y,
  named_ord.chained z y x,
)

sort_named-Perm :
    (xs ys : List TableDef)
    → Permᴰ xs ys
    → sort_named (map table_print xs) ≡ sort_named (map table_print ys)
unfolding sort_named
sort_named-Perm xs ys Permᴰ.nil = refl
sort_named-Perm xs ys (Permᴰ.cons {a} {b} {l₁} {l₂} e p) =
    ap (λ (t : TableDef). insert_named (table_print t) (sort_named (map table_print l₁))) e
    ∙ ap (insert_named (table_print b)) (sort_named-Perm l₁ l₂ p)
sort_named-Perm xs ys (Permᴰ.swap {a} {b} {a'} {b'} {l} e f) =
    insert_named_comm (table_print a) (table_print b) (sort_named (map table_print l))
    ∙ ap
        (λ (t : TableDef).
          insert_named (table_print t)
            (insert_named (table_print a) (sort_named (map table_print l))))
        f
    ∙ ap
        (λ (t : TableDef).
          insert_named (table_print a')
            (insert_named (table_print t) (sort_named (map table_print l))))
        e
sort_named-Perm xs ys (Permᴰ.trans {l₁} {l₂} {l₃} p q) =
    sort_named-Perm l₁ l₂ p ∙ sort_named-Perm l₂ l₃ q

-- Contracts with the same tables in any order have the same fingerprint.
pub contract_fingerprint_order :
    (a b : Contract) → Perm a.tables b.tables → contract_fingerprint a ≡ contract_fingerprint b
unfolding contract_fingerprint
contract_fingerprint_order a b p =
    ∥∥₁_rec (hlevel) (λ d. ap print (sort_named-Perm a.tables b.tables d)) p
  where
    print : List (String × ℕ) → ℕ
    print prints = fnv1a_64 (as_bytes (describe "loomabase-contract-v1" prints))
